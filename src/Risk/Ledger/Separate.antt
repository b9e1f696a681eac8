-- ===== src/Risk/Ledger/Separate.antt =====
-- The tables `not_run` and `reservations` together (src/esscher/risk/ledger.py).
use esscher_market.Base.{
  ℕ, Bool, false, ◌&&◌, List, [], ◌∷◌, ◌++◌, find, update, is_some, ◌≡◌, refl, arith, Bool-cases,
  inl, inr,
}
use esscher_market.Base.Text.{Text, same, same_iff}
use esscher_market.Base.Json.{Host}
use esscher_market.Risk.Ledger.Rows.{Ledger, Reservation, ReservationState, NotRun, empty}
use esscher_market.Risk.Ledger.Monad.{modify}
use esscher_market.Risk.Ledger.Queries.{of_event, not_run_of, not_run_exists, reservation_for_event}
use esscher_market.Risk.Ledger.Passport.{append_passport}
use esscher_market.Risk.Ledger.Candidates.{
  record_candidate, freeze_candidate, freeze_body, record_not_run, not_run_body,
}
use esscher_market.Risk.Ledger.Reservations.{
  reserve, reserve_body, transition_reservation, transition_body, consume_reservation,
  release_reservation, record_permit, record_permit_body, update_permit_state, update_permit_body,
  insert_reservation, insert_permit, set_reservation_state, transition_permit,
}
use esscher_market.Risk.Ledger.Orders.{
  record_submission, submission_body, record_fill, reconcile_observed_order, reconcile_body, settle,
  release_consumed_after_flat, flat_body,
}
use esscher_market.Risk.Ledger.Authorize.{
  Order, reserve_and_issue_permit, validated_order, issue_body, require_authorized,
}
use esscher_market.Risk.Ledger.Intents.{
  record_lifecycle_intent, validated_intent, intent_body, bind_lifecycle_intent, bind_body,
  mark_lifecycle_intent_reconciled, reconciled_body,
}
use esscher_market.Risk.Ledger.Records.{
  record_position, record_reconciliation, record_account_snapshot, set_control_state,
  set_control_state_with_passport, set_control_body,
}
use esscher_market.Risk.Ledger.Keeps.{Keeps, keeps_rules}
use esscher_market.Risk.Ledger.Ensures.{
  Ensures, Ensures-bind, Ensures-modify, Ensures-reject_if, Keeps-Ensures, Keeps-when_returns,
  then_gets, then_reject_if, then_or_reject, then_constraint, then_modify,
}
use esscher_market.Risk.Ledger.Holdings.{moved}
use esscher_market.Risk.Ledger.Operations.{LedgerCall, perform, perform_all}

-- Whether the event has a row in both tables.
abbrev both : Text → List NotRun → List Reservation → Bool
both e ns rs = is_some (find (not_run_of e) ns) && is_some (find (of_event e) rs)

abbrev pub IsSeparate : List NotRun → List Reservation → Type 0
IsSeparate ns rs = (e : Text) → both e ns rs ≡ false

find-add :
    {A : Type 0} (test : A → Bool) (x : A) (xs : List A)
    → test x ≡ false
    → is_some (find test (xs ++ x ∷ [])) ≡ is_some (find test xs)
find-add test x [] h = ground arith
find-add test x (y ∷ ys) h = ground (arith, find-add test x ys h)

IsSeparate-hold :
    (ns : List NotRun) (rs : List Reservation) (row : Reservation)
    → is_some (find (not_run_of row.event_id) ns) ≡ false
    → IsSeparate ns rs
    → IsSeparate ns (rs ++ row ∷ [])
IsSeparate-hold ns rs row absent s e = elim (Bool-cases (same row.event_id e)) [
  | inl q ↦
      (let p : row.event_id ≡ e = (same_iff row.event_id e).0 q in
        let a : is_some (find (not_run_of e) ns) ≡ false = rw (← p) absent in rw a refl)
  | inr q ↦ rw (find-add (of_event e) row rs q) (s e)
]

IsSeparate-abstain :
    (ns : List NotRun) (rs : List Reservation) (n : NotRun)
    → is_some (find (of_event n.event_id) rs) ≡ false
    → IsSeparate ns rs
    → IsSeparate (ns ++ n ∷ []) rs
IsSeparate-abstain ns rs n absent s e = elim (Bool-cases (same n.event_id e)) [
  | inl q ↦
      (let p : n.event_id ≡ e = (same_iff n.event_id e).0 q in
        let a : is_some (find (of_event e) rs) ≡ false = rw (← p) absent in ground arith)
  | inr q ↦ rw (find-add (not_run_of e) n ns q) (s e)
]

find-moved :
    (e x : Text) (state : ReservationState) (now : ℕ) (rs : List Reservation)
    → is_some (find (of_event x) (update (of_event e) (moved state now) rs))
      ≡ is_some (find (of_event x) rs)
find-moved e x state now [] = refl
find-moved e x state now (r ∷ rs) = elim (Bool-cases (same r.event_id e)) [
  | inl q ↦ rw q (ground (arith, find-moved e x state now rs))
  | inr q ↦ rw q (ground (arith, find-moved e x state now rs))
]

IsSeparate-move :
    (e : Text) (state : ReservationState) (now : ℕ) (ns : List NotRun) (rs : List Reservation)
    → IsSeparate ns rs
    → IsSeparate ns (update (of_event e) (moved state now) rs)
IsSeparate-move e state now ns rs s x = rw (find-moved e x state now rs) (s x)

abbrev Apart : Ledger → Type 0
Apart l = IsSeparate l.not_run l.reservations

set_reservation_state-Apart :
    (e : Text) (state : ReservationState) (now : ℕ)
    → Keeps Apart (set_reservation_state e state now)
unfolding set_reservation_state modify
set_reservation_state-Apart e state now = record {
  at = λ l s. IsSeparate-move e state now l.not_run l.reservations s;
}

module _ (host : Host) where
  reserve_body-Apart :
      (e : Text) (value : ℕ) (symbol : Text) (now : ℕ) (l : Ledger)
      → Apart l
      → Ensures (reserve_body e value symbol now) l (λ _. Apart)
  unfolding reserve_body insert_reservation
  reserve_body-Apart e value symbol now l s = then_gets _ _ (
      then_reject_if _ _ _ λ absent. then_gets _ _ (
        then_reject_if _ _ _ λ _. then_gets _ _ (
          then_constraint _ _
            λ _. Ensures-modify _ l (IsSeparate-hold l.not_run l.reservations _ absent s))))

  not_run_body-Apart :
      (n : NotRun) (b : Bool) (l : Ledger)
      → Apart l
      → Ensures (not_run_body host n b) l (λ _. Apart)
  unfolding not_run_body append_passport
  not_run_body-Apart n b l s = then_gets _ _ (
      then_reject_if _ _ _ λ _. then_gets _ _ (
        then_reject_if _ _ _ λ absent. then_gets _ _ (
          then_constraint _ _ λ _. then_modify _ _ (
            Keeps-Ensures (search keeps_rules depth 40)
              (IsSeparate-abstain l.not_run l.reservations n absent s)))))

  issue_body-Apart : (o : Order) (l : Ledger) → Apart l → Ensures (issue_body host o) l (λ _. Apart)
  unfolding issue_body append_passport require_authorized insert_reservation insert_permit
  issue_body-Apart o l s = Ensures-bind _ _ l (
      then_gets _ _ (
        then_reject_if _ _ _ λ absent. then_gets _ _ (
          then_or_reject _ _ _ λ _ _. then_reject_if _ _ _ λ _. then_reject_if _ _ _ λ _.
            then_gets _ _ (
              then_reject_if _ _ _ λ _. then_gets _ _ (
                then_reject_if _ _ _ λ _. then_reject_if _ _ _ λ _. Ensures-reject_if _ _ l λ _.
                  Ensures-bind _ _ l (
                    then_gets _ _ (
                      then_constraint _ _ λ _. Ensures-modify _ l (
                        Keeps-Ensures (search keeps_rules depth 40)
                          (IsSeparate-hold l.not_run l.reservations _ absent s)))))))))

  ruleset apart_rules = (
    keeps_rules, Keeps-when_returns, set_reservation_state-Apart, reserve_body-Apart,
    not_run_body-Apart, issue_body-Apart,
  )

  perform-Apart : (call : LedgerCall) → Keeps Apart (perform host call)
  unfolding perform record_candidate freeze_candidate freeze_body record_not_run reserve
      transition_reservation transition_body consume_reservation release_reservation record_permit
      record_permit_body update_permit_state update_permit_body transition_permit record_submission
      submission_body record_fill reconcile_observed_order reconcile_body
      release_consumed_after_flat flat_body settle reserve_and_issue_permit validated_order
      insert_permit record_lifecycle_intent validated_intent intent_body bind_lifecycle_intent
      bind_body mark_lifecycle_intent_reconciled reconciled_body record_position
      record_reconciliation record_account_snapshot set_control_state
      set_control_state_with_passport set_control_body append_passport
  perform-Apart (LedgerCall.append_event t p n) = search apart_rules depth 40
  perform-Apart _ = search apart_rules depth 40

  perform_all-Apart :
      (calls : List LedgerCall) (l : Ledger) → Apart l → Apart (perform_all host calls l)
  unfolding perform_all
  perform_all-Apart [] l s = s
  perform_all-Apart (call ∷ calls) l s =
      perform_all-Apart calls (perform host call l).1 ((perform-Apart call).at l s)

  -- After any sequence of ledger calls on an empty database, failed ones included, no event has both
  -- an abstention (a `not_run` row) and a reservation.
  pub abstention_excludes_reservation :
      (calls : List LedgerCall) (e : Text)
      → let l : Ledger = perform_all host calls empty in
        (not_run_exists e l && is_some (reservation_for_event e l)) ≡ false
  abstention_excludes_reservation calls e = perform_all-Apart calls empty (λ _. refl) e
