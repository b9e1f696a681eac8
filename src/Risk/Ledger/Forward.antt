-- ===== src/Risk/Ledger/Forward.antt =====
-- The order of the states of a permit (src/esscher/risk/ledger.py).
pub mod Calls
use esscher_market.Base.{
  ℕ, Bool, true, false, not, Option, none, some, List, [], ◌∷◌, ◌++◌, find, update, arith, ◌≡◌,
  refl, ap, sym, ◌∙◌, Bool-cases, inl, inr, is_none, if◌then◌else◌,
}
use esscher_market.Base.Text.{Text, same, same_iff}
use esscher_market.Base.Json.{Host}
use esscher_market.Base.Result.{ok, err}
use esscher_market.Risk.Passport.{PassportEventType}
use esscher_market.Risk.Ledger.Rows.{Ledger, Permit, PermitState, ReservationState, Fill}
use esscher_market.Risk.Ledger.Monad.{◌>>=◌}
use esscher_market.Risk.Ledger.Queries.{has_permit_id, permit_by_id}
use esscher_market.Risk.Ledger.Passport.{append_passport}
use esscher_market.Risk.Ledger.Candidates.{
  record_candidate, freeze_candidate, freeze_body, record_not_run, not_run_body,
}
use esscher_market.Risk.Ledger.Reservations.{
  reserve, reserve_body, transition_reservation, transition_body, consume_reservation,
  release_reservation, record_permit, record_permit_body, update_permit_state, update_permit_body,
  insert_reservation, insert_permit, set_reservation_state, transition_permit, same_permit_state,
  is_allowed,
}
use esscher_market.Risk.Ledger.Orders.{
  record_submission, submission_body, record_fill, reconcile_observed_order, reconcile_body, settle,
  release_consumed_after_flat, flat_body, terminal_outcome, owned_permit, require_reserved,
}
use esscher_market.Risk.Ledger.Authorize.{
  reserve_and_issue_permit, validated_order, issue_body, require_authorized,
}
use esscher_market.Risk.Ledger.Intents.{
  record_lifecycle_intent, validated_intent, intent_body, bind_lifecycle_intent, bind_body,
  mark_lifecycle_intent_reconciled, reconciled_body,
}
use esscher_market.Risk.Ledger.Records.{
  record_position, record_reconciliation, record_account_snapshot, set_control_state,
  set_control_state_with_passport, set_control_body,
}
use esscher_market.Risk.Ledger.Keeps.{Keeps, keeps_rules}
use esscher_market.Risk.Ledger.Ensures.{
  Ensures, Ensures-bind, Ensures-modify, Ensures-pure, Ensures-reject_if, Keeps-Ensures,
  Keeps-when_returns, then_gets, then_reject_if, then_or_reject, then_constraint, then_modify,
  then_check, then_keeps,
}
use esscher_market.Risk.Ledger.Operations.{LedgerCall, perform, perform_all}

-- A permit in the first state may later be in the second one.
abbrev pub is_forward : PermitState → PermitState → Bool
is_forward PermitState.issued _ = true
is_forward PermitState.submitted PermitState.issued = false
is_forward PermitState.submitted _ = true
is_forward PermitState.filled PermitState.filled = true
is_forward PermitState.cancelled PermitState.cancelled = true
is_forward _ _ = false

-- The permit is there, in a state that may follow `s`.
abbrev pub HasMoved : Text → PermitState → List Permit → Type 0
HasMoved id s ps =
    (p : Permit) × (find (has_permit_id id) ps ≡ some p) × (is_forward s p.state ≡ true)

find_append :
    (id : Text) (ps : List Permit) (new p : Permit)
    → find (has_permit_id id) ps ≡ some p
    → find (has_permit_id id) (ps ++ new ∷ []) ≡ some p
find_append id [] new p found = ground arith
find_append id (q ∷ ps) new p found = ground (arith, find_append id ps new p)

HasMoved-append :
    (id : Text) (s : PermitState) (ps : List Permit) (new : Permit)
    → HasMoved id s ps
    → HasMoved id s (ps ++ new ∷ [])
HasMoved-append id s ps new (p, found, h) = (p, find_append id ps new p found, h)

-- What `_transition_permit_in_transaction` makes of a row.
abbrev turned : PermitState → ℕ → Permit → Permit
turned target now p = record p { state = target; updated_at = now }

find-turned :
    (id other : Text) (target : PermitState) (now : ℕ) (ps : List Permit) (p : Permit)
    → find (has_permit_id id) ps ≡ some p
    → find (has_permit_id id) (update (has_permit_id other) (turned target now) ps)
      ≡ some (if same p.permit_id other then turned target now p else p)
find-turned id other target now [] p found = ground arith
find-turned id other target now (q ∷ ps) p found = elim (Bool-cases (same q.permit_id id)) [
  | inl e ↦
      let qp : q ≡ p = ground arith in
      elim (Bool-cases (same q.permit_id other)) [
        | inl o ↦ rw (← qp, o, e) refl
        | inr o ↦ rw (← qp, o, e) refl
      ]
  | inr e ↦
      let later = find-turned id other target now ps p (ground arith) in
      elim (Bool-cases (same q.permit_id other)) [
        | inl o ↦ rw (o, e) later
        | inr o ↦ rw (o, e) later
      ]
]

find-permit_id :
    (id : Text) (ps : List Permit) (p : Permit)
    → find (has_permit_id id) ps ≡ some p
    → p.permit_id ≡ id
find-permit_id id [] p found = ground arith
find-permit_id id (q ∷ ps) p found = elim (Bool-cases (same q.permit_id id)) [
  | inl e ↦ (let qp : q ≡ p = ground arith in rw (← qp) ((same_iff q.permit_id id).0 e))
  | inr e ↦ find-permit_id id ps p (ground arith)
]

same_state_forward :
    (s a b target : PermitState)
    → not (same_permit_state a b) ≡ false
    → is_forward b target ≡ true
    → is_forward s a ≡ true
    → is_forward s target ≡ true
same_state_forward s a b target h f k = ground arith

HasMoved-turned :
    (id other : Text) (s expected target : PermitState) (now : ℕ) (ps : List Permit) (r : Permit)
    → is_forward expected target ≡ true
    → find (has_permit_id other) ps ≡ some r
    → not (same_permit_state r.state expected) ≡ false
    → HasMoved id s ps
    → HasMoved id s (update (has_permit_id other) (turned target now) ps)
HasMoved-turned id other s expected target now ps r forward at_r state (p, found, h) =
    let after = find-turned id other target now ps p found in
    elim (Bool-cases (same p.permit_id other)) [
      | inl e ↦
          let agree : id ≡ other =
            sym (find-permit_id id ps p found) ∙ (same_iff p.permit_id other).0 e in
          let here : find (has_permit_id id) ps ≡ some r = rw agree at_r in
          let pr : p ≡ r = ground arith in
          let moved_on : is_forward s r.state ≡ true = rw (← pr) h in
          (
            turned target now p,
            after ∙ ap (λ b. some (if b then turned target now p else p)) e,
            same_state_forward s r.state expected target state forward moved_on,
          )
      | inr e ↦ (p, after ∙ ap (λ b. some (if b then turned target now p else p)) e, h)
    ]

module _ (id : Text) (s : PermitState) where
  abbrev pub Moved : Ledger → Type 0
  Moved l = HasMoved id s l.permits

  pub insert_permit-Moved :
      (permit event reservation digest : Text) (now : ℕ)
      → Keeps Moved (insert_permit permit event reservation digest now)
  unfolding insert_permit
  insert_permit-Moved permit event reservation digest now =
      search (keeps_rules, HasMoved-append) depth 40

  pub transition-Moved :
      (other : Text) (expected target : PermitState) (now : ℕ)
      → is_forward expected target ≡ true
      → (l : Ledger) → Moved l
      → Ensures (transition_permit other expected target now) l (λ _. Moved)
  unfolding transition_permit
  transition-Moved other expected target now forward l h = then_gets _ _ (
      then_or_reject _ _ _ λ r at_r. then_reject_if _ _ _ λ state. then_modify _ _ (
        Ensures-pure r _
          (HasMoved-turned id other s expected target now l.permits r forward at_r state h)))
