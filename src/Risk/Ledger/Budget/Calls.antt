-- ===== src/Risk/Ledger/Budget/Calls.antt =====
-- The budgets over sequences of calls (src/esscher/risk/ledger.py).
use esscher_market.Base.{
  ℕ, ◌≤◌, Bool, true, ◌&&◌, List, [], ◌∷◌, update, all, and_split, arith, ◌≡◌, refl,
}
use esscher_market.Base.Int.{ℤ, pos, negsuc, leb_ℤ, Decimal, finite, non_finite}
use esscher_market.Base.Text.{Text}
use esscher_market.Base.Json.{Host}
use esscher_market.Base.Result.{ok}
use esscher_market.Execution.Models.{DebitVerticalPermit}
use esscher_market.Risk.Checks.{positive_limit, positive_int, amount}
use esscher_market.Risk.Ledger.Rows.{
  Ledger, Reservation, Fill, PermitState, ReservationState, released, empty,
}
use esscher_market.Risk.Ledger.Queries.{of_event, permit_by_id, sum_open, count_open}
use esscher_market.Risk.Passport.{PassportEventType}
use esscher_market.Risk.Ledger.Holdings.{IsUnique, moved}
use esscher_market.Risk.Ledger.Authorize.{
  Request, Order, require_authorized, reserve_and_issue_permit, validated_order, issue_body,
}
use esscher_market.Risk.Ledger.Passport.{append_passport}
use esscher_market.Risk.Ledger.Candidates.{
  record_candidate, freeze_candidate, freeze_body, record_not_run, not_run_body,
}
use esscher_market.Risk.Ledger.Reservations.{
  insert_reservation, insert_permit, set_reservation_state, transition_permit,
}
use esscher_market.Risk.Ledger.Orders.{
  record_submission, submission_body, record_fill, reconcile_observed_order, reconcile_body, settle,
  release_consumed_after_flat, flat_body, owned_permit, require_reserved, insert_fill,
}
use esscher_market.Risk.Ledger.Intents.{
  record_lifecycle_intent, validated_intent, intent_body, bind_lifecycle_intent, bind_body,
  mark_lifecycle_intent_reconciled, reconciled_body,
}
use esscher_market.Risk.Ledger.Records.{
  record_position, record_reconciliation, record_account_snapshot, set_control_state,
  set_control_state_with_passport, set_control_body,
}
use esscher_market.Risk.Ledger.Keeps.{Keeps, keeps_rules}
use esscher_market.Risk.Ledger.Ensures.{
  Ensures, Keeps-Ensures, then_keeps, Ensures-bind, Ensures-pure, Ensures-modify, Ensures-reject_if,
  then_gets, then_reject_if, then_or_reject, then_check, then_modify, then_constraint,
  Keeps-when_returns, Keeps-after,
}
use esscher_market.Risk.Ledger.Budget.{
  IsWithin, authorized-IsWithin, settled-IsWithin, flat-IsWithin,
}
use esscher_market.Risk.Ledger.Operations.{LedgerCall, perform, perform_all, is_governed}

-- A bound that is a limit of its own: only a finite number above `limit` is no such bound.
abbrev is_capped : ℕ → Decimal → Bool
is_capped limit (finite x) = leb_ℤ x (pos limit)
is_capped limit non_finite = true

-- The call is one that the kernel or the worker makes, and an authorization asks for no more than
-- `limit` and `cap`.
abbrev pub respects : ℕ → ℕ → LedgerCall → Bool
respects limit cap (LedgerCall.authorize r permit now) =
    is_capped limit r.aggregate_limit && leb_ℤ r.max_open_expressions (pos cap)
respects limit cap call = is_governed call

module _ (host : Host) (limit cap : ℕ) where
  abbrev Within : Ledger → Type 0
  Within l = IsWithin limit cap l.reservations

  flat_body-Within :
      (e p : Text) (now : ℕ) (l : Ledger)
      → Within l
      → Ensures (flat_body host e p now) l (λ _. Within)
  unfolding flat_body set_reservation_state append_passport
  flat_body-Within e p now l w = then_gets _ _ (
      then_gets _ _ (
        then_reject_if _ _ _ λ owned.
          let w' = flat-IsWithin e released now l.reservations (permit_by_id p l) owned w in
          then_modify _ _ (Keeps-Ensures (search keeps_rules depth 40) w')))

  settle-Within :
      (row : Fill) (q : PermitState) (state : ReservationState) (t : PassportEventType) (now : ℕ)
      → (l : Ledger)
      → IsWithin limit cap (update (of_event row.event_id) (moved state now) l.reservations)
      → Ensures (settle host row q state t now) l (λ _. Within)
  unfolding settle set_reservation_state append_passport insert_fill transition_permit
  settle-Within row q state t now l w =
      then_keeps
        (λ l. IsWithin limit cap (update (of_event row.event_id) (moved state now) l.reservations))
        _ _ l (search keeps_rules depth 40) w
        λ _ l' w'. then_modify _ _ (Keeps-Ensures (search keeps_rules depth 40) w')

  reconcile_body-Within :
      (row : Fill) (now : ℕ) (l : Ledger)
      → Within l
      → Ensures (reconcile_body host row now) l (λ _. Within)
  unfolding reconcile_body owned_permit require_reserved
  reconcile_body-Within row now l w = Ensures-bind _ _ l (
      then_gets _ _ (
        then_or_reject _ _ _ λ p _. then_reject_if _ _ _ λ _. Ensures-pure p l (
          then_gets _ _ (
            then_reject_if _ _ _ λ _. then_reject_if _ _ _ λ _. Ensures-bind _ _ l (
              then_gets _ _ (
                Ensures-reject_if _ _ l λ owned. then_check _ _ λ (q, state, event) _.
                  settle-Within row q state event now l (
                    settled-IsWithin row.event_id state now l.reservations p.reservation_id owned
                      w)))))))

  abbrev Capped : Order → Type 0
  Capped o = (o.aggregate ≤ limit) × (o.max_open ≤ cap)

  issue_body-Within :
      (o : Order) → Capped o → (l : Ledger) → Within l → Ensures (issue_body host o) l (λ _. Within)
  unfolding issue_body require_authorized insert_reservation insert_permit append_passport
  issue_body-Within o capped l w = Ensures-bind _ _ l (
      then_gets _ _ (
        then_reject_if _ _ _ λ _. then_gets _ _ (
          then_or_reject _ _ _ λ _ _. then_reject_if _ _ _ λ _. then_reject_if _ _ _ λ _.
            then_gets _ _ (
              then_reject_if _ _ _ λ _. then_gets _ _ (
                then_reject_if _ _ _ λ _. then_reject_if _ _ _ λ few.
                  Ensures-reject_if _ _ l λ fits. Ensures-bind _ _ l (
                    then_gets _ _ (
                      then_constraint _ _ λ fresh. Ensures-modify _ l (
                        let w' =
                          authorized-IsWithin l.reservations _ _ _ w capped refl few fits fresh in
                        Keeps-Ensures (search keeps_rules depth 40) w'))))))))

  positive_limit-capped :
      (x : Decimal) (n : ℕ) → positive_limit x ≡ ok n → is_capped limit x ≡ true → n ≤ limit
  unfolding positive_limit amount
  positive_limit-capped (finite (pos x)) n h b = ground arith
  positive_limit-capped (finite (negsuc x)) n h b = ground arith
  positive_limit-capped non_finite n h b = ground arith

  positive_int-capped : (x : ℤ) (n : ℕ) → positive_int x ≡ ok n → leb_ℤ x (pos cap) ≡ true → n ≤ cap
  unfolding positive_int
  positive_int-capped (pos x) n h b = ground arith
  positive_int-capped (negsuc x) n h b = ground arith

  validated_order-Capped :
      (r : Request) (permit : DebitVerticalPermit) (now : ℕ)
      → respects limit cap (LedgerCall.authorize r permit now) ≡ true
      → (l : Ledger) → Ensures (validated_order host r permit now) l (λ o _. Capped o)
  unfolding validated_order
  validated_order-Capped r permit now ok_call l =
      let (bounded, few) =
        and_split (is_capped limit r.aggregate_limit) (leb_ℤ r.max_open_expressions (pos cap))
          ok_call in
      then_check _ _ λ _ _. then_check _ _ λ _ _. then_check _ _ λ _ _. then_check _ _ λ _ _.
        then_check _ _ λ _ _. then_check _ _ λ _ _. then_check _ _ λ _ _. then_check _ _ λ a agg.
          then_check _ _ λ m most. then_check _ _ λ _ _. then_reject_if _ _ _ λ _.
            Ensures-pure _ l (
              positive_limit-capped r.aggregate_limit a agg bounded,
              positive_int-capped r.max_open_expressions m most few,
            )

  ruleset within_rules = (keeps_rules, Keeps-when_returns, flat_body-Within, reconcile_body-Within)

  authorize-Within :
      (r : Request) (permit : DebitVerticalPermit) (now : ℕ)
      → respects limit cap (LedgerCall.authorize r permit now) ≡ true
      → Keeps Within (reserve_and_issue_permit host r permit now)
  unfolding reserve_and_issue_permit validated_order
  authorize-Within r permit now ok_call =
      Keeps-after Capped _ _ (search keeps_rules depth 40)
        (validated_order-Capped r permit now ok_call)
        λ o capped. Keeps-when_returns _ _ (issue_body-Within o capped)

  perform-Within :
      (call : LedgerCall) → respects limit cap call ≡ true → Keeps Within (perform host call)
  unfolding perform record_candidate freeze_candidate freeze_body record_not_run not_run_body
      record_submission submission_body record_fill reconcile_observed_order
      release_consumed_after_flat record_lifecycle_intent validated_intent intent_body
      bind_lifecycle_intent bind_body mark_lifecycle_intent_reconciled reconciled_body
      record_position record_reconciliation record_account_snapshot set_control_state
      set_control_state_with_passport set_control_body append_passport transition_permit
  perform-Within (LedgerCall.authorize r p n) ok_call =
      search (keeps_rules, authorize-Within) depth 40
  perform-Within (LedgerCall.hold _ _ _ _) ok_call = ground arith
  perform-Within (LedgerCall.consume _ _) ok_call = ground arith
  perform-Within (LedgerCall.release _ _) ok_call = ground arith
  perform-Within (LedgerCall.add_permit _ _ _ _ _) ok_call = ground arith
  perform-Within (LedgerCall.move_permit _ _ _) ok_call = ground arith
  perform-Within _ ok_call = search within_rules depth 40

  perform_all-Within :
      (calls : List LedgerCall) (l : Ledger)
      → all (respects limit cap) calls ≡ true
      → Within l
      → Within (perform_all host calls l)
  unfolding perform_all
  perform_all-Within [] l h w = w
  perform_all-Within (call ∷ calls) l h w =
      let (this, others) = and_split (respects limit cap call) (all (respects limit cap) calls) h in
      perform_all-Within calls (perform host call l).1 others ((perform-Within call this).at l w)

-- After any sequence of `LedgerCall`s but the low-level ones on an empty database, failed ones
-- included, in which no authorization asks for more than `limit` and `cap`: every event has one
-- reservation at most, the open amounts sum to `limit` at most, and `cap` rows at most are open.
pub exposure_within_limits :
    (host : Host) (limit cap : ℕ) (calls : List LedgerCall)
    → all (respects limit cap) calls ≡ true
    → let rs : List Reservation = (perform_all host calls empty).reservations in
      IsUnique rs × (sum_open rs ≤ limit) × (count_open rs ≤ cap)
unfolding sum_open count_open
exposure_within_limits host limit cap calls h =
    perform_all-Within host limit cap calls empty h (tt, omega arith, omega arith)
