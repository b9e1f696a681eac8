-- ===== src/Risk/Ledger/Single.antt =====
-- The keys of `lifecycle_intents` (src/esscher/risk/ledger.py).
use esscher_market.Base.{
  ℕ, Bool, true, false, not, ◌||◌, some, List, [], ◌∷◌, ◌++◌, any, update, arith, ◌≡◌, refl, ◌∙◌,
  Bool-cases, inl, inr,
}
use esscher_market.Base.Text.{Text, same, same_iff}
use esscher_market.Base.Json.{Fields, Host}
use esscher_market.Risk.Ledger.Rows.{Ledger, LifecycleIntent, IntentState, empty}
use esscher_market.Risk.Ledger.Queries.{intent_of}
use esscher_market.Risk.Ledger.Passport.{append_passport}
use esscher_market.Risk.Ledger.Candidates.{
  record_candidate, freeze_candidate, freeze_body, record_not_run, not_run_body,
}
use esscher_market.Risk.Ledger.Reservations.{
  reserve, reserve_body, transition_reservation, transition_body, consume_reservation,
  release_reservation, record_permit, record_permit_body, update_permit_state, update_permit_body,
  insert_reservation, insert_permit, set_reservation_state, transition_permit,
}
use esscher_market.Risk.Ledger.Orders.{
  record_submission, submission_body, record_fill, reconcile_observed_order, reconcile_body, settle,
  release_consumed_after_flat, flat_body,
}
use esscher_market.Risk.Ledger.Authorize.{reserve_and_issue_permit, validated_order, issue_body}
use esscher_market.Risk.Ledger.Intents.{
  intent_conflict, record_lifecycle_intent, validated_intent, intent_body, bind_lifecycle_intent,
  bind_body, mark_lifecycle_intent_reconciled, reconciled_body,
}
use esscher_market.Risk.Ledger.Records.{
  record_position, record_reconciliation, record_account_snapshot, set_control_state,
  set_control_state_with_passport, set_control_body,
}
use esscher_market.Risk.Ledger.Keeps.{Keeps, keeps_rules}
use esscher_market.Risk.Ledger.Ensures.{
  Ensures, Keeps-Ensures, Keeps-when_returns, then_gets, then_constraint, then_modify,
}
use esscher_market.Risk.Ledger.Operations.{LedgerCall, perform, perform_all}

-- No two rows have one permit, or one event and phase.
abbrev pub IsSingle : List LifecycleIntent → Type 0
IsSingle [] = Unit
IsSingle (i ∷ rest) = (any (intent_conflict i) rest ≡ false) × IsSingle rest

same_sym : (s t : Text) → same s t ≡ same t s
same_sym s t = ground (arith, same_iff s t, same_iff t s)

conflict_sym : (i j : LifecycleIntent) → intent_conflict i j ≡ intent_conflict j i
conflict_sym i j =
    rw (same_sym j.permit_id i.permit_id, same_sym j.event_id i.event_id, same_sym j.phase i.phase)
      refl

any-append :
    (i new : LifecycleIntent) (rows : List LifecycleIntent)
    → any (intent_conflict i) (rows ++ new ∷ [])
      ≡ (any (intent_conflict i) rows || intent_conflict i new)
any-append i new [] = ground arith
any-append i new (j ∷ rows) = ground (arith, any-append i new rows)

IsSingle-append :
    (new : LifecycleIntent) (rows : List LifecycleIntent)
    → not (any (intent_conflict new) rows) ≡ true
    → IsSingle rows
    → IsSingle (rows ++ new ∷ [])
IsSingle-append new [] h s = (refl, tt)
IsSingle-append new (i ∷ rows) h s = (
  any-append i new rows ∙ rw (conflict_sym i new) (ground arith),
  IsSingle-append new rows (ground arith) s.1,
)

-- A change of a row that leaves its keys.
abbrev LeavesKeys : (LifecycleIntent → LifecycleIntent) → Type 0
LeavesKeys f =
    (i j : LifecycleIntent)
    → (intent_conflict i (f j) ≡ intent_conflict i j)
      × (intent_conflict (f i) j ≡ intent_conflict i j)

any-update :
    (test : LifecycleIntent → Bool) (f : LifecycleIntent → LifecycleIntent) (i : LifecycleIntent)
    → LeavesKeys f
    → (rows : List LifecycleIntent)
    → any (intent_conflict i) (update test f rows) ≡ any (intent_conflict i) rows
any-update test f i keys [] = refl
any-update test f i keys (j ∷ rows) = elim (Bool-cases (test j)) [
  | inl e ↦ rw (e, (keys i j).0, any-update test f i keys rows) refl
  | inr e ↦ rw (e, any-update test f i keys rows) refl
]

any-changed :
    (f : LifecycleIntent → LifecycleIntent) (i : LifecycleIntent)
    → LeavesKeys f
    → (rows : List LifecycleIntent)
    → any (intent_conflict (f i)) rows ≡ any (intent_conflict i) rows
any-changed f i keys [] = refl
any-changed f i keys (j ∷ rows) = rw ((keys i j).1, any-changed f i keys rows) refl

IsSingle-update :
    (test : LifecycleIntent → Bool) (f : LifecycleIntent → LifecycleIntent)
    → LeavesKeys f
    → (rows : List LifecycleIntent) → IsSingle rows
    → IsSingle (update test f rows)
IsSingle-update test f keys [] s = tt
IsSingle-update test f keys (i ∷ rows) s =
    let later = IsSingle-update test f keys rows s.1 in
    elim (Bool-cases (test i)) [
      | inl e ↦
          rw e
            (any-changed f i keys (update test f rows) ∙ any-update test f i keys rows ∙ s.0, later)
      | inr e ↦ rw e (any-update test f i keys rows ∙ s.0, later)
    ]

bound-IsSingle :
    (permit order : Text) (now : ℕ) (rows : List LifecycleIntent)
    → IsSingle rows
    → IsSingle (
        update
          (intent_of permit)
          (λ i. record i {
            broker_order_id = some order;
            state = IntentState.submitted;
            updated_at = now;
          })
          rows)
bound-IsSingle permit order now = IsSingle-update (intent_of permit) _ (λ _ _. (refl, refl))

reconciled-IsSingle :
    (permit : Text) (now : ℕ) (rows : List LifecycleIntent)
    → IsSingle rows
    → IsSingle (
        update
          (intent_of permit)
          (λ i. record i { state = IntentState.reconciled; updated_at = now })
          rows)
reconciled-IsSingle permit now = IsSingle-update (intent_of permit) _ (λ _ _. (refl, refl))

abbrev Single : Ledger → Type 0
Single l = IsSingle l.intents

module _ (host : Host) where
  intent_body-Single :
      (i : LifecycleIntent) (payload : Fields) (now : ℕ) (l : Ledger)
      → Single l
      → Ensures (intent_body host i payload now) l (λ _. Single)
  unfolding intent_body append_passport
  intent_body-Single i payload now l s = then_gets _ _ (
      then_constraint _ _ λ fresh.
        then_modify _ _
          (Keeps-Ensures (search keeps_rules depth 40) (IsSingle-append _ l.intents fresh s)))

  ruleset single_rules =
      (keeps_rules, Keeps-when_returns, intent_body-Single, bound-IsSingle, reconciled-IsSingle)

  perform-Single : (call : LedgerCall) → Keeps Single (perform host call)
  unfolding perform record_candidate freeze_candidate freeze_body record_not_run not_run_body
      reserve reserve_body transition_reservation transition_body consume_reservation
      release_reservation record_permit record_permit_body update_permit_state update_permit_body
      transition_permit record_submission submission_body record_fill reconcile_observed_order
      reconcile_body settle release_consumed_after_flat flat_body reserve_and_issue_permit
      validated_order issue_body insert_reservation insert_permit set_reservation_state
      record_lifecycle_intent validated_intent bind_lifecycle_intent bind_body
      mark_lifecycle_intent_reconciled reconciled_body record_position record_reconciliation
      record_account_snapshot set_control_state set_control_state_with_passport set_control_body
      append_passport
  perform-Single (LedgerCall.append_event t p n) = search single_rules depth 40
  perform-Single _ = search single_rules depth 40

  perform_all-Single :
      (calls : List LedgerCall) (l : Ledger) → Single l → Single (perform_all host calls l)
  unfolding perform_all
  perform_all-Single [] l s = s
  perform_all-Single (call ∷ calls) l s =
      perform_all-Single calls (perform host call l).1 ((perform-Single call).at l s)

  -- After any sequence of ledger calls on an empty database, failed ones included, no two lifecycle
  -- intents have one permit, and none two have one event and phase: an event has at most one opening
  -- and at most one closing intent.
  pub one_intent_per_phase :
      (calls : List LedgerCall) → IsSingle (perform_all host calls empty).intents
  one_intent_per_phase calls = perform_all-Single calls empty tt
