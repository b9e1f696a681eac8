-- ===== src/Risk/Ledger/Atomic.antt =====
-- Ledger calls that raise (src/esscher/risk/ledger.py).
use esscher_market.Base.{◌≡◌, refl, ◌∙◌, arith}
use esscher_market.Base.Json.{Host}
use esscher_market.Base.Result.{Result, ok, err}
use esscher_market.Risk.Reasons.{Failure}
use esscher_market.Risk.Ledger.Rows.{Ledger}
use esscher_market.Risk.Ledger.Monad.{
  Action, pure, modify, ◌>>=◌, transaction, continue, transaction-err,
}
use esscher_market.Risk.Ledger.Passport.{append_passport}
use esscher_market.Risk.Ledger.Candidates.{
  record_candidate, validated_candidate, freeze_candidate, record_not_run,
}
use esscher_market.Risk.Ledger.Reservations.{
  reserve, transition_reservation, consume_reservation, release_reservation, record_permit,
  update_permit_state,
}
use esscher_market.Risk.Ledger.Orders.{
  record_submission, record_fill, reconcile_observed_order, release_consumed_after_flat,
}
use esscher_market.Risk.Ledger.Authorize.{reserve_and_issue_permit, validated_order}
use esscher_market.Risk.Ledger.Intents.{
  record_lifecycle_intent, validated_intent, bind_lifecycle_intent,
  mark_lifecycle_intent_reconciled,
}
use esscher_market.Risk.Ledger.Records.{
  record_position, record_reconciliation, record_account_snapshot, set_control_state,
  set_control_state_with_passport,
}
use esscher_market.Risk.Ledger.Keeps.{Keeps, keeps_rules}
use esscher_market.Risk.Ledger.Operations.{LedgerCall, perform}

record Atomic {A : Type 0} (m : Action A) : Type 0 where
  at : (l : Ledger) (e : Failure) → (m l).0 ≡ err e → (m l).1 ≡ l

-- `m` writes nothing at all.
abbrev ReadsOnly : {A : Type 0} → Action A → Type 0
ReadsOnly m = (start : Ledger) → Keeps (λ l. l ≡ start) m

module _ {A : Type 0} where
  Atomic-transaction : (h : Failure → Failure) (m : Action A) → Atomic (transaction h m)
  Atomic-transaction h m = record { at = transaction-err h m }

  Atomic-reads : (m : Action A) → ReadsOnly m → Atomic m
  Atomic-reads m k = record { at = λ l e _. (k l).at l refl }

Atomic-modify : (f : Ledger → Ledger) → Atomic (modify f)
unfolding modify
Atomic-modify f = record { at = λ l e h. ground arith }

Atomic-continue :
    {A B : Type 0} (r : Result Failure A) (f : A → Action B)
    → ((a : A) → Atomic (f a))
    → (start l : Ledger) → l ≡ start
    → (e : Failure) → (continue r f l).0 ≡ err e
    → (continue r f l).1 ≡ start
Atomic-continue (ok a) f k start l same_ledger e h = (k a).at l e h ∙ same_ledger
Atomic-continue (err e') f k start l same_ledger e h = same_ledger

Atomic-after :
    {A B : Type 0} (m : Action A) (f : A → Action B)
    → ReadsOnly m
    → ((a : A) → Atomic (f a))
    → Atomic (m >>= f)
unfolding ◌>>=◌
Atomic-after m f r k = record {
  at = λ l e h. Atomic-continue (m l).0 f k l (m l).1 ((r l).at l refl) e h;
}

pure_after :
    {A B : Type 0} (r : Result Failure A) (b : B) (start l : Ledger) (e : Failure)
    → ((e : Failure) → r ≡ err e → l ≡ start)
    → (continue r (λ _. pure b) l).0 ≡ err e
    → (continue r (λ _. pure b) l).1 ≡ start
unfolding pure
pure_after (ok a) b start l e k h = ground arith
pure_after (err e') b start l e k h = k e' refl

Atomic-then_pure : {A B : Type 0} (m : Action A) (b : B) → Atomic m → Atomic (m >>= λ _. pure b)
unfolding ◌>>=◌
Atomic-then_pure m b k = record { at = λ l e h. pure_after (m l).0 b l (m l).1 e (k.at l) h }

ruleset atomic_rules =
    (keeps_rules, Atomic-transaction, Atomic-reads, Atomic-modify, Atomic-after, Atomic-then_pure)

perform-Atomic : (host : Host) (call : LedgerCall) → Atomic (perform host call)
unfolding perform append_passport record_candidate validated_candidate freeze_candidate
    record_not_run reserve transition_reservation consume_reservation release_reservation
    record_permit update_permit_state record_submission record_fill reconcile_observed_order
    release_consumed_after_flat reserve_and_issue_permit validated_order record_lifecycle_intent
    validated_intent bind_lifecycle_intent mark_lifecycle_intent_reconciled record_position
    record_reconciliation record_account_snapshot set_control_state set_control_state_with_passport
perform-Atomic host (LedgerCall.append_event t p n) = search atomic_rules depth 40
perform-Atomic host _ = search atomic_rules depth 40

-- A ledger call that raises leaves every table as it was, whatever the call and the ledger.
pub failed_call_writes_nothing :
    (host : Host) (call : LedgerCall) (l : Ledger) (e : Failure)
    → (perform host call l).0 ≡ err e
    → (perform host call l).1 ≡ l
failed_call_writes_nothing host call = (perform-Atomic host call).at
