-- ===== src/Risk/Kernel/Killed.antt =====
-- The kill state over sessions of the kernel (src/esscher/risk/kernel.py).
use esscher_market.Base.{
  ℕ, true, false, List, [], ◌∷◌, arith, ◌≡◌, refl, Option, none, some, inl, inr,
}
use esscher_market.Base.Int.{Decimal}
use esscher_market.Base.Json.{Host}
use esscher_market.Base.Text.{Text, text}
use esscher_market.Base.Result.{Result, ok, err, Result-cases}
use esscher_market.Execution.Models.{DebitVerticalPermit}
use esscher_market.Risk.Reasons.{
  ControlState, kill, RiskReason, Failure, rejected, type_error, integrity_error, truth_error,
}
use esscher_market.Risk.Controls.{ControlTrigger, next_control_state}
use esscher_market.Risk.Policy.{RiskPolicy}
use esscher_market.Risk.Snapshots.{AccountSnapshot, PositionSnapshot, OrderSnapshot}
use esscher_market.Risk.Ledger.Rows.{Ledger, Candidate, NotRun, Submission}
use esscher_market.Risk.Ledger.Monad.{check, gets, ◌>>=◌}
use esscher_market.Risk.Ledger.Keeps.{Keeps, keeps_rules}
use esscher_market.Risk.Ledger.Records.{get_control_state, record_account_snapshot}
use esscher_market.Risk.Ledger.Authorize.{Request, reserve_and_issue_permit}
use esscher_market.Risk.Ledger.Candidates.{freeze_candidate, record_not_run}
use esscher_market.Risk.Ledger.Orders.{
  record_submission, reconcile_observed_order, release_consumed_after_flat,
}
use esscher_market.Risk.Ledger.Operations.{LedgerCall, perform}
use esscher_market.Risk.Ledger.Control.{sets_control, perform-control}
use esscher_market.Risk.Kernel.Control.Leaves.{apply_trigger-Leaves}
use esscher_market.Risk.Kernel.Refines.{continue-pure}
use esscher_market.Risk.Kernel.Control.{apply_trigger, resume, startup_from, startup_reconciliation}
use esscher_market.Risk.Kernel.Binding.{freeze, mark_not_run, validate_candidate_binding}
use esscher_market.Risk.Kernel.Entry.{
  trip_if, truth_or_trip, require_affordable, require_limits, issue, require_entry_allowed,
  authorize_entry,
}
use esscher_market.Risk.Kernel.Reconcile.{
  orders_or_trip, partial_trips, reconcile_fill, reconcile_flat,
}
use esscher_market.Risk.Kernel.Calls.{KernelCall, run, run_all}

abbrev IsKilled : Ledger → Type 0
IsKilled l = (get_control_state l).0 ≡ kill

module _ (host : Host) where
  killed-next :
      (s : ControlState) (t : ControlTrigger) (u : ControlState)
      → s ≡ kill
      → next_control_state s t ≡ ok u
      → u ≡ kill
  unfolding next_control_state
  killed-next s t u h k = ground arith

  trigger_err :
      (t : ControlTrigger) (now : ℕ) (l : Ledger) (e : RiskReason)
      → next_control_state (get_control_state l).0 t ≡ err e
      → (apply_trigger host t now l).1 ≡ l
  unfolding apply_trigger ◌>>=◌ gets check
  trigger_err t now l e h = rw h refl

  trigger-Killed : (t : ControlTrigger) (now : ℕ) → Keeps IsKilled (apply_trigger host t now)
  trigger-Killed t now = record {
    at = λ l k. elim (Result-cases (next_control_state (get_control_state l).0 t)) [
      | inl (u, h) ↦ rw (← killed-next _ t u k h) (apply_trigger-Leaves host t now l u h).stores
      | inr (e, h) ↦ rw (trigger_err t now l e h) k
    ];
  }

  -- A ledger call that leaves the control row alone.
  call-Killed : (call : LedgerCall) → sets_control call ≡ false → Keeps IsKilled (perform host call)
  unfolding get_control_state
  call-Killed call h =
      perform-control host
        (λ o.
          (elim o as (λ _. ControlState × Option Text) [
            | none ↦ (ControlState.entry_disabled, some (text "startup reconciliation is required"))
            | some row ↦ (row.state, row.reason)
          ]).0
          ≡ kill)
        call h

  account-Killed : (value : Decimal) (now : ℕ) → Keeps IsKilled (record_account_snapshot value now)
  unfolding perform
  account-Killed value now = call-Killed (LedgerCall.observe_account value now) refl

  submission-Killed : (row : Submission) → Keeps IsKilled (record_submission host row true)
  unfolding perform
  submission-Killed row = call-Killed (LedgerCall.submit row true) refl

  not_run-Killed : (n : NotRun) → Keeps IsKilled (record_not_run host n true)
  unfolding perform
  not_run-Killed n = call-Killed (LedgerCall.abstain n true) refl

  candidate-Killed : (c : Candidate) → Keeps IsKilled (freeze_candidate host c)
  unfolding perform
  candidate-Killed c = call-Killed (LedgerCall.freeze c) refl

  reconcile-Killed :
      (event permit order status : Text) (value : Decimal) (at now : ℕ)
      → Keeps IsKilled (reconcile_observed_order host event permit order status value at now)
  unfolding perform
  reconcile-Killed event permit order status value at now =
      call-Killed (LedgerCall.reconcile event permit order status value at now) refl

  flat-Killed :
      (event permit : Text) (now : ℕ)
      → Keeps IsKilled (release_consumed_after_flat host event permit now)
  unfolding perform
  flat-Killed event permit now = call-Killed (LedgerCall.flatten event permit now) refl

  authorize-Killed :
      (r : Request) (permit : DebitVerticalPermit) (now : ℕ)
      → Keeps IsKilled (reserve_and_issue_permit host r permit now)
  unfolding perform ◌>>=◌
  authorize-Killed r permit now = record {
    at = λ l k.
        rw
          (← continue-pure (reserve_and_issue_permit host r permit now l).0
            (reserve_and_issue_permit host r permit now l).1)
          ((call-Killed (LedgerCall.authorize r permit now) refl).at l k);
  }

  ruleset killed_rules = (
    keeps_rules, trigger-Killed, account-Killed, submission-Killed, not_run-Killed,
    candidate-Killed, reconcile-Killed, flat-Killed, authorize-Killed,
  )

  truth_or_trip-Killed :
      {A : Type 0} (r : Result Failure A) (now : ℕ) → Keeps IsKilled (truth_or_trip host r now)
  unfolding truth_or_trip
  truth_or_trip-Killed (err (rejected reason)) now = search killed_rules depth 40
  truth_or_trip-Killed (err type_error) now = search killed_rules depth 40
  truth_or_trip-Killed (err integrity_error) now = search killed_rules depth 40
  truth_or_trip-Killed (err truth_error) now = search killed_rules depth 40
  truth_or_trip-Killed (ok a) now = search killed_rules depth 40

  orders_or_trip-Killed :
      {A : Type 0} (r : Result Failure A) (now : ℕ) → Keeps IsKilled (orders_or_trip host r now)
  unfolding orders_or_trip
  orders_or_trip-Killed (err (rejected reason)) now = search killed_rules depth 40
  orders_or_trip-Killed (err type_error) now = search killed_rules depth 40
  orders_or_trip-Killed (err integrity_error) now = search killed_rules depth 40
  orders_or_trip-Killed (err truth_error) now = search killed_rules depth 40
  orders_or_trip-Killed (ok a) now = search killed_rules depth 40

  partial_trips-Killed : (now : ℕ) (e : Failure) → Keeps IsKilled (partial_trips host now e)
  unfolding partial_trips trip_if
  partial_trips-Killed now (rejected reason) = search killed_rules depth 40
  partial_trips-Killed now type_error = search killed_rules depth 40
  partial_trips-Killed now integrity_error = search killed_rules depth 40
  partial_trips-Killed now truth_error = search killed_rules depth 40

  startup_from-Killed :
      (r : Result Failure (AccountSnapshot × List PositionSnapshot × List OrderSnapshot)) (now : ℕ)
      → Keeps IsKilled (startup_from host r now)
  unfolding startup_from resume
  startup_from-Killed (err (rejected reason)) now = search killed_rules depth 40
  startup_from-Killed (err type_error) now = search killed_rules depth 40
  startup_from-Killed (err integrity_error) now = search killed_rules depth 40
  startup_from-Killed (err truth_error) now = search killed_rules depth 40
  startup_from-Killed (ok (account, positions, orders)) now = search killed_rules depth 40

  ruleset run_rules = (
    killed_rules, truth_or_trip-Killed, orders_or_trip-Killed, partial_trips-Killed,
    startup_from-Killed,
  )

  module _ (policy : RiskPolicy) where
    run-Killed : (call : KernelCall) → Keeps IsKilled (run host policy call)
    unfolding run startup_reconciliation freeze mark_not_run reconcile_fill reconcile_flat trip_if
        authorize_entry require_entry_allowed validate_candidate_binding require_affordable
        require_limits issue
    run-Killed (KernelCall.start truth now) = search run_rules depth 40
    run-Killed _ = search run_rules depth 40

    -- No session of the kernel leaves the state `KILL`: neither a startup on flat fresh truth nor any
    -- other method.
    pub kill_survives_sessions :
        (calls : List KernelCall) (l : Ledger)
        → (get_control_state l).0 ≡ kill
        → (get_control_state (run_all host policy calls l)).0 ≡ kill
    unfolding run_all
    kill_survives_sessions [] l h = h
    kill_survives_sessions (call ∷ calls) l h =
        kill_survives_sessions calls (run host policy call l).1 ((run-Killed call).at l h)
