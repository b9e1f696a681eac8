-- ===== src/Risk/Kernel/Refines/Methods.antt =====
-- The methods of the kernel (src/esscher/risk/kernel.py) as sequences of ledger calls.
use esscher_market.Base.{ℕ, ◌≤◌, Bool, true, List, [], ◌∷◌, all, arith, ◌≡◌, refl}
use esscher_market.Base.Text.{Text, same_iff}
use esscher_market.Base.Json.{Host}
use esscher_market.Base.Result.{Result, ok, err}
use esscher_market.Execution.Expression.{CompiledExpression}
use esscher_market.Risk.Reasons.{
  ControlState, RiskReason, Failure, rejected, type_error, integrity_error, truth_error,
}
use esscher_market.Risk.Controls.{ControlTrigger}
use esscher_market.Risk.Policy.{RiskPolicy, risk_policy_sha256}
use esscher_market.Risk.Snapshots.{AccountSnapshot, PositionSnapshot, OrderSnapshot}
use esscher_market.Risk.Ledger.Rows.{Ledger}
use esscher_market.Risk.Ledger.Ensures.{
  Ensures, then_reject_if, Ensures-reject_if, then_check, then_gets, then_or_reject, Ensures-pure,
}
use esscher_market.Risk.Ledger.Operations.{LedgerCall, perform_all}
use esscher_market.Risk.Kernel.Truth.{Truth}
use esscher_market.Risk.Kernel.Control.{resume, startup_from, startup_reconciliation}
use esscher_market.Risk.Kernel.Binding.{freeze, mark_not_run, validate_candidate_binding}
use esscher_market.Risk.Kernel.Entry.{
  Entry, request_of, trip_if, truth_or_trip, require_affordable, require_limits, issue,
  require_entry_allowed, authorize_entry,
}
use esscher_market.Risk.Kernel.Reconcile.{
  orders_or_trip, partial_trips, reconcile_fill, reconcile_flat,
}
use esscher_market.Risk.Kernel.Calls.{KernelCall, run, run_all}
use esscher_market.Risk.Kernel.Traced.{
  Leads, Leads-refl, Leads-trans, Traced-bind, Traced-check, Traced-after,
}
use esscher_market.Risk.Kernel.Refines.{
  is_kernel_call, IsKernel, kernel_rules, candidate-Traced, authorize-Traced, trigger-Traced,
}

module _ (host : Host) (policy : RiskPolicy) where
  resume-Traced : (now : ℕ) → IsKernel host policy (resume host now)
  unfolding resume
  resume-Traced now = search (kernel_rules, trigger-Traced) depth 40

  ruleset method_rules = (kernel_rules, trigger-Traced, resume-Traced)

  startup_from-Traced :
      (r : Result Failure (AccountSnapshot × List PositionSnapshot × List OrderSnapshot)) (now : ℕ)
      → IsKernel host policy (startup_from host r now)
  unfolding startup_from
  startup_from-Traced (err (rejected reason)) now = search method_rules depth 40
  startup_from-Traced (err type_error) now = search method_rules depth 40
  startup_from-Traced (err integrity_error) now = search method_rules depth 40
  startup_from-Traced (err truth_error) now = search method_rules depth 40
  startup_from-Traced (ok (account, positions, orders)) now = search method_rules depth 40

  truth_or_trip-Traced :
      {A : Type 0} (r : Result Failure A) (now : ℕ)
      → IsKernel host policy (truth_or_trip host r now)
  unfolding truth_or_trip
  truth_or_trip-Traced (err (rejected reason)) now = search method_rules depth 40
  truth_or_trip-Traced (err type_error) now = search method_rules depth 40
  truth_or_trip-Traced (err integrity_error) now = search method_rules depth 40
  truth_or_trip-Traced (err truth_error) now = search method_rules depth 40
  truth_or_trip-Traced (ok a) now = search method_rules depth 40

  orders_or_trip-Traced :
      {A : Type 0} (r : Result Failure A) (now : ℕ)
      → IsKernel host policy (orders_or_trip host r now)
  unfolding orders_or_trip
  orders_or_trip-Traced (err (rejected reason)) now = search method_rules depth 40
  orders_or_trip-Traced (err type_error) now = search method_rules depth 40
  orders_or_trip-Traced (err integrity_error) now = search method_rules depth 40
  orders_or_trip-Traced (err truth_error) now = search method_rules depth 40
  orders_or_trip-Traced (ok a) now = search method_rules depth 40

  trip_if-Traced :
      (b : Bool) (t : ControlTrigger) (r : RiskReason) (now : ℕ)
      → IsKernel host policy (trip_if host b t r now)
  unfolding trip_if
  trip_if-Traced b t r now = search method_rules depth 40

  partial_trips-Traced : (now : ℕ) (e : Failure) → IsKernel host policy (partial_trips host now e)
  unfolding partial_trips
  partial_trips-Traced now (rejected reason) = search (method_rules, trip_if-Traced) depth 40
  partial_trips-Traced now type_error = search method_rules depth 40
  partial_trips-Traced now integrity_error = search method_rules depth 40
  partial_trips-Traced now truth_error = search method_rules depth 40

  ruleset all_rules = (
    method_rules, startup_from-Traced, truth_or_trip-Traced, orders_or_trip-Traced, trip_if-Traced,
    partial_trips-Traced,
  )

  require_limits-Traced :
      (symbol : Text) (exposure : ℕ) (account : AccountSnapshot) (positions : List PositionSnapshot)
      (now : ℕ)
      → IsKernel host policy (require_limits host policy symbol exposure account positions now)
  unfolding require_limits
  require_limits-Traced symbol exposure account positions now = search all_rules depth 40

  -- What `authorize_entry` may ask of the ledger for an exposure within the budget.
  issue-Traced :
      (e : Entry) (event symbol active_policy : Text) (exposure : ℕ) (state : ControlState)
      (now : ℕ)
      → active_policy ≡ risk_policy_sha256 host policy
      → exposure ≤ policy.per_event_loss_budget
      → IsKernel host policy (issue host policy e event symbol active_policy exposure state now)
  unfolding issue
  issue-Traced e event symbol active_policy exposure state now own affordable =
      let same_policy = same_iff active_policy (risk_policy_sha256 host policy) in
      let r = request_of host policy e event symbol active_policy exposure in
      let call = authorize-Traced host policy r e.permit now (ground (arith, same_policy)) in
      Traced-bind _ _ (Traced-check _) λ _. Traced-bind _ _ call λ _. search all_rules depth 40

  -- The identity that the candidate binding hands on is the active policy's.
  binding-policy :
      (event symbol candidate : Text) (compiled : CompiledExpression) (l : Ledger)
      → Ensures
          (validate_candidate_binding host policy event symbol candidate compiled)
          l
          (λ bound _. bound.2 ≡ risk_policy_sha256 host policy)
  unfolding validate_candidate_binding
  binding-policy event symbol candidate compiled l = then_check _ _ λ _ _. then_check _ _ λ _ _.
      then_check _ _ λ _ _. then_check _ _ λ _ _. then_reject_if _ _ _ λ _. then_check _ _ λ _ _.
        then_reject_if _ _ _ λ _. then_gets _ _ (
          then_reject_if _ _ _ λ _. then_gets _ _ (
            then_or_reject _ _ _ λ _ _.
              then_reject_if _ _ _
                λ _. then_check _ _ λ _ _. then_reject_if _ _ _ λ _. Ensures-pure _ l refl))

  affordable-bound :
      (exposure : ℕ) (account : AccountSnapshot) (l : Ledger)
      → Ensures
          (require_affordable host policy exposure account)
          l
          (λ _ _. exposure ≤ policy.per_event_loss_budget)
  unfolding require_affordable
  affordable-bound exposure account l =
      then_reject_if _ _ _ λ h. Ensures-reject_if _ _ l λ _. ground arith

  entry-Traced :
      (e : Entry) (truth : Truth) (now : ℕ)
      → IsKernel host policy (authorize_entry host policy e truth now)
  unfolding authorize_entry require_entry_allowed validate_candidate_binding require_affordable
  entry-Traced e truth now = Traced-bind _ _ (search all_rules depth 40) λ state.
      Traced-after (λ bound. bound.2 ≡ risk_policy_sha256 host policy) _ _
        (search all_rules depth 40)
        (binding-policy e.event_id e.underlying e.candidate_id e.compiled)
        λ bound own. Traced-bind _ _ (Traced-check _) λ _.
          Traced-bind _ _ (truth_or_trip-Traced _ now) λ observed.
            Traced-bind _ _ (trip_if-Traced _ _ _ now) λ _.
              Traced-bind _ _ (Traced-check _) λ exposure.
                Traced-after (λ _. exposure ≤ policy.per_event_loss_budget) _ _
                  (search all_rules depth 40) (affordable-bound exposure observed.0)
                  λ _ affordable.
                    Traced-bind _ _
                      (require_limits-Traced bound.1 exposure observed.0 observed.1 now)
                      λ _. issue-Traced e bound.0 bound.1 bound.2 exposure state now own affordable

  run-Traced : (call : KernelCall) → IsKernel host policy (run host policy call)
  unfolding run startup_reconciliation freeze mark_not_run reconcile_fill reconcile_flat
  run-Traced (KernelCall.start truth now) = search all_rules depth 40
  run-Traced (KernelCall.freeze_expression event candidate compiled mode now) =
      let own =
        (same_iff (risk_policy_sha256 host policy) (risk_policy_sha256 host policy)).1 refl in
      search (all_rules, candidate-Traced, own) depth 40
  run-Traced (KernelCall.abstain event reason now) = search all_rules depth 40
  run-Traced (KernelCall.enter entry truth now) = search (all_rules, entry-Traced) depth 40
  run-Traced (KernelCall.submit row) = search all_rules depth 40
  run-Traced (KernelCall.observe_fill event permit fill truth now) = search all_rules depth 40
  run-Traced (KernelCall.flatten event permit truth now) = search all_rules depth 40

  run_all-Leads :
      (calls : List KernelCall) (l : Ledger)
      → Leads host (is_kernel_call host policy) l (run_all host policy calls l)
  unfolding run_all
  run_all-Leads [] l = Leads-refl l
  run_all-Leads (call ∷ calls) l =
      Leads-trans _ _ _ ((run-Traced call).at l) (run_all-Leads calls (run host policy call l).1)

-- A session of the kernel leaves what some sequence of the ledger's own calls leaves, each one that
-- `is_kernel_call` allows: candidates are frozen and permits issued under the policy's own identity,
-- permits with the policy's aggregate exposure limit, its most open expressions and its most entries
-- in a day, and for no more than its loss budget.
pub kernel_refines_ledger :
    (host : Host) (policy : RiskPolicy) (calls : List KernelCall) (l : Ledger)
    → (ledger_calls : List LedgerCall) × (all (is_kernel_call host policy) ledger_calls ≡ true)
      × (run_all host policy calls l ≡ perform_all host ledger_calls l)
kernel_refines_ledger host policy calls l =
    let leads = run_all-Leads host policy calls l in (leads.calls, leads.admits, leads.reached)
