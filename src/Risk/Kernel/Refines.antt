-- ===== src/Risk/Kernel/Refines.antt =====
-- The kernel as a client of the ledger (src/esscher/risk/kernel.py, src/esscher/risk/ledger.py): the
-- calls that it may make under a policy, and its methods over them.
pub mod Methods
use esscher_market.Base.{
  ℕ, ◌≤◌, Bool, true, false, not, ◌&&◌, Option, List, [], ◌∷◌, all, and_split, ltb, leb, ◌==◌,
  arith, ◌≡◌, refl, sym, ap, ◌∙◌,
}
use esscher_market.Base.Int.{pos, Decimal, finite, non_finite, leb_ℤ, eq_ℤ}
use esscher_market.Base.Text.{Text, same, same_iff}
use esscher_market.Base.Json.{Fields, Host}
use esscher_market.Base.Result.{Result, ok, err}
use esscher_market.Risk.Reasons.{ControlState, RiskReason, Failure, rejected, type_error}
use esscher_market.Risk.Policy.{RiskPolicy, risk_policy_sha256}
use esscher_market.Risk.Snapshots.{AccountSnapshot}
use esscher_market.Risk.Ledger.Rows.{Ledger, Candidate, NotRun, Submission}
use esscher_market.Risk.Ledger.Monad.{Action, pure, ◌>>=◌, ◌>>◌, continue}
use esscher_market.Risk.Ledger.Authorize.{Request, reserve_and_issue_permit}
use esscher_market.Risk.Ledger.Candidates.{freeze_candidate, record_not_run}
use esscher_market.Risk.Ledger.Orders.{
  record_submission, reconcile_observed_order, release_consumed_after_flat,
}
use esscher_market.Risk.Ledger.Records.{record_account_snapshot, set_control_state_with_passport}
use esscher_market.Execution.Models.{DebitVerticalPermit}
use esscher_market.Risk.Controls.{ControlTrigger}
use esscher_market.Risk.Kernel.Control.{apply_trigger}
use esscher_market.Risk.Ledger.Ensures.{Ensures, then_reject_if, Ensures-reject_if}
use esscher_market.Risk.Ledger.Operations.{LedgerCall, perform, perform_all}
use esscher_market.Risk.Kernel.Traced.{Leads, Traced, traced_rules, Traced-call, Traced-after}

-- `value` is the finite number `n`.
abbrev is_number : ℕ → Decimal → Bool
is_number n (finite (pos m)) = m == n
is_number n _ = false

abbrev is_at_most : ℕ → Decimal → Bool
is_at_most n (finite (pos m)) = leb m n
is_at_most n _ = false

-- The calls that the kernel may make under its policy: a candidate is frozen and a permit issued
-- under the policy's own identity, with the policy's three limits, for no more than its loss budget.
abbrev pub is_kernel_call : Host → RiskPolicy → LedgerCall → Bool
is_kernel_call host policy (LedgerCall.freeze c) =
    same c.policy_sha256 (risk_policy_sha256 host policy)
is_kernel_call host policy (LedgerCall.authorize r permit now) =
    same r.risk_policy_sha256 (risk_policy_sha256 host policy)
    && is_at_most policy.per_event_loss_budget r.amount
    && is_number policy.aggregate_exposure_limit r.aggregate_limit
    && eq_ℤ r.max_open_expressions (pos policy.max_open_expressions)
    && eq_ℤ r.max_entries_per_day (pos policy.max_entries_per_day)
is_kernel_call host policy (LedgerCall.abstain n with_passport) = with_passport
is_kernel_call host policy (LedgerCall.submit row with_passport) = with_passport
is_kernel_call host policy (LedgerCall.reconcile _ _ _ _ _ _ _) = true
is_kernel_call host policy (LedgerCall.flatten _ _ _) = true
is_kernel_call host policy (LedgerCall.observe_account _ _) = true
is_kernel_call host policy (LedgerCall.change_control _ _ _ _) = true
is_kernel_call host policy _ = false

-- To forget what an action returns changes nothing in the ledger.
pub continue-pure :
    {A : Type 0} (r : Result Failure A) (l : Ledger) → (continue r (λ _. pure tt) l).1 ≡ l
unfolding pure
continue-pure (ok a) l = refl
continue-pure (err e) l = refl

module _ (host : Host) (policy : RiskPolicy) where
  abbrev pub IsKernel : {A : Type 0} → Action A → Type 0
  IsKernel m = Traced host (is_kernel_call host policy) m

  pub set_control-Traced :
      (s : ControlState) (reason : Option Text) (payload : Fields) (now : ℕ)
      → IsKernel (set_control_state_with_passport host s reason payload now)
  unfolding perform
  set_control-Traced s reason payload now =
      Traced-call _ (LedgerCall.change_control s reason payload now) refl λ l. refl

  pub account-Traced : (value : Decimal) (now : ℕ) → IsKernel (record_account_snapshot value now)
  unfolding perform
  account-Traced value now = Traced-call _ (LedgerCall.observe_account value now) refl λ l. refl

  pub submission-Traced : (row : Submission) → IsKernel (record_submission host row true)
  unfolding perform
  submission-Traced row = Traced-call _ (LedgerCall.submit row true) refl λ l. refl

  pub not_run-Traced : (n : NotRun) → IsKernel (record_not_run host n true)
  unfolding perform
  not_run-Traced n = Traced-call _ (LedgerCall.abstain n true) refl λ l. refl

  pub candidate-Traced :
      (c : Candidate)
      → same c.policy_sha256 (risk_policy_sha256 host policy) ≡ true
      → IsKernel (freeze_candidate host c)
  unfolding perform
  candidate-Traced c h = Traced-call _ (LedgerCall.freeze c) h λ l. refl

  pub reconcile-Traced :
      (event permit order status : Text) (value : Decimal) (at now : ℕ)
      → IsKernel (reconcile_observed_order host event permit order status value at now)
  unfolding perform
  reconcile-Traced event permit order status value at now =
      Traced-call _ (LedgerCall.reconcile event permit order status value at now) refl λ l. refl

  pub flat-Traced :
      (event permit : Text) (now : ℕ) → IsKernel (release_consumed_after_flat host event permit now)
  unfolding perform
  flat-Traced event permit now = Traced-call _ (LedgerCall.flatten event permit now) refl λ l. refl

  pub authorize-Traced :
      (r : Request) (permit : DebitVerticalPermit) (now : ℕ)
      → is_kernel_call host policy (LedgerCall.authorize r permit now) ≡ true
      → IsKernel (reserve_and_issue_permit host r permit now)
  unfolding perform ◌>>=◌
  authorize-Traced r permit now h = Traced-call _ (LedgerCall.authorize r permit now) h λ l. sym (
      continue-pure (reserve_and_issue_permit host r permit now l).0
        (reserve_and_issue_permit host r permit now l).1)

  pub ruleset kernel_rules = (
    traced_rules, set_control-Traced, account-Traced, submission-Traced, not_run-Traced,
    reconcile-Traced, flat-Traced,
  )

  pub trigger-Traced : (t : ControlTrigger) (now : ℕ) → IsKernel (apply_trigger host t now)
  unfolding apply_trigger
  trigger-Traced t now = search kernel_rules depth 40
