-- ===== src/Risk/Kernel/Calls.antt =====
-- The kernel's methods that write (src/esscher/risk/kernel.py) as one type of calls, and a session of
-- calls on one ledger. A call that raises hands its exception to the caller, and the next call finds
-- the ledger as it was left.
use esscher_market.Base.{ℕ, true, List, [], ◌∷◌}
use esscher_market.Base.Text.{Text}
use esscher_market.Base.Json.{Host}
use esscher_market.Execution.Expression.{CompiledExpression}
use esscher_market.Risk.Policy.{RiskPolicy}
use esscher_market.Risk.Snapshots.{OrderSnapshot}
use esscher_market.Risk.Ledger.Rows.{Submission, Ledger}
use esscher_market.Risk.Ledger.Monad.{Action, pure, ◌>>◌}
use esscher_market.Risk.Ledger.Orders.{record_submission}
use esscher_market.Risk.Kernel.Truth.{Truth}
use esscher_market.Risk.Kernel.Control.{startup_reconciliation}
use esscher_market.Risk.Kernel.Binding.{freeze, mark_not_run}
use esscher_market.Risk.Kernel.Entry.{Entry, authorize_entry}
use esscher_market.Risk.Kernel.Reconcile.{reconcile_fill, reconcile_flat}

pub data KernelCall : Type 0 where
  start : Truth → ℕ → KernelCall
  freeze_expression : Text → Text → CompiledExpression → Text → ℕ → KernelCall
  abstain : Text → Text → ℕ → KernelCall
  enter : Entry → Truth → ℕ → KernelCall
  submit : Submission → KernelCall
  observe_fill : Text → Text → OrderSnapshot → Truth → ℕ → KernelCall
  flatten : Text → Text → Truth → ℕ → KernelCall

module _ (host : Host) (policy : RiskPolicy) where
  unfoldable pub run : KernelCall → Action (Unit {0})
  run (start truth now) = startup_reconciliation host policy truth now >> pure tt
  run (freeze_expression event candidate compiled mode now) =
      freeze host policy event candidate compiled mode now
  run (abstain event reason now) = mark_not_run host policy event reason now
  run (enter entry truth now) = authorize_entry host policy entry truth now >> pure tt
  run (submit row) = record_submission host row true
  run (observe_fill event permit fill truth now) =
      reconcile_fill host policy event permit fill truth now
  run (flatten event permit truth now) = reconcile_flat host policy event permit truth now

  unfoldable pub run_all : List KernelCall → Ledger → Ledger
  run_all [] l = l
  run_all (call ∷ calls) l = run_all calls (run call l).1
