-- ===== src/Risk/Kernel/Truth.antt =====
-- The truth source of the kernel and the checks on what it gives (src/esscher/risk/snapshots.py and
-- the `try` blocks of src/esscher/risk/kernel.py).
pub mod Fresh
pub mod Raises
use esscher_market.Base.{ℕ, ◌*◌, Bool, Option, List, ltb}
use esscher_market.Base.Int.{ℤ, Decimal}
use esscher_market.Base.Result.{Result, ok, err, ◌>>=◌, ◌>>◌, raise_if}
use esscher_market.Execution.Models.{distance}
use esscher_market.Risk.Reasons.{
  RiskReason, unsupported_input, contradictory_truth, stale_clock, Failure, rejected, type_error,
  truth_error, Checked,
}
use esscher_market.Risk.Snapshots.{
  AccountSnapshot, PositionSnapshot, OrderSnapshot, second, validate_account_freshness,
  validate_positions_freshness, validate_orders_freshness,
}

-- What one method of the source does: it returns a value of its type or of another, or it raises a
-- `RiskRejected`, an `AttributeError` or a `TypeError`, or any other exception.
pub data Reading (A : Type 0) : Type 0 where
  read : A → Reading A
  malformed : Reading A
  refused : RiskReason → Reading A
  raised : Reading A
  failed : Reading A

-- `AccountTruthSource` at the time of one call of the kernel, which reads each method once at most.
pub record Truth : Type 0 where
  pub broker_clock : Reading ℕ
  pub account : Reading (Option AccountSnapshot)
  pub positions : Reading (List PositionSnapshot)
  pub orders : Reading (List OrderSnapshot)

-- A check that touches no state, in a method that lets the exception through.
abbrev pub rejecting : {A : Type 0} → Checked A → Result Failure A
rejecting (ok a) = ok a
rejecting (err reason) = err (rejected reason)

-- The reading given to the function that validates it; `reason` is its rejection of another type.
unfoldable pub validated :
    {A B : Type 0} → RiskReason → (A → Checked B) → Reading A → Result Failure B
validated reason validate (read a) = rejecting (validate a)
validated reason validate malformed = err (rejected reason)
validated reason validate (refused r) = err (rejected r)
validated reason validate raised = err type_error
validated reason validate failed = err truth_error

-- `abs((broker_clock - now).total_seconds()) > max_age_seconds`, in microseconds.
unfoldable pub is_skewed : ℕ → ℕ → ℕ → Bool
is_skewed max_age_seconds now broker_clock =
    ltb (max_age_seconds * second) (distance broker_clock now)

module _ (max_age_seconds now : ℕ) (truth : Truth) where
  unfoldable pub fresh_clock : Result Failure ℕ
  unfolding validated is_skewed
  fresh_clock =
      validated unsupported_input
        (λ clock. raise_if (is_skewed max_age_seconds now clock) stale_clock >> ok clock)
        truth.broker_clock

  unfoldable pub fresh_account : Result Failure AccountSnapshot
  unfolding validated
  fresh_account =
      validated contradictory_truth (validate_account_freshness max_age_seconds now) truth.account

  unfoldable pub fresh_positions : Result Failure (List PositionSnapshot)
  unfolding validated
  fresh_positions =
      validated contradictory_truth (validate_positions_freshness max_age_seconds now)
        truth.positions

  unfoldable pub fresh_orders : Result Failure (List OrderSnapshot)
  unfolding validated
  fresh_orders =
      validated contradictory_truth (validate_orders_freshness max_age_seconds now) truth.orders

  -- The `try` block of `startup_reconciliation` and `authorize_entry`.
  unfoldable pub observed_truth :
      Result Failure (AccountSnapshot × List PositionSnapshot × List OrderSnapshot)
  observed_truth = do
    clock ← fresh_clock
    account ← fresh_account
    positions ← fresh_positions
    orders ← fresh_orders
    ok (account, positions, orders)

  -- The `try` block of `reconcile_fill`.
  unfoldable pub observed_orders : Result Failure (List OrderSnapshot)
  observed_orders = do clock ← fresh_clock; fresh_orders

  -- The `try` block of `reconcile_flat`.
  unfoldable pub observed_positions : Result Failure (List PositionSnapshot × List OrderSnapshot)
  observed_positions = do
    clock ← fresh_clock
    positions ← fresh_positions
    orders ← fresh_orders
    ok (positions, orders)
