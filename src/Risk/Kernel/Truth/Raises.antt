-- ===== src/Risk/Kernel/Truth/Raises.antt =====
-- The exceptions of the kernel's checks on the broker's truth (src/esscher/risk/kernel.py).
use esscher_market.Base.{ℕ, List, arith, ◌≢◌}
use esscher_market.Base.Result.{Result, ok, err}
use esscher_market.Risk.Reasons.{RiskReason, Failure, integrity_error, Checked}
use esscher_market.Risk.Snapshots.{AccountSnapshot, PositionSnapshot, OrderSnapshot}
use esscher_market.Risk.Kernel.Truth.Fresh.{four}
use esscher_market.Risk.Kernel.Truth.{
  Reading, read, malformed, refused, raised, failed, Truth, rejecting, validated, fresh_clock,
  fresh_account, fresh_positions, fresh_orders, observed_truth,
}

rejecting-raises : {A : Type 0} (c : Checked A) → rejecting c ≢ err integrity_error
rejecting-raises (ok a) = ground arith
rejecting-raises (err e) = ground arith

validated-raises :
    {A B : Type 0} (reason : RiskReason) (validate : A → Checked B) (r : Reading A)
    → validated reason validate r ≢ err integrity_error
unfolding validated
validated-raises reason validate (read a) = rejecting-raises (validate a)
validated-raises reason validate malformed = ground arith
validated-raises reason validate (refused r) = ground arith
validated-raises reason validate raised = ground arith
validated-raises reason validate failed = ground arith

four-raises :
    (c : Result Failure ℕ) (a : Result Failure AccountSnapshot)
    (p : Result Failure (List PositionSnapshot)) (o : Result Failure (List OrderSnapshot))
    → c ≢ err integrity_error
    → a ≢ err integrity_error
    → p ≢ err integrity_error
    → o ≢ err integrity_error
    → four c a p o ≢ err integrity_error
four-raises (err e) a p o hc ha hp ho = λ h. hc cc
four-raises (ok c) (err e) p o hc ha hp ho = λ h. ha cc
four-raises (ok c) (ok a) (err e) o hc ha hp ho = λ h. hp cc
four-raises (ok c) (ok a) (ok p) (err e) hc ha hp ho = λ h. ho cc
four-raises (ok c) (ok a) (ok p) (ok o) hc ha hp ho = λ h. cc

pub observed_truth-raises :
    (max now : ℕ) (truth : Truth) → observed_truth max now truth ≢ err integrity_error
unfolding observed_truth fresh_clock fresh_account fresh_positions fresh_orders
observed_truth-raises max now truth =
    four-raises (fresh_clock max now truth) (fresh_account max now truth)
      (fresh_positions max now truth) (fresh_orders max now truth) (search validated-raises)
      (search validated-raises) (search validated-raises) (search validated-raises)
