-- ===== src/Risk/Kernel/Startup.antt =====
-- What a startup leaves (src/esscher/risk/kernel.py).
use esscher_market.Base.{
  ℕ, Bool, true, false, not, ◌&&◌, List, any, ◌⊎◌, arith, Bool-cases, ◌≡◌, refl, ◌↔◌, ◌≢◌, inl, inr,
}
use esscher_market.Base.Json.{Host}
use esscher_market.Base.Result.{Result, ok, err}
use esscher_market.Risk.Reasons.{
  ControlState, active, kill, Failure, rejected, type_error, integrity_error, truth_error,
}
use esscher_market.Risk.Controls.{
  ControlTrigger, resolved, contradictory_truth, partial_fill_state, non_flat_state, apply_control,
}
use esscher_market.Risk.Policy.{RiskPolicy}
use esscher_market.Risk.Snapshots.{
  AccountSnapshot, PositionSnapshot, OrderSnapshot, is_partial_fill,
}
use esscher_market.Risk.Ledger.Rows.{Ledger}
use esscher_market.Risk.Ledger.Monad.{Action, fail, gets, ◌>>=◌}
use esscher_market.Risk.Ledger.Records.{get_control_state}
use esscher_market.Risk.Kernel.Truth.{Truth, observed_truth}
use esscher_market.Risk.Kernel.Truth.Raises.{observed_truth-raises}
use esscher_market.Risk.Kernel.Control.{
  apply_trigger, resume, startup_from, startup_reconciliation, is_held, is_settled, failure_trigger,
}
use esscher_market.Risk.Kernel.Control.Leaves.{
  Leaves, apply_trigger-Leaves, trip-next, resolved-next, failure_trigger-resolved,
}

abbrev is_kill : ControlState → Bool
is_kill kill = true
is_kill _ = false

module _ (host : Host) where
  -- What `startup_reconciliation` asks of the truth that it observed and of the stored state before
  -- it gives entry authority.
  abbrev pub is_ready :
      Result Failure (AccountSnapshot × List PositionSnapshot × List OrderSnapshot)
      → ControlState
      → Bool
  is_ready (err _) state = false
  is_ready (ok (_, positions, orders)) state =
      not (any is_partial_fill orders) && not (any is_held positions) && not (is_kill state)

-- `m` returns a control state, stores it, and it is `ACTIVE` exactly when `ready` holds.
record Starts (host : Host) (m : Action ControlState) (l : Ledger) (ready : Bool) : Type 0 where
  state : ControlState
  leaves : Leaves host m l state
  activates : (state ≡ active) ↔ (ready ≡ true)

module _ (host : Host) (now : ℕ) (l : Ledger) where
  trip-Starts : (t : ControlTrigger) → t ≢ resolved → Starts host (apply_trigger host t now) l false
  trip-Starts t h =
      let (next, inactive) = trip-next host (get_control_state l).0 t h in
      record {
        state = apply_control (get_control_state l).0 t;
        leaves = apply_trigger-Leaves host t now l _ next;
        activates = (λ e. absurd (inactive e), λ e. cc);
      }

  resume-Starts : Starts host (resume host now) l (not (is_kill (get_control_state l).0))
  unfolding resume ◌>>=◌ gets
  resume-Starts = elim (Bool-cases (is_settled (get_control_state l).0)) [
    | inl settled ↦ record {
      state = (get_control_state l).0;
      leaves = record { returns = rw settled refl; stores = rw settled refl };
      activates = ground arith;
    }
    | inr unsettled ↦
        let step =
          apply_trigger-Leaves host resolved now l active (resolved-next host _ unsettled) in
        record {
          state = active;
          leaves = record {
            returns = rw unsettled step.returns;
            stores = rw unsettled step.stores;
          };
          activates = ground arith;
        }
  ]

  startup_from-Starts :
      (r : Result Failure (AccountSnapshot × List PositionSnapshot × List OrderSnapshot))
      → r ≢ err integrity_error
      → r ≢ err truth_error
      → Starts host (startup_from host r now) l (is_ready host r (get_control_state l).0)
  unfolding startup_from
  startup_from-Starts (err (rejected reason)) h g =
      trip-Starts (failure_trigger reason) (failure_trigger-resolved host reason)
  startup_from-Starts (err type_error) h g = trip-Starts contradictory_truth (ground arith)
  startup_from-Starts (err integrity_error) h g = absurd (h refl)
  startup_from-Starts (err truth_error) h g = absurd (g refl)
  startup_from-Starts (ok (account, ps, os)) h g = elim (Bool-cases (any is_partial_fill os)) [
    | inl partial ↦ rw partial (trip-Starts partial_fill_state (ground arith))
    | inr whole ↦ elim (Bool-cases (any is_held ps)) [
      | inl held ↦ rw (whole, held) (trip-Starts non_flat_state (ground arith))
      | inr flat ↦ rw (whole, flat) resume-Starts
    ]
  ]

-- The reading of the truth ends in another exception than the ones that a startup handles, or not.
truth_error-cases :
    {A : Type 0} (r : Result Failure A) → (r ≡ err truth_error) ⊎ (r ≢ err truth_error)
truth_error-cases (ok a) = inr (ground arith)
truth_error-cases (err (rejected reason)) = inr (ground arith)
truth_error-cases (err type_error) = inr (ground arith)
truth_error-cases (err integrity_error) = inr (ground arith)
truth_error-cases (err truth_error) = inl refl

module _ (host : Host) (policy : RiskPolicy) (truth : Truth) (now : ℕ) (l : Ledger) where
  abbrev seen : Result Failure (AccountSnapshot × List PositionSnapshot × List OrderSnapshot)
  seen = observed_truth policy.truth_max_age_seconds now truth

  startup-Starts :
      seen ≢ err truth_error
      → Starts host
          (startup_reconciliation host policy truth now)
          l
          (is_ready host seen (get_control_state l).0)
  unfolding startup_reconciliation
  startup-Starts =
      startup_from-Starts host now l seen
        (observed_truth-raises policy.truth_max_age_seconds now truth)

  startup-raises :
      seen ≡ err truth_error
      → ((startup_reconciliation host policy truth now l).0 ≡ err truth_error)
        × ((startup_reconciliation host policy truth now l).1 ≡ l)
  unfolding startup_reconciliation startup_from fail
  startup-raises h = rw h (refl, refl)

  -- A startup ends in one of two ways. Where the reading of the truth is stopped by an exception that
  -- is no `RiskRejected`, `AttributeError` or `TypeError`, the startup lets that exception through and
  -- writes nothing. Otherwise it returns, whatever the truth source did, and the state it returns is
  -- the one that it leaves stored.
  pub startup_ends :
      let after = startup_reconciliation host policy truth now l in
      ((seen ≡ err truth_error) × (after.0 ≡ err truth_error) × (after.1 ≡ l))
      ⊎ ((seen ≢ err truth_error)
          × ((s : ControlState) × (after.0 ≡ ok s) × ((get_control_state after.1).0 ≡ s)))
  startup_ends = elim (truth_error-cases seen) [
    | inl failed ↦ inl (failed, (startup-raises failed).0, (startup-raises failed).1)
    | inr handled ↦
        let starts = startup-Starts handled in
        inr (handled, (starts.state, starts.leaves.returns, starts.leaves.stores))
  ]

is_ready_iff :
    (host : Host)
    (r : Result Failure (AccountSnapshot × List PositionSnapshot × List OrderSnapshot))
    (s : ControlState)
    → (is_ready host r s ≡ true) ↔ (
        (seen : AccountSnapshot × List PositionSnapshot × List OrderSnapshot) × (r ≡ ok seen)
        × (s ≢ kill)
        × (any is_partial_fill seen.2 ≡ false)
        × (any is_held seen.1 ≡ false))
is_ready_iff host (err e) s = (λ h. cc, λ (seen, h, _, _, _). cc)
is_ready_iff host (ok (account, ps, os)) s = (
  λ h. ((account, ps, os), refl, ground arith, ground arith, ground arith),
  λ (seen, h, alive, whole, flat).
      let p : os ≡ seen.2 = cc in
      let q : ps ≡ seen.1 = cc in
      let none_partial : any is_partial_fill os ≡ false = rw p whole in
      let none_held : any is_held ps ≡ false = rw q flat in ground arith,
)

-- A startup gives entry authority exactly when its checks on the broker's truth pass, no order is a
-- partial fill, every position is zero and the stored state is not `KILL`.
pub startup_active_iff :
    (host : Host) (policy : RiskPolicy) (truth : Truth) (now : ℕ) (l : Ledger)
    → ((startup_reconciliation host policy truth now l).0 ≡ ok active) ↔ (
        (seen : AccountSnapshot × List PositionSnapshot × List OrderSnapshot) × (observed_truth
            policy.truth_max_age_seconds now truth
          ≡ ok seen)
        × ((get_control_state l).0 ≢ kill)
        × (any is_partial_fill seen.2 ≡ false)
        × (any is_held seen.1 ≡ false))
startup_active_iff host policy truth now l =
    let seen = observed_truth policy.truth_max_age_seconds now truth in
    let ready = is_ready_iff host seen (get_control_state l).0 in
    let same_state : (s : ControlState)
        → (startup_reconciliation host policy truth now l).0 ≡ ok s
        → (startup_reconciliation host policy truth now l).0 ≡ ok active
        → s ≡ active =
      λ s p q. cc in
    elim (truth_error-cases seen) [
      | inl failed ↦
          let raises = (startup-raises host policy truth now l failed).0 in
          (λ h. absurd cc, λ (found, h, _, _, _). absurd cc)
      | inr handled ↦
          let starts = startup-Starts host policy truth now l handled in
          (
            λ h. ready.0 (starts.activates.0 (same_state starts.state starts.leaves.returns h)),
            λ found. rw (← starts.activates.1 (ready.1 found)) starts.leaves.returns,
          )
    ]
