-- ===== src/Risk/Snapshots/Freshness.antt =====
-- What the freshness checks let through.
use esscher_market.Base.{
  ℕ, ◌+◌, ◌*◌, ◌≤◌, List, [], ◌∷◌, map, arith, ◌≡◌, ◌↔◌, ◌⊎◌, All, Option, none, some,
}
use esscher_market.Base.Result.{ok, err}
use esscher_market.Risk.Reasons.{
  RiskReason, contradictory_truth, stale_account_truth, stale_position_truth, stale_order_truth,
}
use esscher_market.Risk.Snapshots.{
  AccountSnapshot, PositionSnapshot, OrderSnapshot, second, validate_age, validate_ages,
  validate_account_freshness, validate_positions_freshness, validate_orders_freshness,
}

-- An observation that is not of the future and at most `max` seconds old.
abbrev pub IsFresh : ℕ → ℕ → ℕ → Type 0
IsFresh max now observed = (observed ≤ now) × (now ≤ observed + max * second)

pub validate_age_iff :
    (stale : RiskReason) (max now observed : ℕ)
    → (validate_age stale max now observed ≡ ok tt) ↔ IsFresh max now observed
unfolding validate_age
validate_age_iff stale max now observed = ground arith

pub validate_ages_iff :
    (stale : RiskReason) (max now : ℕ) (times : List ℕ)
    → (validate_ages stale max now times ≡ ok tt) ↔ All (IsFresh max now) times
unfolding validate_ages
validate_ages_iff stale max now [] = ground arith
validate_ages_iff stale max now (t ∷ ts) =
    ground (arith, validate_age_iff stale max now t, validate_ages_iff stale max now ts)

validate_ages-reason :
    (stale : RiskReason) (max now : ℕ) (times : List ℕ)
    → (validate_ages stale max now times ≡ ok tt)
      ⊎ (validate_ages stale max now times ≡ err contradictory_truth)
      ⊎ (validate_ages stale max now times ≡ err stale)
unfolding validate_ages
validate_ages-reason stale max now [] = ground arith
validate_ages-reason stale max now (t ∷ ts) = ground (arith, validate_ages-reason stale max now ts)

All-map {ℓ} :
    {A : Type ℓ} (f : A → ℕ) (max now : ℕ) (xs : List A)
    → All (IsFresh max now) (map f xs) ↔ All (λ x. IsFresh max now (f x)) xs
All-map f max now [] = ground arith
All-map f max now (x ∷ xs) = ground (arith, All-map f max now xs)

-- Positions pass exactly when each was observed no later than now and at most the allowed number of
-- seconds ago; they are then returned unchanged, and otherwise the rejection is for contradictory
-- truth or for stale positions.
pub validate_positions_freshness_iff :
    (max now : ℕ) (ps : List PositionSnapshot)
    → let r = validate_positions_freshness max now ps in
      ((r ≡ ok ps) ↔ All (λ p. IsFresh max now p.observed_at) ps)
      × ((r ≡ ok ps) ⊎ (r ≡ err contradictory_truth) ⊎ (r ≡ err stale_position_truth))
unfolding validate_positions_freshness
validate_positions_freshness_iff max now ps =
    let times = map (λ (p : PositionSnapshot). p.observed_at) ps in
    ground (
      arith,
      validate_ages_iff stale_position_truth max now times,
      validate_ages-reason stale_position_truth max now times,
      All-map (λ (p : PositionSnapshot). p.observed_at) max now ps,
    )

-- Orders pass exactly when each was observed no later than now and at most the allowed number of
-- seconds ago; they are then returned unchanged, and otherwise the rejection is for contradictory
-- truth or for stale orders.
pub validate_orders_freshness_iff :
    (max now : ℕ) (os : List OrderSnapshot)
    → let r = validate_orders_freshness max now os in
      ((r ≡ ok os) ↔ All (λ o. IsFresh max now o.observed_at) os)
      × ((r ≡ ok os) ⊎ (r ≡ err contradictory_truth) ⊎ (r ≡ err stale_order_truth))
unfolding validate_orders_freshness
validate_orders_freshness_iff max now os =
    let times = map (λ (o : OrderSnapshot). o.observed_at) os in
    ground (
      arith,
      validate_ages_iff stale_order_truth max now times,
      validate_ages-reason stale_order_truth max now times,
      All-map (λ (o : OrderSnapshot). o.observed_at) max now os,
    )

-- Account truth passes exactly when it is present and fresh.
pub validate_account_freshness_iff :
    (max now : ℕ) (o : Option AccountSnapshot) (account : AccountSnapshot)
    → (validate_account_freshness max now o ≡ ok account)
      ↔ ((o ≡ some account) × IsFresh max now account.observed_at)
unfolding validate_account_freshness
validate_account_freshness_iff max now none account = ground arith
validate_account_freshness_iff max now (some a) account =
    ground (arith, validate_age_iff stale_account_truth max now a.observed_at)
