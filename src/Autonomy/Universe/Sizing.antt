-- ===== src/Autonomy/Universe/Sizing.antt =====
-- The number of contracts that the allocator reserves (src/esscher/autonomy/universe.py).
use native.Mathlib.Nat.{le-div_iff_mul-le, mul_left_comm}
use esscher_market.Base.{ℕ, ◌+◌, ◌*◌, ◌≤◌, ◌<◌, List, arith, ◌≡◌, ◌↔◌}
use esscher_market.Base.Int.{ℤ, pos, negsuc, ◌-ℤ◌, ◌≤ℤ◌}
use esscher_market.Autonomy.Universe.{
  PortfolioState, DefinedRiskOpportunity, AllocationReservation, percent, underlying_open,
  reserved_total, reserved_underlying, min_ℤ, contracts, capacities, least,
}

-- So many more contracts of the opportunity stay within the tier, the cap of its underlying, the
-- aggregate cap and the unborrowed cash.
pub record Fits (p : PortfolioState) (o : DefinedRiskOpportunity) (rs : List AllocationReservation)
    (n : ℕ) : Type 0 where
  pub within_tier : 100 * (n * o.max_debit_per_contract) ≤ percent o.risk_tier * p.equity
  pub within_underlying :
      100
        * (underlying_open p o.underlying
            + reserved_underlying o.underlying rs
            + n * o.max_debit_per_contract)
      ≤ 20 * p.equity
  pub within_aggregate :
      100 * (p.open_debit + reserved_total rs + n * o.max_debit_per_contract) ≤ 50 * p.equity
  pub within_cash : reserved_total rs + n * o.max_debit_per_contract ≤ p.cash

contracts-le :
    (c : ℤ) (debit n : ℕ)
    → 0 < debit
    → 0 < n
    → (n ≤ contracts c debit) ↔ (pos (n * (100 * debit)) ≤ℤ c)
unfolding contracts
contracts-le (pos c) debit n d h =
    let whole = le-div_iff_mul-le {k = 100 * debit} {x = n} {y = c} (omega arith) in
    ground (arith, whole)
contracts-le (negsuc c) debit n d h = ground arith

min-le : (x : ℕ) (a b : ℤ) → (pos x ≤ℤ min_ℤ a b) ↔ ((pos x ≤ℤ a) × (pos x ≤ℤ b))
min-le x a b = ground arith

sub-le : (x a b : ℕ) → (pos x ≤ℤ (pos a -ℤ pos b)) ↔ (x + b ≤ a)
unfolding ◌-ℤ◌
sub-le x a b = ground arith

-- The allocator's quotient is the largest number of contracts that fits: a positive number of
-- contracts is at most the quotient exactly when that many stay within all four caps.
pub contracts_iff :
    (p : PortfolioState) (o : DefinedRiskOpportunity) (rs : List AllocationReservation) (n : ℕ)
    → 0 < o.max_debit_per_contract
    → 0 < n
    → (n ≤ contracts (least (capacities p o rs)) o.max_debit_per_contract) ↔ Fits p o rs n
unfolding capacities
contracts_iff p o rs n d h =
    let debit = o.max_debit_per_contract in
    let loss : n * (100 * debit) ≡ 100 * (n * debit) = mul_left_comm n 100 debit in
    let tier = percent o.risk_tier * p.equity in
    let held = underlying_open p o.underlying + reserved_underlying o.underlying rs in
    let all_held = p.open_debit + reserved_total rs in
    let quotient = contracts-le (least (capacities p o rs)) debit n d h in
    let c = capacities p o rs in
    let m4 =
      min-le (n * (100 * debit)) (min_ℤ (min_ℤ c.tier c.of_underlying) c.aggregate) c.of_cash in
    let m3 = min-le (n * (100 * debit)) (min_ℤ c.tier c.of_underlying) c.aggregate in
    let m2 = min-le (n * (100 * debit)) c.tier c.of_underlying in
    let s1 = sub-le (n * (100 * debit)) (20 * p.equity) (100 * held) in
    let s2 = sub-le (n * (100 * debit)) (50 * p.equity) (100 * all_held) in
    let s3 = sub-le (n * (100 * debit)) (100 * p.cash) (100 * reserved_total rs) in
    (
      λ q.
          let (q3, cash) = m4.0 (quotient.0 q) in
          let (q2, aggregate) = m3.0 q3 in
          let (t, under) = m2.0 q2 in
          record {
            within_tier = omega (arith, t, loss);
            within_underlying = omega (arith, s1.0 under, loss);
            within_aggregate = omega (arith, s2.0 aggregate, loss);
            within_cash = omega (arith, s3.0 cash, loss);
          },
      λ f. quotient.1 (
          m4.1 (
            m3.1 (
              m2.1 (
                omega (arith, f.within_tier, loss),
                s1.1 (omega (arith, f.within_underlying, loss)),
              ),
              s2.1 (omega (arith, f.within_aggregate, loss)),
            ),
            s3.1 (omega (arith, f.within_cash, loss)),
          )),
    )
