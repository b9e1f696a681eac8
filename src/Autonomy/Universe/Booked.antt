-- ===== src/Autonomy/Universe/Booked.antt =====
-- Books of reservations that allocations fill (src/esscher/autonomy/universe.py).
use esscher_market.Base.{
  ◌+◌, ◌*◌, ◌≤◌, ◌<◌, true, List, [], ◌∷◌, Option, none, some, arith, ◌≡◌, Bool-cases, inl, inr,
}
use esscher_market.Base.Text.{Text, same, same_iff}
use esscher_market.Base.Json.{Host}
use esscher_market.Base.Result.{ok}
use esscher_market.Autonomy.Universe.{
  PortfolioState, DefinedRiskOpportunity, AllocationReservation, AllocationDecision, allocated,
  underlying_open, reserved_total, reserved_underlying, allocate_defined_risk,
  defined_risk_opportunity_sha256,
}
use esscher_market.Autonomy.Universe.Sizing.{Fits}
use esscher_market.Autonomy.Universe.Capped.{IsNew, allocation_is_largest}

abbrev id_or_empty : Option Text → Text
id_or_empty none = []
id_or_empty (some id) = id

-- The reservation that an allocation of the opportunity persists.
abbrev pub reservation_of :
    Host → DefinedRiskOpportunity → AllocationDecision → AllocationReservation
reservation_of host o d = record {
  opportunity_id = o.opportunity_id;
  opportunity_sha256 = defined_risk_opportunity_sha256 host o;
  reservation_id = id_or_empty d.reservation_id;
  underlying = o.underlying;
  quantity = d.quantity;
  max_loss = d.max_loss;
}

-- The books that a portfolio's allocations can lead to: each step books one allocation of a ready
-- opportunity without a reservation.
pub data Booked (host : Host) (p : PortfolioState) : List AllocationReservation → Type 0 where
  start : Booked host p []
  book :
      {rs : List AllocationReservation}
      → Booked host p rs
      → (o : DefinedRiskOpportunity) (d : AllocationDecision) → 0 < o.max_debit_per_contract
      → o.decision_ready ≡ true
      → IsNew o rs
      → allocate_defined_risk host p o rs ≡ ok d
      → d.status ≡ allocated
      → Booked host p (reservation_of host o d ∷ rs)

module _ (host : Host) (p : PortfolioState) where
  -- The largest allocation fits.
  allocated-Fits :
      (o : DefinedRiskOpportunity) (rs : List AllocationReservation) (d : AllocationDecision)
      → 0 < o.max_debit_per_contract
      → o.decision_ready ≡ true
      → IsNew o rs
      → allocate_defined_risk host p o rs ≡ ok d
      → d.status ≡ allocated
      → Fits p o rs d.quantity × (d.max_loss ≡ d.quantity * o.max_debit_per_contract)
  allocated-Fits o rs d debit ready new h reserves =
      let (largest, loss, reserving) = allocation_is_largest host p o rs d debit ready new h in
      ((largest d.quantity (reserving.0 reserves)).0 (omega arith), loss)

  -- In every book the losses are covered by cash, and with the open debit they stay within half of
  -- the equity and, underlying by underlying, within a fifth of it, if the open debit did.
  pub books_within_caps :
      (rs : List AllocationReservation)
      → Booked host p rs
      → 100 * p.open_debit ≤ 50 * p.equity
      → ((u : Text) → 100 * underlying_open p u ≤ 20 * p.equity)
      → (reserved_total rs ≤ p.cash)
        × (100 * (p.open_debit + reserved_total rs) ≤ 50 * p.equity)
        × ((u : Text) → 100 * (underlying_open p u + reserved_underlying u rs) ≤ 20 * p.equity)
  unfolding reserved_total reserved_underlying
  books_within_caps [] start aggregate under =
      (omega arith, omega (arith, aggregate), λ u. let h = under u in omega (arith, h))
  books_within_caps (r ∷ rs) (book before o d debit ready new h reserves) aggregate under =
      let (fits, loss) = allocated-Fits o rs d debit ready new h reserves in
      let (cash, whole, each) = books_within_caps rs before aggregate under in
      (
        omega (arith, fits.within_cash, loss),
        omega (arith, fits.within_aggregate, loss),
        λ u. elim (Bool-cases (same o.underlying u)) [
          | inl q ↦
              let name : o.underlying ≡ u = (same_iff o.underlying u).0 q in
              let m = d.quantity * o.max_debit_per_contract in
              let here : 100 * (underlying_open p u + reserved_underlying u rs + m)
                  ≤ 20 * p.equity =
                rw (← name) fits.within_underlying in
              rw q (omega (arith, here, loss))
          | inr q ↦ let there = each u in rw q (omega (arith, there))
        ],
      )
