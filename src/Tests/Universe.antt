-- ===== src/Tests/Universe.antt =====
-- The allocator's theorems at concrete inputs.
use esscher_market.Base.{
  ℕ, ◌+◌, ◌*◌, ◌≤◌, ◌<◌, true, List, [], ◌∷◌, ◌≡◌, ◌↔◌, refl, arith, Bool-cases, inl, inr,
}
use esscher_market.Base.Int.{◌-ℤ◌}
use esscher_market.Base.Text.{Text, text, same}
use esscher_market.Base.Result.{ok}
use esscher_market.Autonomy.Universe.{
  PortfolioState, DefinedRiskOpportunity, AllocationReservation, AllocationDecision, allocated,
  ten_percent, capacities, underlying_open, reserved_total, reserved_underlying,
  allocate_defined_risk, contracts, reserve, size_new, replay_or_size, is_valid_reservations,
}
use esscher_market.Autonomy.Universe.Sizing.{Fits}
use esscher_market.Autonomy.Universe.Capped.{allocation_is_largest}
use esscher_market.Autonomy.Universe.Booked.{Booked, start, book, reservation_of, books_within_caps}
use esscher_market.Autonomy.Universe.Replay.{booked_allocation_replays}
use esscher_market.Tests.Entries.{zero_host}

-- An equity of 1000, of which 150 are open in SPY and 700 are cash.
abbrev portfolio : PortfolioState
portfolio = record {
  equity = 1000;
  cash = 700;
  open_debit = 150;
  exposures = record { underlying = text "SPY"; open_debit = 150 } ∷ [];
}

-- Contracts of 20 in the tier of a tenth: the cap of the underlying leaves two of them.
abbrev opportunity : DefinedRiskOpportunity
opportunity = record {
  opportunity_id = text "opportunity-1";
  decision_id = text "decision-1";
  expression_id = text "expression-1";
  underlying = text "SPY";
  risk_tier = ten_percent;
  max_debit_per_contract = 20;
  decision_ready = true;
}

abbrev two_contracts : AllocationDecision
two_contracts = reserve zero_host (capacities portfolio opportunity []) opportunity 2

allocates_two : allocate_defined_risk zero_host portfolio opportunity [] ≡ ok two_contracts
unfolding allocate_defined_risk capacities contracts size_new replay_or_size underlying_open
    reserved_total reserved_underlying ◌-ℤ◌ same is_valid_reservations
allocates_two = refl

allocation_is_largest_example :
    ((n : ℕ) → 0 < n → (n ≤ 2) ↔ Fits portfolio opportunity [] n)
    × (40 ≡ 2 * 20)
    × ((two_contracts.status ≡ allocated) ↔ (0 < 2))
allocation_is_largest_example =
    allocation_is_largest zero_host portfolio opportunity [] two_contracts (omega arith) refl refl
      allocates_two

booked_allocation_replays_example :
    allocate_defined_risk zero_host portfolio opportunity
      (reservation_of zero_host opportunity two_contracts ∷ [])
    ≡ ok two_contracts
booked_allocation_replays_example =
    booked_allocation_replays zero_host portfolio opportunity [] two_contracts refl allocates_two
      refl

abbrev one_booked : List AllocationReservation
one_booked = reservation_of zero_host opportunity two_contracts ∷ []

booked : Booked zero_host portfolio one_booked
booked = book start opportunity two_contracts (omega arith) refl refl allocates_two refl

open_within : (u : Text) → 100 * underlying_open portfolio u ≤ 20 * 1000
unfolding underlying_open
open_within u = elim (Bool-cases (same (text "SPY") u)) [
  | inl q ↦ rw q (omega arith)
  | inr q ↦ rw q (omega arith)
]

books_within_caps_example :
    (reserved_total one_booked ≤ 700)
    × (100 * (150 + reserved_total one_booked) ≤ 50 * 1000)
    × ((u : Text)
        → 100 * (underlying_open portfolio u + reserved_underlying u one_booked) ≤ 20 * 1000)
books_within_caps_example =
    books_within_caps zero_host portfolio one_booked booked (omega arith) open_within
