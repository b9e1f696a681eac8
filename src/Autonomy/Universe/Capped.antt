-- ===== src/Autonomy/Universe/Capped.antt =====
-- What an allocation decides, and the books that allocations fill (src/esscher/autonomy/universe.py).
use esscher_market.Base.{
  ℕ, ◌*◌, ◌≤◌, ◌<◌, Bool, true, false, not, List, none, find, arith, ◌≡◌, ◌↔◌, refl, ltb, sym,
  Bool-cases, inl, inr,
}
use esscher_market.Base.Text.{same}
use esscher_market.Base.Json.{Host}
use esscher_market.Base.Result.{Result, ok, ◌>>◌, raise_if}
use esscher_market.Autonomy.Universe.{
  PortfolioState, DefinedRiskOpportunity, AllocationReservation, AllocationDecision, allocated,
  contracts, Capacities, capacities, least, is_valid_reservations, size_new, allocate_defined_risk,
  replay_or_size, UniverseContractReason, duplicate_reservation,
}
use esscher_market.Autonomy.Universe.Sizing.{Fits, contracts_iff}

-- There is no reservation for the opportunity yet.
abbrev pub IsNew : DefinedRiskOpportunity → List AllocationReservation → Type 0
IsNew o rs = find (λ r. same r.opportunity_id o.opportunity_id) rs ≡ none

-- A decision on a new opportunity: its quantity is the allocator's quotient.
record IsSized (o : DefinedRiskOpportunity) (quotient : ℕ) (d : AllocationDecision) : Type 0 where
  sized : d.quantity ≡ quotient
  loss : d.max_loss ≡ d.quantity * o.max_debit_per_contract
  reserves : (d.status ≡ allocated) ↔ (0 < d.quantity)

-- A test in front of a result.
pub guarded_ok :
    {A : Type 0} (b : Bool) (e : UniverseContractReason) (r : Result UniverseContractReason A)
    (d : A)
    → (raise_if b e >> r) ≡ ok d
    → (b ≡ false) × (r ≡ ok d)
guarded_ok true e r d h = absurd cc
guarded_ok false e r d h = (refl, h)

pub ok_injective :
    {A : Type 0} (a b : A) → (◌≡◌ {A = Result UniverseContractReason A} (ok a) (ok b)) → a ≡ b
ok_injective a b h = cc

module _ (host : Host) where
  size_new-IsSized :
      (c : Capacities) (o : DefinedRiskOpportunity)
      → o.decision_ready ≡ true
      → IsSized o (contracts (least c) o.max_debit_per_contract) (size_new host c o)
  unfolding size_new
  size_new-IsSized c o ready =
      elim (Bool-cases (ltb (contracts (least c) o.max_debit_per_contract) 1)) [
        | inl small ↦
            rw (ready, small)
              (record { sized = ground arith; loss = omega arith; reserves = ground arith })
        | inr large ↦
            rw (ready, large) (record { sized = refl; loss = refl; reserves = ground arith })
      ]

  pub allocate_new :
      (p : PortfolioState) (o : DefinedRiskOpportunity) (rs : List AllocationReservation)
      (d : AllocationDecision)
      → IsNew o rs
      → allocate_defined_risk host p o rs ≡ ok d
      → d ≡ size_new host (capacities p o rs) o
  unfolding allocate_defined_risk replay_or_size
  allocate_new p o rs d new h =
      let found = find (λ r. same r.opportunity_id o.opportunity_id) rs in
      let (valid, sized) =
        guarded_ok (not (is_valid_reservations rs)) duplicate_reservation
          (replay_or_size host (capacities p o rs) o found) d h in
      sym (ok_injective (size_new host (capacities p o rs) o) d (rw new at sized))

  -- A decision on a ready opportunity without a reservation is for the largest number of contracts
  -- that stays within the tier, the cap of its underlying, the aggregate cap and the cash: any
  -- positive number fits exactly when it is at most the decided quantity. The loss is that many times
  -- the debit, and the decision reserves exactly when the quantity is not zero.
  pub allocation_is_largest :
      (p : PortfolioState) (o : DefinedRiskOpportunity) (rs : List AllocationReservation)
      (d : AllocationDecision)
      → 0 < o.max_debit_per_contract
      → o.decision_ready ≡ true
      → IsNew o rs
      → allocate_defined_risk host p o rs ≡ ok d
      → ((n : ℕ) → 0 < n → (n ≤ d.quantity) ↔ Fits p o rs n)
        × (d.max_loss ≡ d.quantity * o.max_debit_per_contract)
        × ((d.status ≡ allocated) ↔ (0 < d.quantity))
  allocation_is_largest p o rs d debit ready new h =
      let sized : IsSized o (contracts (least (capacities p o rs)) o.max_debit_per_contract) d =
        rw (allocate_new p o rs d new h) (size_new-IsSized (capacities p o rs) o ready) in
      (
        λ n positive. rw sized.sized (contracts_iff p o rs n debit positive),
        sized.loss,
        sized.reserves,
      )
