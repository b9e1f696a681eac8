-- ===== src/Autonomy/Universe/Replay.antt =====
-- An allocation asked for again (src/esscher/autonomy/universe.py).
use esscher_market.Base.{
  ℕ, ◌+◌, ◌*◌, Bool, true, false, not, List, [], ◌∷◌, none, find, any, ltb, arith, ◌≡◌, refl, sym,
  ap, ◌∙◌, if◌then◌else◌,
}
use esscher_market.Base.Int.{pos, ◌-ℤ◌}
use esscher_market.Base.Text.{Text, same, same_iff}
use esscher_market.Base.Json.{Host}
use esscher_market.Base.Result.{ok}
use esscher_market.Autonomy.Universe.{
  PortfolioState, DefinedRiskOpportunity, AllocationReservation, AllocationDecision, allocated,
  AbstainReason, abstain, contracts, least, underlying_open, reserved_total, reserved_underlying,
  Capacities, capacities, is_valid_reservations, replay, reserve, size_new, replay_or_size,
  allocate_defined_risk, defined_risk_opportunity_sha256, duplicate_reservation,
}
use esscher_market.Autonomy.Universe.Capped.{IsNew, guarded_ok, allocate_new}
use esscher_market.Autonomy.Universe.Booked.{reservation_of}

sub-sub : (a b c : ℕ) → ((pos a -ℤ pos b) -ℤ pos c) ≡ (pos a -ℤ pos (b + c))
unfolding ◌-ℤ◌
sub-sub a b c = ground arith

any_of_find :
    (id : Text) (rs : List AllocationReservation)
    → find (λ r. same r.opportunity_id id) rs ≡ none
    → any (λ r. same r.opportunity_id id) rs ≡ false
any_of_find id [] h = refl
any_of_find id (r ∷ rs) h = ground (arith, any_of_find id rs)

-- The one branch of a sizing that reserves.
chosen :
    (b t : Bool) (c : Capacities) (x y : List AbstainReason) (z : AllocationDecision)
    → (if b then abstain c x else (if t then abstain c y else z)).status ≡ allocated
    → (if b then abstain c x else (if t then abstain c y else z)) ≡ z
chosen true t c x y z h = absurd cc
chosen false true c x y z h = absurd cc
chosen false false c x y z h = refl

module _ (host : Host) (p : PortfolioState) (o : DefinedRiskOpportunity) where
  reserving :
      (c : Capacities)
      → (size_new host c o).status ≡ allocated
      → size_new host c o ≡ reserve host c o (contracts (least c) o.max_debit_per_contract)
  unfolding size_new
  reserving c h =
      chosen (not o.decision_ready) (ltb (contracts (least c) o.max_debit_per_contract) 1) c _ _ _ h

  -- The capacities that are left once the reservation is booked.
  left_underlying :
      (rs : List AllocationReservation) (r : AllocationReservation)
      → r.underlying ≡ o.underlying
      → (capacities p o (r ∷ rs)).of_underlying
        ≡ ((capacities p o rs).of_underlying -ℤ pos (100 * r.max_loss))
  unfolding capacities reserved_underlying
  left_underlying rs r own =
      let named = (same_iff r.underlying o.underlying).1 own in
      rw
        (
          named,
          sub-sub (20 * p.equity)
              (100 * (underlying_open p o.underlying + reserved_underlying o.underlying rs))
              (100 * r.max_loss),
        )
        (ap (λ n. pos (20 * p.equity) -ℤ pos n) (omega arith))

  left_tier :
      (rs : List AllocationReservation) (r : AllocationReservation)
      → (capacities p o (r ∷ rs)).tier ≡ (capacities p o rs).tier
  unfolding capacities
  left_tier rs r = refl

  left_aggregate :
      (rs : List AllocationReservation) (r : AllocationReservation)
      → (capacities p o (r ∷ rs)).aggregate
        ≡ ((capacities p o rs).aggregate -ℤ pos (100 * r.max_loss))
  unfolding capacities reserved_total ◌-ℤ◌
  left_aggregate rs r = ground arith

  left_cash :
      (rs : List AllocationReservation) (r : AllocationReservation)
      → (capacities p o (r ∷ rs)).of_cash ≡ ((capacities p o rs).of_cash -ℤ pos (100 * r.max_loss))
  unfolding capacities reserved_total ◌-ℤ◌
  left_cash rs r = ground arith

  -- A booked allocation replays as it was decided.
  replay_lem :
      (rs : List AllocationReservation) (q : ℕ)
      → let d = reserve host (capacities p o rs) o q in
        replay host (capacities p o (reservation_of host o d ∷ rs)) (reservation_of host o d) ≡ d
  replay_lem rs q =
      let d = reserve host (capacities p o rs) o q in
      let r = reservation_of host o d in
      let tier : (capacities p o (r ∷ rs)).tier ≡ (capacities p o rs).tier = left_tier rs r in
      rw (tier, left_underlying rs r refl, left_aggregate rs r, left_cash rs r) refl

  -- An allocation of a new opportunity that is booked and asked for again gives the same decision:
  -- the same quantity, loss, reservation and remaining capacities.
  pub booked_allocation_replays :
      (rs : List AllocationReservation) (d : AllocationDecision)
      → IsNew o rs
      → allocate_defined_risk host p o rs ≡ ok d
      → d.status ≡ allocated
      → allocate_defined_risk host p o (reservation_of host o d ∷ rs) ≡ ok d
  unfolding allocate_defined_risk replay_or_size is_valid_reservations
  booked_allocation_replays rs d new h reserves =
      let found = find (λ r. same r.opportunity_id o.opportunity_id) rs in
      let (valid, _) =
        guarded_ok (not (is_valid_reservations rs)) duplicate_reservation
          (replay_or_size host (capacities p o rs) o found) d h in
      let sized : size_new host (capacities p o rs) o ≡ d =
        sym (allocate_new host p o rs d new h) in
      let q = contracts (least (capacities p o rs)) o.max_debit_per_contract in
      let own : d ≡ reserve host (capacities p o rs) o q =
        sym sized ∙ reserving (capacities p o rs) (rw sized reserves) in
      let fresh = any_of_find o.opportunity_id rs new in
      let is_valid : is_valid_reservations rs ≡ true = ground arith in
      let id = (same_iff o.opportunity_id o.opportunity_id).1 refl in
      let digest = defined_risk_opportunity_sha256 host o in
      let bytes = (same_iff digest digest).1 refl in
      rw (own, fresh, is_valid, id, bytes) (ap ok (replay_lem rs q))
