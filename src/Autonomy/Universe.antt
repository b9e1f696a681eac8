-- ===== src/Autonomy/Universe.antt =====
-- Sizing of defined-risk opportunities (src/esscher/autonomy/universe.py). Portfolio amounts are numbers
-- of units; the capacities, which multiply an equity by a percentage, are numbers of hundredths of a
-- unit.
pub mod Sizing
pub mod Capped
pub mod Booked
pub mod Replay
use esscher_market.Base.{
  ℕ, ◌+◌, ◌*◌, ◌/◌, ◌≤◌, Bool, true, false, not, ◌&&◌, Option, none, some, List, [], ◌∷◌, ◌++◌, any,
  find, ltb, leb, if◌then◌else◌,
}
use esscher_market.Base.Int.{ℤ, pos, negsuc, ◌-ℤ◌, leb_ℤ, eq_ℤ}
use esscher_market.Base.Text.{Text, text, same}
use esscher_market.Base.Json.{Json, string, number, bool, object, Fields, fields, Host}
use esscher_market.Base.Result.{Result, ok, err, ◌>>=◌, ◌>>◌, raise_if}

pub data UniverseContractReason : Type 0 where
  invalid_document duplicate_field missing_field unknown_field : UniverseContractReason
  unsupported_schema non_canonical_document invalid_identifier : UniverseContractReason
  invalid_boolean float_forbidden invalid_decimal invalid_clock invalid_count :
      UniverseContractReason
  invalid_rank unknown_state inconsistent_state duplicate_exposure : UniverseContractReason
  duplicate_symbol duplicate_reservation identity_conflict : UniverseContractReason

pub data RiskTier : Type 0 where
  five_percent ten_percent twenty_percent : RiskTier

-- `RiskTier.fraction`, in hundredths, and its text.
abbrev pub percent : RiskTier → ℕ
percent five_percent = 5
percent ten_percent = 10
percent twenty_percent = 20

abbrev pub fraction_text : RiskTier → Text
fraction_text five_percent = text "0.05"
fraction_text ten_percent = text "0.1"
fraction_text twenty_percent = text "0.2"

pub data AllocationStatus : Type 0 where
  allocated abstained : AllocationStatus

pub data AbstainReason : Type 0 where
  opportunity_not_ready tier_capacity_insufficient underlying_cap_insufficient : AbstainReason
  aggregate_cap_insufficient cash_insufficient : AbstainReason

pub record UnderlyingExposure : Type 0 where
  pub underlying : Text
  pub open_debit : ℕ

pub record PortfolioState : Type 0 where
  pub equity : ℕ
  pub cash : ℕ
  pub open_debit : ℕ
  pub exposures : List UnderlyingExposure

pub record DefinedRiskOpportunity : Type 0 where
  pub opportunity_id : Text
  pub decision_id : Text
  pub expression_id : Text
  pub underlying : Text
  pub risk_tier : RiskTier
  pub max_debit_per_contract : ℕ
  pub decision_ready : Bool

pub record AllocationReservation : Type 0 where
  pub opportunity_id : Text
  pub opportunity_sha256 : Text
  pub reservation_id : Text
  pub underlying : Text
  pub quantity : ℕ
  pub max_loss : ℕ

-- The `remaining_` fields are in hundredths of a unit.
pub record AllocationDecision : Type 0 where
  pub status : AllocationStatus
  pub reason_codes : List AbstainReason
  pub quantity : ℕ
  pub max_loss : ℕ
  pub reservation_id : Option Text
  pub remaining_tier : ℤ
  pub remaining_underlying : ℤ
  pub remaining_aggregate : ℤ
  pub remaining_cash : ℤ

-- The sum over the exposures, and the test that no underlying appears twice.
unfoldable pub open_sum : List UnderlyingExposure → ℕ
open_sum [] = 0
open_sum (e ∷ rest) = e.open_debit + open_sum rest

unfoldable pub is_distinct : List UnderlyingExposure → Bool
is_distinct [] = true
is_distinct (e ∷ rest) = not (any (λ f. same f.underlying e.underlying) rest) && is_distinct rest

-- `PortfolioState.__post_init__`.
unfoldable pub validate_portfolio : PortfolioState → Result UniverseContractReason (Unit {0})
unfolding open_sum is_distinct
validate_portfolio p = do
  raise_if (leb p.equity 0) invalid_decimal
  raise_if (not (is_distinct p.exposures)) duplicate_exposure
  raise_if (ltb p.open_debit (open_sum p.exposures)) inconsistent_state
  raise_if (ltb p.equity p.open_debit) inconsistent_state
  raise_if (ltb p.equity p.cash) inconsistent_state

-- `_underlying_open`.
abbrev pub open_debit_of : Option UnderlyingExposure → ℕ
open_debit_of none = 0
open_debit_of (some e) = e.open_debit

unfoldable pub underlying_open : PortfolioState → Text → ℕ
underlying_open portfolio underlying =
    open_debit_of (find (λ e. same e.underlying underlying) portfolio.exposures)

-- `_validate_reservations`: no opportunity twice.
unfoldable pub is_valid_reservations : List AllocationReservation → Bool
is_valid_reservations [] = true
is_valid_reservations (r ∷ rest) =
    not (any (λ s. same s.opportunity_id r.opportunity_id) rest) && is_valid_reservations rest

-- The sums over the reservations.
unfoldable pub reserved_total : List AllocationReservation → ℕ
reserved_total [] = 0
reserved_total (r ∷ rest) = r.max_loss + reserved_total rest

unfoldable pub reserved_underlying : Text → List AllocationReservation → ℕ
reserved_underlying underlying [] = 0
reserved_underlying underlying (r ∷ rest) =
    (if same r.underlying underlying then r.max_loss else 0) + reserved_underlying underlying rest

abbrev pub min_ℤ : ℤ → ℤ → ℤ
min_ℤ a b = if leb_ℤ a b then a else b

-- `int(capacity // max_debit_per_contract)` where that is positive, else 0; a negative capacity gives
-- no positive quotient.
unfoldable pub contracts : ℤ → ℕ → ℕ
contracts (pos capacity) debit = capacity / (100 * debit)
contracts (negsuc _) debit = 0

-- The four capacities, in hundredths of a unit.
pub record Capacities : Type 0 where
  pub tier : ℤ
  pub of_underlying : ℤ
  pub aggregate : ℤ
  pub of_cash : ℤ

unfoldable pub capacities :
    PortfolioState → DefinedRiskOpportunity → List AllocationReservation → Capacities
unfolding underlying_open reserved_total reserved_underlying
capacities portfolio o reservations = record {
  tier = pos (percent o.risk_tier * portfolio.equity);
  of_underlying =
      pos (20 * portfolio.equity)
      -ℤ pos (
          100
          * (underlying_open portfolio o.underlying
              + reserved_underlying o.underlying reservations));
  aggregate =
      pos (50 * portfolio.equity)
      -ℤ pos (100 * (portfolio.open_debit + reserved_total reservations));
  of_cash = pos (100 * portfolio.cash) -ℤ pos (100 * reserved_total reservations);
}

-- `min(tier_capacity, remaining_underlying, remaining_aggregate, remaining_cash)`.
abbrev pub least : Capacities → ℤ
least c = min_ℤ (min_ℤ (min_ℤ c.tier c.of_underlying) c.aggregate) c.of_cash

-- `if remaining == capacity: reasons.append(reason)`, then the later ones.
abbrev pub reason_if : Bool → AbstainReason → List AbstainReason → List AbstainReason
reason_if test reason later = if test then reason ∷ later else later

-- The reasons of an abstention for want of capacity.
unfoldable pub shortages : Capacities → List AbstainReason
shortages c = reason_if (eq_ℤ c.tier (least c)) tier_capacity_insufficient (
    reason_if (eq_ℤ c.of_underlying (least c)) underlying_cap_insufficient (
      reason_if (eq_ℤ c.aggregate (least c)) aggregate_cap_insufficient
        (reason_if (eq_ℤ c.of_cash (least c)) cash_insufficient [])))

-- An abstention, with the capacities as they are.
abbrev pub abstain : Capacities → List AbstainReason → AllocationDecision
abstain c reasons = record {
  status = abstained;
  reason_codes = reasons;
  quantity = 0;
  max_loss = 0;
  reservation_id = none;
  remaining_tier = c.tier;
  remaining_underlying = c.of_underlying;
  remaining_aggregate = c.aggregate;
  remaining_cash = c.of_cash;
}

module _ (host : Host) where
  open host use {dumps, sha256_hex, decimal_fixed}

  -- `defined_risk_opportunity_payload`.
  unfoldable pub defined_risk_opportunity_payload : DefinedRiskOpportunity → Fields
  defined_risk_opportunity_payload o = fields (
      (text "decision_id", string o.decision_id)
      ∷ (text "decision_ready", bool o.decision_ready)
      ∷ (text "expression_id", string o.expression_id)
      ∷ (text "max_debit_per_contract", string (decimal_fixed o.max_debit_per_contract))
      ∷ (text "opportunity_id", string o.opportunity_id)
      ∷ (text "risk_tier", string (fraction_text o.risk_tier))
      ∷ (text "schema", string (text "esscher.defined_risk_opportunity"))
      ∷ (text "schema_version", number (pos 1))
      ∷ (text "underlying", string o.underlying)
      ∷ [])

  unfoldable pub defined_risk_opportunity_sha256 : DefinedRiskOpportunity → Text
  unfolding defined_risk_opportunity_payload
  defined_risk_opportunity_sha256 o =
      sha256_hex (dumps (object (defined_risk_opportunity_payload o)))

  -- `_reservation_identity`.
  unfoldable pub reservation_identity : DefinedRiskOpportunity → ℕ → ℕ → Text
  unfolding defined_risk_opportunity_payload
  reservation_identity o quantity max_loss = sha256_hex (
      dumps (
        object (
          fields (
            (text "max_loss", string (decimal_fixed max_loss))
            ∷ (text "opportunity", object (defined_risk_opportunity_payload o))
            ∷ (text "quantity", number (pos quantity))
            ∷ (text "schema", string (text "esscher.defined_risk_reservation"))
            ∷ (text "schema_version", number (pos 1))
            ∷ []))))

  -- The decision that replays a reservation of the same opportunity.
  abbrev pub replay : Capacities → AllocationReservation → AllocationDecision
  replay c r = record {
    status = allocated;
    reason_codes = [];
    quantity = r.quantity;
    max_loss = r.max_loss;
    reservation_id = some r.reservation_id;
    remaining_tier = c.tier -ℤ pos (100 * r.max_loss);
    remaining_underlying = c.of_underlying;
    remaining_aggregate = c.aggregate;
    remaining_cash = c.of_cash;
  }

  -- A new allocation of so many contracts.
  abbrev pub reserve : Capacities → DefinedRiskOpportunity → ℕ → AllocationDecision
  reserve c o quantity =
      let max_loss = quantity * o.max_debit_per_contract in
      record {
        status = allocated;
        reason_codes = [];
        quantity = quantity;
        max_loss = max_loss;
        reservation_id = some (reservation_identity o quantity max_loss);
        remaining_tier = c.tier -ℤ pos (100 * max_loss);
        remaining_underlying = c.of_underlying -ℤ pos (100 * max_loss);
        remaining_aggregate = c.aggregate -ℤ pos (100 * max_loss);
        remaining_cash = c.of_cash -ℤ pos (100 * max_loss);
      }

  -- From the test of readiness to the end.
  unfoldable pub size_new : Capacities → DefinedRiskOpportunity → AllocationDecision
  unfolding contracts shortages reservation_identity
  size_new c o =
      let quantity = contracts (least c) o.max_debit_per_contract in
      if not o.decision_ready
      then abstain c (opportunity_not_ready ∷ [])
      else (if ltb quantity 1 then abstain c (shortages c) else reserve c o quantity)

  -- What follows the loop for a reservation of the same opportunity, given what the loop found.
  unfoldable pub replay_or_size :
      Capacities
      → DefinedRiskOpportunity
      → Option AllocationReservation
      → Result UniverseContractReason AllocationDecision
  unfolding size_new defined_risk_opportunity_sha256
  replay_or_size c o none = ok (size_new c o)
  replay_or_size c o (some r) =
      raise_if (not (same r.opportunity_sha256 (defined_risk_opportunity_sha256 o)))
        identity_conflict
      >> ok (replay c r)

  -- `allocate_defined_risk`.
  unfoldable pub allocate_defined_risk :
      PortfolioState
      → DefinedRiskOpportunity
      → List AllocationReservation
      → Result UniverseContractReason AllocationDecision
  unfolding capacities is_valid_reservations replay_or_size
  allocate_defined_risk portfolio o existing =
      raise_if (not (is_valid_reservations existing)) duplicate_reservation
      >> replay_or_size (capacities portfolio o existing) o
          (find (λ r. same r.opportunity_id o.opportunity_id) existing)
