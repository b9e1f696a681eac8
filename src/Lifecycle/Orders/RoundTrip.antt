-- ===== src/Lifecycle/Orders/RoundTrip.antt =====
-- Order requests and the parser of their payloads (src/esscher/lifecycle/broker.py).
use esscher_market.Base.{
  Bool, true, false, not, ◌&&◌, Option, some, List, [], ◌∷◌, all, ltb, and_split, arith, ◌≡◌, refl,
}
use esscher_market.Base.Int.{ℤ, pos, negsuc, Decimal, finite, non_finite}
use esscher_market.Base.Text.{Text, same, strip}
use esscher_market.Base.Json.{number, string, array, object, get}
use esscher_market.Base.Result.{ok}
use esscher_market.Lifecycle.Broker.{BrokerOptionLeg}
use esscher_market.Lifecycle.Orders.{
  BrokerOrderRequest, leg_terms, leg_items, exact_text, positive_quantity, leg_of, legs_of,
  legs_field, finite_price, is_order_phase, broker_order_request_payload,
  parse_broker_order_request_payload,
}

-- A text that is not blank and has no white space at its ends.
abbrev pub is_exact : Text → Bool
is_exact t = not (same (strip t) []) && same t (strip t)

abbrev is_positive : ℤ → Bool
is_positive (pos n) = ltb 0 n
is_positive (negsuc _) = false

abbrev pub is_finite : Decimal → Bool
is_finite (finite _) = true
is_finite non_finite = false

abbrev is_exact_leg : BrokerOptionLeg → Bool
is_exact_leg leg =
    is_positive leg.quantity
    && is_exact leg.symbol
    && is_exact leg.side
    && is_exact leg.position_intent

abbrev has_legs : List BrokerOptionLeg → Bool
has_legs [] = false
has_legs (_ ∷ _) = true

-- A request that a restart can read: exact texts, a phase, a finite price and legs with positive
-- quantities.
unfoldable pub is_exact_request : BrokerOrderRequest → ℤ → Bool
is_exact_request r expected_quantity =
    is_exact r.client_order_id
    && is_exact r.phase
    && is_order_phase r.phase
    && is_exact r.permit_id
    && is_exact r.open_permit_id
    && is_exact r.event_run_id
    && is_exact r.reservation_id
    && is_exact r.correlation_sha256
    && is_exact r.policy_sha256
    && is_exact r.snapshot_sha256
    && is_exact r.account_id
    && is_exact r.account_class
    && is_exact r.order_class
    && is_positive expected_quantity
    && is_finite r.limit_price
    && has_legs r.legs
    && all is_exact_leg r.legs

exact_text_lem : (t : Text) → is_exact t ≡ true → exact_text (some (string t)) ≡ ok t
unfolding exact_text
exact_text_lem t h = ground arith

positive_quantity_lem : (n : ℤ) → is_positive n ≡ true → positive_quantity (some (number n)) ≡ ok n
unfolding positive_quantity
positive_quantity_lem (pos n) h = ground arith
positive_quantity_lem (negsuc n) h = cc

finite_price_lem : (d : Decimal) → is_finite d ≡ true → finite_price (some d) ≡ ok d
unfolding finite_price
finite_price_lem (finite z) h = refl
finite_price_lem non_finite h = cc

leg_of_lem :
    (leg : BrokerOptionLeg) → is_exact_leg leg ≡ true → leg_of (object (leg_terms leg)) ≡ ok leg
unfolding leg_of leg_terms get same
leg_of_lem leg h =
    rw
      (
        positive_quantity_lem leg.quantity (ground arith),
        exact_text_lem leg.symbol (ground arith),
        exact_text_lem leg.side (ground arith),
        exact_text_lem leg.position_intent (ground arith),
      )
      refl

legs_of_lem :
    (legs : List BrokerOptionLeg)
    → all is_exact_leg legs ≡ true
    → legs_of (leg_items legs) ≡ ok legs
unfolding legs_of leg_items
legs_of_lem [] h = refl
legs_of_lem (leg ∷ rest) h =
    let (this, others) = and_split (is_exact_leg leg) (all is_exact_leg rest) h in
    rw (leg_of_lem leg this, legs_of_lem rest others) refl

legs_field_lem :
    (legs : List BrokerOptionLeg)
    → has_legs legs ≡ true
    → all is_exact_leg legs ≡ true
    → legs_field (some (array (leg_items legs))) ≡ ok legs
unfolding legs_field leg_items
legs_field_lem [] some_leg h = cc
legs_field_lem (leg ∷ rest) some_leg h = legs_of_lem (leg ∷ rest) h

module _ (price_text : Decimal → Text) (price_of : Text → Option Decimal) where
  -- The stored payload of an order request is read back as that request and its quantity, where the
  -- request's texts are neither blank nor have white space at their ends, its phase is `OPEN` or
  -- `CLOSE`, its price is finite, its quantity is positive, and it has legs, each with a positive
  -- quantity. It is assumed that a finite price is written without white space and read back.
  pub parse_broker_order_request_payload_lem :
      ((price : Decimal) → is_finite price ≡ true → is_exact (price_text price) ≡ true)
      → ((price : Decimal) → is_finite price ≡ true → price_of (price_text price) ≡ some price)
      → (r : BrokerOrderRequest) (expected_quantity : ℤ)
      → is_exact_request r expected_quantity ≡ true
      → parse_broker_order_request_payload price_text price_of
          (broker_order_request_payload price_text price_of r expected_quantity)
        ≡ ok (r, expected_quantity)
  unfolding parse_broker_order_request_payload broker_order_request_payload is_exact_request get
      same
  parse_broker_order_request_payload_lem exact_price read_back r expected_quantity h =
      let is_finite_price : is_finite r.limit_price ≡ true = ground arith in
      let phase : is_order_phase r.phase ≡ true = ground arith in
      rw
        (
          exact_text_lem r.phase (ground arith),
          phase,
          positive_quantity_lem expected_quantity (ground arith),
          exact_text_lem (price_text r.limit_price) (exact_price r.limit_price is_finite_price),
          read_back r.limit_price is_finite_price,
          finite_price_lem r.limit_price is_finite_price,
          legs_field_lem r.legs (ground arith) (ground arith),
          exact_text_lem r.client_order_id (ground arith),
          exact_text_lem r.permit_id (ground arith),
          exact_text_lem r.open_permit_id (ground arith),
          exact_text_lem r.event_run_id (ground arith),
          exact_text_lem r.reservation_id (ground arith),
          exact_text_lem r.correlation_sha256 (ground arith),
          exact_text_lem r.policy_sha256 (ground arith),
          exact_text_lem r.snapshot_sha256 (ground arith),
          exact_text_lem r.account_id (ground arith),
          exact_text_lem r.account_class (ground arith),
          exact_text_lem r.order_class (ground arith),
        )
        refl
