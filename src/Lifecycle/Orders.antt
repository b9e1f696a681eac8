-- ===== src/Lifecycle/Orders.antt =====
-- The order request that is stored before a PAPER mutation, its payload and the parser that a restart
-- reads it with (src/esscher/lifecycle/broker.py). Every error of the parser is a `ValueError`.
pub mod RoundTrip
use esscher_market.Base.{Bool, not, ◌||◌, Option, some, List, [], ◌∷◌, leb}
use esscher_market.Base.Int.{ℤ, pos, Decimal, finite}
use esscher_market.Base.Text.{Text, text, same, strip}
use esscher_market.Base.Json.{
  Json, number, string, array, object, Items, nil, cons, Fields, fields, get, is_text, is_integer,
  Host,
}
use esscher_market.Base.Result.{Result, ok, err, ◌>>=◌, ◌>>◌, raise_if}
use esscher_market.Lifecycle.Broker.{BrokerOptionLeg}

pub record BrokerOrderRequest : Type 0 where
  pub client_order_id : Text
  pub phase : Text
  pub permit_id : Text
  pub open_permit_id : Text
  pub event_run_id : Text
  pub reservation_id : Text
  pub correlation_sha256 : Text
  pub policy_sha256 : Text
  pub snapshot_sha256 : Text
  pub account_id : Text
  pub account_class : Text
  pub order_class : Text
  pub limit_price : Decimal
  pub legs : List BrokerOptionLeg

unfoldable pub leg_terms : BrokerOptionLeg → Fields
leg_terms leg = fields (
    (text "symbol", string leg.symbol)
    ∷ (text "quantity", number leg.quantity)
    ∷ (text "side", string leg.side)
    ∷ (text "position_intent", string leg.position_intent)
    ∷ [])

unfoldable pub leg_items : List BrokerOptionLeg → Items
leg_items [] = nil
leg_items (leg ∷ rest) = cons (object (leg_terms leg)) (leg_items rest)

pub data RequestFailure : Type 0 where
  invalid_request : RequestFailure

-- The local function `text`, and the same test of a leg's texts.
unfoldable pub exact_text : Option Json → Result RequestFailure Text
exact_text (some (string t)) =
    raise_if (same (strip t) [] || not (same t (strip t))) invalid_request >> ok t
exact_text _ = err invalid_request

unfoldable pub positive_quantity : Option Json → Result RequestFailure ℤ
positive_quantity (some (number (pos n))) = raise_if (leb n 0) invalid_request >> ok (pos n)
positive_quantity _ = err invalid_request

unfoldable pub leg_of : Json → Result RequestFailure BrokerOptionLeg
leg_of (object raw_leg) = do
  count ← positive_quantity (get (text "quantity") raw_leg)
  symbol_text ← exact_text (get (text "symbol") raw_leg)
  side_text ← exact_text (get (text "side") raw_leg)
  intent ← exact_text (get (text "position_intent") raw_leg)
  ok (record { symbol = symbol_text; quantity = count; side = side_text; position_intent = intent })
leg_of _ = err invalid_request

unfoldable pub legs_of : Items → Result RequestFailure (List BrokerOptionLeg)
unfolding leg_of
legs_of nil = ok []
legs_of (cons raw_leg rest) =
    let others = legs_of rest in leg_of raw_leg >>= λ leg. others >>= λ legs. ok (leg ∷ legs)

-- A non-empty list of legs.
unfoldable pub legs_field : Option Json → Result RequestFailure (List BrokerOptionLeg)
unfolding legs_of
legs_field (some (array (cons raw_leg rest))) = legs_of (cons raw_leg rest)
legs_field _ = err invalid_request

unfoldable pub finite_price : Option Decimal → Result RequestFailure Decimal
finite_price (some (finite price)) = ok (finite price)
finite_price _ = err invalid_request

abbrev pub is_order_phase : Text → Bool
is_order_phase phase = same phase (text "OPEN") || same phase (text "CLOSE")

-- `price_text` is `format(price.normalize(), "f")`; `price_of` is `Decimal(value)`, or `none` where it
-- raises.
module _ (price_text : Decimal → Text) (price_of : Text → Option Decimal) where
  unfoldable pub broker_order_request_payload : BrokerOrderRequest → ℤ → Fields
  unfolding leg_items
  broker_order_request_payload r expected_quantity = fields (
      (text "schema", string (text "ringdown.lifecycle_order_request"))
      ∷ (text "schema_version", number (pos 1))
      ∷ (text "client_order_id", string r.client_order_id)
      ∷ (text "phase", string r.phase)
      ∷ (text "permit_id", string r.permit_id)
      ∷ (text "open_permit_id", string r.open_permit_id)
      ∷ (text "event_run_id", string r.event_run_id)
      ∷ (text "reservation_id", string r.reservation_id)
      ∷ (text "correlation_sha256", string r.correlation_sha256)
      ∷ (text "policy_sha256", string r.policy_sha256)
      ∷ (text "snapshot_sha256", string r.snapshot_sha256)
      ∷ (text "account_id", string r.account_id)
      ∷ (text "account_class", string r.account_class)
      ∷ (text "order_class", string r.order_class)
      ∷ (text "expected_quantity", number expected_quantity)
      ∷ (text "limit_price", string (price_text r.limit_price))
      ∷ (text "legs", array (leg_items r.legs))
      ∷ [])

  unfoldable pub broker_order_request_sha256 : Host → BrokerOrderRequest → ℤ → Text
  broker_order_request_sha256 host r expected_quantity =
      host.sha256_hex (host.dumps (object (broker_order_request_payload r expected_quantity)))

  unfoldable pub parse_broker_order_request_payload :
      Fields → Result RequestFailure (BrokerOrderRequest × ℤ)
  parse_broker_order_request_payload payload = do
    raise_if (not (is_text (text "ringdown.lifecycle_order_request") (get (text "schema") payload)))
        invalid_request
    raise_if (not (is_integer (pos 1) (get (text "schema_version") payload))) invalid_request
    phase_text ← exact_text (get (text "phase") payload)
    raise_if (not (is_order_phase phase_text)) invalid_request
    expected_quantity ← positive_quantity (get (text "expected_quantity") payload)
    price ← exact_text (get (text "limit_price") payload)
    limit ← finite_price (price_of price)
    order_legs ← legs_field (get (text "legs") payload)
    client_order ← exact_text (get (text "client_order_id") payload)
    permit ← exact_text (get (text "permit_id") payload)
    open_permit ← exact_text (get (text "open_permit_id") payload)
    event ← exact_text (get (text "event_run_id") payload)
    reservation ← exact_text (get (text "reservation_id") payload)
    correlation ← exact_text (get (text "correlation_sha256") payload)
    policy ← exact_text (get (text "policy_sha256") payload)
    snapshot ← exact_text (get (text "snapshot_sha256") payload)
    account ← exact_text (get (text "account_id") payload)
    class ← exact_text (get (text "account_class") payload)
    order ← exact_text (get (text "order_class") payload)
    ok (
      record {
        client_order_id = client_order;
        phase = phase_text;
        permit_id = permit;
        open_permit_id = open_permit;
        event_run_id = event;
        reservation_id = reservation;
        correlation_sha256 = correlation;
        policy_sha256 = policy;
        snapshot_sha256 = snapshot;
        account_id = account;
        account_class = class;
        order_class = order;
        limit_price = limit;
        legs = order_legs;
      },
      expected_quantity,
    )
