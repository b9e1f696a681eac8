-- ===== src/Tests/Orders.antt =====
-- The order requests' theorem at a concrete request.
use esscher_market.Base.{Option, none, some, [], ◌∷◌, true, ◌≡◌, refl}
use esscher_market.Base.Int.{pos, negsuc, Decimal, finite, non_finite}
use esscher_market.Base.Text.{Text, text, same, strip}
use esscher_market.Base.Result.{ok}
use esscher_market.Risk.Policy.Names.{same_refl}
use esscher_market.Lifecycle.Broker.{BrokerOptionLeg}
use esscher_market.Lifecycle.Orders.{
  BrokerOrderRequest, broker_order_request_payload, parse_broker_order_request_payload,
}
use esscher_market.Lifecycle.Orders.RoundTrip.{
  is_exact, is_finite, is_exact_request, parse_broker_order_request_payload_lem,
}
use esscher_market.Tests.Data.{digest}

-- A price in tags around its number.
abbrev sample_price_text : Decimal → Text
sample_price_text (finite (pos n)) = b'p' ∷ n ∷ b'x' ∷ []
sample_price_text (finite (negsuc n)) = b'm' ∷ n ∷ b'x' ∷ b'x' ∷ []
sample_price_text non_finite = []

abbrev sample_price_of : Text → Option Decimal
sample_price_of (_ ∷ n ∷ _ ∷ []) = some (finite (pos n))
sample_price_of (_ ∷ n ∷ _ ∷ _ ∷ []) = some (finite (negsuc n))
sample_price_of _ = none

sample_price_exact :
    (price : Decimal) → is_finite price ≡ true → is_exact (sample_price_text price) ≡ true
unfolding same strip
sample_price_exact (finite (pos n)) h = same_refl (b'p' ∷ n ∷ b'x' ∷ [])
sample_price_exact (finite (negsuc n)) h = same_refl (b'm' ∷ n ∷ b'x' ∷ b'x' ∷ [])
sample_price_exact non_finite h = cc

sample_price_read_back :
    (price : Decimal)
    → is_finite price ≡ true
    → sample_price_of (sample_price_text price) ≡ some price
sample_price_read_back (finite (pos n)) h = refl
sample_price_read_back (finite (negsuc n)) h = refl
sample_price_read_back non_finite h = cc

abbrev spy_leg : BrokerOptionLeg
spy_leg = record {
  symbol = text "SPY260116C00500000";
  quantity = pos 1;
  side = text "BUY";
  position_intent = text "BUY_TO_OPEN";
}

abbrev spy_order : BrokerOrderRequest
spy_order = record {
  client_order_id = text "order-1";
  phase = text "OPEN";
  permit_id = text "permit-1";
  open_permit_id = text "permit-1";
  event_run_id = text "event-1";
  reservation_id = text "reservation-1";
  correlation_sha256 = digest;
  policy_sha256 = digest;
  snapshot_sha256 = digest;
  account_id = text "paper-1";
  account_class = text "PAPER";
  order_class = text "MULTI_LEG";
  limit_price = finite (pos 210);
  legs = spy_leg ∷ [];
}

spy_order_exact : is_exact_request spy_order (pos 1) ≡ true
unfolding is_exact_request same strip
spy_order_exact = refl

parse_broker_order_request_payload_lem_example :
    parse_broker_order_request_payload sample_price_text sample_price_of
      (broker_order_request_payload sample_price_text sample_price_of spy_order (pos 1))
    ≡ ok (spy_order, pos 1)
parse_broker_order_request_payload_lem_example =
    parse_broker_order_request_payload_lem sample_price_text sample_price_of sample_price_exact
      sample_price_read_back spy_order (pos 1) spy_order_exact
