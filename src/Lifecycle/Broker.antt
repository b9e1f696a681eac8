-- ===== src/Lifecycle/Broker.antt =====
-- The broker's order and position readbacks (src/esscher/lifecycle/broker.py). The status strings
-- of `BrokerOrderState` are constructors, and any other string is `other`.
use esscher_market.Base.{ℕ, Bool, true, false, List}
use esscher_market.Base.Int.{ℤ}
use esscher_market.Base.Text.{Text}

pub data BrokerOrderState : Type 0 where
  new accepted pending_new accepted_for_bidding held calculated : BrokerOrderState
  partially_filled filled canceled expired rejected : BrokerOrderState
  other : Text → BrokerOrderState

-- `status in OPEN_WORKING_STATES`.
unfoldable pub is_open_working : BrokerOrderState → Bool
is_open_working new = true
is_open_working accepted = true
is_open_working pending_new = true
is_open_working accepted_for_bidding = true
is_open_working held = true
is_open_working calculated = true
is_open_working _ = false

-- `status in OPEN_UNFILLED_TERMINAL_STATES`.
unfoldable pub is_open_unfilled_terminal : BrokerOrderState → Bool
is_open_unfilled_terminal canceled = true
is_open_unfilled_terminal expired = true
is_open_unfilled_terminal rejected = true
is_open_unfilled_terminal _ = false

pub record BrokerOptionLeg : Type 0 where
  pub symbol : Text
  pub quantity : ℤ
  pub side : Text
  pub position_intent : Text

-- Times are microseconds since a fixed epoch; prices are in the units of `Base.Int`.
pub record BrokerOrderTruth : Type 0 where
  pub order_id : Text
  pub client_order_id : Text
  pub status : BrokerOrderState
  pub filled_qty : ℤ
  pub observed_at : ℕ
  pub permit_id : Text
  pub open_permit_id : Text
  pub event_run_id : Text
  pub reservation_id : Text
  pub correlation_sha256 : Text
  pub policy_sha256 : Text
  pub snapshot_sha256 : Text
  pub account_id : Text
  pub account_class : Text
  pub order_class : Text
  pub limit_price : ℤ
  pub legs : List BrokerOptionLeg

pub record PositionTruth : Type 0 where
  pub symbol : Text
  pub qty : ℤ
  pub observed_at : ℕ
