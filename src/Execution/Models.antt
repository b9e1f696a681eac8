-- ===== src/Execution/Models.antt =====
-- The opening permit of one debit vertical (src/esscher/execution/models.py) and its identity
-- (src/esscher/contracts/execution_policy.py). Prices are non-negative decimals in the units of
-- `Base.Int`; a date is its ISO text. `_bridge_authorization`, which only restricts who may call
-- the constructor, is left out.
pub mod Bounds
use esscher_market.Base.{
  ℕ, ◌+◌, ◌-◌, ◌*◌, Bool, true, false, not, ◌&&◌, ◌||◌, List, [], ◌∷◌, ◌++◌, ltb, leb, ◌==◌,
  if◌then◌else◌, take,
}
use esscher_market.Base.Int.{ℤ, pos, eq_ℤ}
use esscher_market.Base.Text.{Text, text, same, strip}
use esscher_market.Base.Json.{Json, string, number, array, object, nil, cons, fields, Host}
use esscher_market.Base.Result.{Result, ok, err, ◌>>=◌, ◌>>◌, raise_if}
use esscher_market.Risk.Checks.{is_sha256}

pub data VerticalType : Type 0 where
  bull_call bear_put : VerticalType

pub data OptionType : Type 0 where
  call put : OptionType

pub data OptionSide : Type 0 where
  buy sell : OptionSide

pub data PositionIntent : Type 0 where
  buy_to_open buy_to_close sell_to_open sell_to_close : PositionIntent

abbrev pub vertical_text : VerticalType → Text
vertical_text bull_call = text "BULL_CALL"
vertical_text bear_put = text "BEAR_PUT"

abbrev pub option_text : OptionType → Text
option_text call = text "CALL"
option_text put = text "PUT"

abbrev pub side_text : OptionSide → Text
side_text buy = text "buy"
side_text sell = text "sell"

abbrev pub intent_text : PositionIntent → Text
intent_text buy_to_open = text "buy_to_open"
intent_text buy_to_close = text "buy_to_close"
intent_text sell_to_open = text "sell_to_open"
intent_text sell_to_close = text "sell_to_close"

pub record OptionLeg : Type 0 where
  pub symbol : Text
  pub underlying : Text
  pub expiry : Text
  pub option_type : OptionType
  pub strike : ℕ
  pub side : OptionSide
  pub position_intent : PositionIntent
  pub ratio_qty : ℤ

pub record DebitVerticalPermit : Type 0 where
  pub permit_id : Text
  pub event_run_id : Text
  pub policy_sha256 : Text
  pub snapshot_sha256 : Text
  pub decision_sha256 : Text
  pub evidence_sha256 : Text
  pub protocol_sha256 : Text
  pub execution_protocol_sha256 : Text
  pub issued_at : ℕ
  pub expires_at : ℕ
  pub vertical_type : VerticalType
  pub quantity : ℤ
  pub limit_price : ℕ
  pub long_leg : OptionLeg
  pub short_leg : OptionLeg

-- `abs(a - b)`.
abbrev pub distance : ℕ → ℕ → ℕ
distance a b = (a - b) + (b - a)

-- The property `underlying`.
abbrev pub permit_underlying : DebitVerticalPermit → Text
permit_underlying p = p.long_leg.underlying

-- The property `maximum_loss`.
unfoldable pub maximum_loss : DebitVerticalPermit → ℕ
maximum_loss p = p.limit_price * 100

same_type : OptionType → OptionType → Bool
same_type call call = true
same_type put put = true
same_type _ _ = false

is_buy_to_open : OptionSide → PositionIntent → Bool
is_buy_to_open buy buy_to_open = true
is_buy_to_open _ _ = false

is_sell_to_open : OptionSide → PositionIntent → Bool
is_sell_to_open sell sell_to_open = true
is_sell_to_open _ _ = false

-- The branch of `__post_init__` on the vertical type: the right type, strikes in order.
is_ordered : VerticalType → OptionType → ℕ → ℕ → Bool
is_ordered bull_call call long short = ltb long short
is_ordered bear_put put long short = ltb short long
is_ordered _ _ _ _ = false

-- The identity checks of `__post_init__`.
has_identity : DebitVerticalPermit → Bool
has_identity p =
    not (same (strip p.permit_id) [])
    && not (same (strip p.event_run_id) [])
    && is_sha256 p.policy_sha256
    && is_sha256 p.snapshot_sha256
    && is_sha256 p.decision_sha256
    && is_sha256 p.evidence_sha256
    && is_sha256 p.protocol_sha256
    && is_sha256 p.execution_protocol_sha256

-- The checks of `__post_init__` on the legs.
has_legs : DebitVerticalPermit → Bool
unfolding same_type is_buy_to_open is_sell_to_open is_ordered
has_legs p =
    is_buy_to_open p.long_leg.side p.long_leg.position_intent
    && is_sell_to_open p.short_leg.side p.short_leg.position_intent
    && same p.long_leg.underlying p.short_leg.underlying
    && same p.long_leg.expiry p.short_leg.expiry
    && same_type p.long_leg.option_type p.short_leg.option_type
    && is_ordered p.vertical_type p.long_leg.option_type p.long_leg.strike p.short_leg.strike

-- The checks of `__post_init__` on time, quantity and price.
has_terms : DebitVerticalPermit → Bool
has_terms p =
    not (leb p.expires_at p.issued_at)
    && eq_ℤ p.quantity (pos 1)
    && not (leb p.limit_price 0)
    && not (leb (distance p.short_leg.strike p.long_leg.strike) p.limit_price)

-- `DebitVerticalPermit.__post_init__`, true where it raises nothing. (`run_mode` and `data_class`
-- have one legal value each; that a price has at most two decimal places is left to the unit.)
unfoldable pub is_debit_vertical_permit : DebitVerticalPermit → Bool
unfolding has_identity has_legs has_terms
is_debit_vertical_permit p = has_identity p && (has_legs p && has_terms p)

module _ (host : Host) where
  open host use {dumps, sha256_hex, isoformat, decimal_fixed}

  leg_payload : OptionLeg → Json
  leg_payload leg = object (
      fields (
        (text "symbol", string leg.symbol)
        ∷ (text "underlying", string leg.underlying)
        ∷ (text "expiry", string leg.expiry)
        ∷ (text "option_type", string (option_text leg.option_type))
        ∷ (text "strike", string (decimal_fixed leg.strike))
        ∷ (text "side", string (side_text leg.side))
        ∷ (text "position_intent", string (intent_text leg.position_intent))
        ∷ (text "ratio_qty", number leg.ratio_qty)
        ∷ []))

  -- `debit_vertical_permit_authorization_payload`: every term but the permit's own identifier.
  authorization_fields : DebitVerticalPermit → List (Text × Json)
  unfolding leg_payload
  authorization_fields p =
      (text "event_run_id", string p.event_run_id)
      ∷ (text "decision_sha256", string p.decision_sha256)
      ∷ (text "evidence_sha256", string p.evidence_sha256)
      ∷ (text "input_snapshot_sha256", string p.snapshot_sha256)
      ∷ (text "protocol_sha256", string p.protocol_sha256)
      ∷ (text "execution_protocol_sha256", string p.execution_protocol_sha256)
      ∷ (text "policy_sha256", string p.policy_sha256)
      ∷ (text "issued_at", string (isoformat p.issued_at))
      ∷ (text "expires_at", string (isoformat p.expires_at))
      ∷ (text "vertical_type", string (vertical_text p.vertical_type))
      ∷ (text "quantity", number p.quantity)
      ∷ (text "limit_price", string (decimal_fixed p.limit_price))
      ∷ (text "run_mode", string (text "PAPER"))
      ∷ (text "data_class", string (text "INDICATIVE_DATA"))
      ∷ (text "legs", array (cons (leg_payload p.long_leg) (cons (leg_payload p.short_leg) nil)))
      ∷ (text "schema", string (text "ringdown.paper_execution_permit"))
      ∷ (text "schema_version", number (pos 1))
      ∷ []

  -- `paper_execution_permit_id`.
  unfoldable pub paper_execution_permit_id : Text → Text
  paper_execution_permit_id authorization_sha256 =
      text "rd-permit-"
      ++ take 32 (
          sha256_hex (
            dumps (
              object (
                fields (
                  (text "schema", string (text "ringdown.paper_execution_permit_identity"))
                  ∷ (text "schema_version", number (pos 1))
                  ∷ (text "authorization_sha256", string authorization_sha256)
                  ∷ [])))))

  unfoldable pub debit_vertical_permit_id : DebitVerticalPermit → Text
  unfolding authorization_fields paper_execution_permit_id
  debit_vertical_permit_id p =
      paper_execution_permit_id (sha256_hex (dumps (object (fields (authorization_fields p)))))

  unfoldable pub debit_vertical_permit_bytes : DebitVerticalPermit → Text
  unfolding authorization_fields
  debit_vertical_permit_bytes p =
      dumps (object (fields ((text "permit_id", string p.permit_id) ∷ authorization_fields p)))
