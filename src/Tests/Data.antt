-- ===== src/Tests/Data.antt =====
-- A host and rows for the examples. The host keeps the whole text for a hash.
use esscher_market.Base.{ℕ, [], ◌∷◌, ◌++◌, ap, refl, Option, none, some}
use esscher_market.Base.Int.{pos, Decimal, finite}
use esscher_market.Base.Text.{Text, text}
use esscher_market.Base.Json.{Json, object, number, string, fields, Host, IsJson}
use esscher_market.Execution.Models.{
  OptionLeg, DebitVerticalPermit, bull_call, call, buy, sell, buy_to_open, sell_to_open,
  debit_vertical_permit_id,
}
use esscher_market.Risk.Ledger.Rows.{Candidate}
use esscher_market.Risk.Ledger.Authorize.{Request, Order}
use esscher_market.Tests.Codec.{dumps, loads, loads-dumps, dumps_injective}

-- Whole numbers, and texts of one character for their code point.
abbrev pub number_of : Json → Option Decimal
number_of (number n) = some (finite n)
number_of (string (n ∷ [])) = some (finite (pos n))
number_of _ = none

abbrev pub sample_host : Host
sample_host = record {
  dumps = dumps;
  loads = loads;
  sha256_hex = λ t. t;
  isoformat_z = λ n. n ∷ [];
  isoformat = λ n. n ∷ [];
  decimal_str = λ n. n ∷ [];
  decimal_fixed = λ n. n ∷ [];
  decimal_of = number_of;
}

pub sample_host-IsJson : IsJson sample_host
sample_host-IsJson = record {
  reload = λ fs. (fs, loads-dumps (object fs), refl);
  compose = λ before after name v w same_text.
      ap (λ x. dumps (object (fields (before ++ (name, x) ∷ after))))
        (dumps_injective v w same_text);
}

-- Sixty-four zeros.
abbrev pub digest : Text
digest = text "0000000000000000000000000000000000000000000000000000000000000000"

abbrev pub event_one : Text
event_one = text "event-1"

abbrev pub spy_candidate : Candidate
spy_candidate = record {
  event_id = event_one;
  candidate_id = text "candidate-1";
  policy_sha256 = digest;
  decision_sha256 = digest;
  expression_sha256 = digest;
  evidence_mode = text "SYNTHETIC";
  created_at = 5;
}

abbrev leg : Text → ℕ → OptionLeg
leg symbol strike = record {
  symbol = symbol;
  underlying = text "SPY";
  expiry = text "2026-09-18";
  option_type = call;
  strike = strike;
  side = buy;
  position_intent = buy_to_open;
  ratio_qty = pos 1;
}

abbrev pub unnamed_permit : DebitVerticalPermit
unnamed_permit = record {
  permit_id = text "unnamed";
  event_run_id = event_one;
  policy_sha256 = digest;
  snapshot_sha256 = digest;
  decision_sha256 = digest;
  evidence_sha256 = digest;
  protocol_sha256 = digest;
  execution_protocol_sha256 = digest;
  issued_at = 5;
  expires_at = 90;
  vertical_type = bull_call;
  quantity = pos 1;
  limit_price = 3;
  long_leg = leg (text "SPY260918C00500000") 500;
  short_leg = record (leg (text "SPY260918C00510000") 510) {
    side = sell;
    position_intent = sell_to_open;
  };
}

-- A permit for the event under the identifier that the host computes for it.
abbrev pub spy_permit : DebitVerticalPermit
spy_permit = record unnamed_permit {
  permit_id = debit_vertical_permit_id sample_host unnamed_permit;
}

-- An authorization of 300 units under an aggregate limit of 500.
abbrev pub spy_request : Request
spy_request = record {
  event_id = event_one;
  underlying = text "SPY";
  candidate_id = text "candidate-1";
  risk_policy_sha256 = digest;
  decision_sha256 = digest;
  expression_sha256 = digest;
  amount = finite (pos 300);
  aggregate_limit = finite (pos 500);
  max_open_expressions = pos 2;
  max_entries_per_day = pos 2;
}

abbrev pub spy_order : Order
spy_order = record {
  event = event_one;
  symbol = text "SPY";
  candidate = text "candidate-1";
  policy = digest;
  decision = digest;
  expression = digest;
  exposure = 300;
  aggregate = 500;
  max_open = 2;
  max_entries = 2;
  issued_permit_id = text "permit-1";
  permit_sha256 = digest;
  created = 7;
}
