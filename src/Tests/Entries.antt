-- ===== src/Tests/Entries.antt =====
-- A policy, an expression, a permit and broker truth for the kernel's examples.
use esscher_market.Base.{ℕ, [], ◌∷◌, ◌++◌, none, some, take}
use esscher_market.Base.Int.{pos}
use esscher_market.Base.Text.{Text, text}
use esscher_market.Base.Json.{Host, Json, string, number, object, Fields, fields}
use esscher_market.Execution.Expression.{debit_vertical, CompiledExpression}
use esscher_market.Execution.Models.{DebitVerticalPermit}
use esscher_market.Risk.Reasons.{active}
use esscher_market.Risk.Policy.{RiskPolicy}
use esscher_market.Risk.Snapshots.{AccountSnapshot}
use esscher_market.Risk.Ledger.Rows.{Ledger, empty}
use esscher_market.Risk.Ledger.Reservations.{reservation_id_of}
use esscher_market.Risk.Kernel.Truth.{Truth, read}
use esscher_market.Risk.Kernel.Entry.{Entry, RiskApproval}
use esscher_market.Tests.Data.{sample_host, digest, event_one, spy_candidate, unnamed_permit}

-- A host that hashes every text to sixty-four zeros.
abbrev pub zero_host : Host
zero_host = record sample_host { sha256_hex = λ _. digest }

abbrev pub paper_policy : RiskPolicy
paper_policy = record {
  policy_id = text "paper";
  version = text "1";
  run_mode = text "PAPER";
  account_capital = 10000;
  per_event_loss_budget = 400;
  aggregate_exposure_limit = 500;
  daily_loss_limit = 100;
  drawdown_limit = 200;
  concentration_limit = 1000;
  max_entries_per_day = 2;
  max_open_expressions = 2;
  close_only_equity_threshold = 5000;
  truth_max_age_seconds = 60;
  constants_source_sha256 = digest;
  spellings = record {
    account_capital = 10000 ∷ [];
    per_event_loss_budget = 400 ∷ [];
    aggregate_exposure_limit = 500 ∷ [];
    daily_loss_limit = 100 ∷ [];
    drawdown_limit = 200 ∷ [];
    concentration_limit = 1000 ∷ [];
    close_only_equity_threshold = 5000 ∷ [];
  };
}

abbrev pub zero_permit : DebitVerticalPermit
zero_permit = record unnamed_permit { permit_id = text "rd-permit-" ++ take 32 digest }

abbrev pub leg_block : Text → ℕ → Json
leg_block symbol strike = object (
    fields (
      (text "symbol", string symbol)
      ∷ (text "option_type", string (text "CALL"))
      ∷ (text "strike", string (strike ∷ []))
      ∷ []))

abbrev pub vertical_fields : Fields
vertical_fields = fields (
    (text "underlying", string (text "SPY"))
    ∷ (text "vertical_type", string (text "BULL_CALL"))
    ∷ (text "quantity", number (pos 1))
    ∷ (text "limit_price", string (3 ∷ []))
    ∷ (text "long_leg", leg_block (text "SPY260918C00500000") 500)
    ∷ (text "short_leg", leg_block (text "SPY260918C00510000") 510)
    ∷ (text "maximum_loss", number (pos 300))
    ∷ [])

abbrev pub spy_expression : CompiledExpression
spy_expression = record {
  expression_kind = debit_vertical;
  event_id = event_one;
  decision_sha256 = digest;
  snapshot_sha256 = digest;
  policy_sha256 = digest;
  gate_d_report_sha256 = digest;
  compiled_at = 4;
  shares_block = none;
  long_option_block = none;
  debit_vertical_block = some vertical_fields;
}

abbrev pub spy_entry : Entry
spy_entry = record {
  event_id = event_one;
  underlying = text "SPY";
  candidate_id = text "candidate-1";
  compiled = spy_expression;
  permit = zero_permit;
}

abbrev pub spy_account : AccountSnapshot
spy_account = record {
  equity = pos 10000;
  buying_power = pos 5000;
  currency = text "USD";
  observed_at = 6;
  cash = none;
}

-- Fresh truth with nothing open.
abbrev pub flat_truth : Truth
flat_truth = record {
  broker_clock = read 8;
  account = read (some spy_account);
  positions = read [];
  orders = read [];
}

-- The candidate frozen and entries allowed.
abbrev pub active_ledger : Ledger
active_ledger = record empty {
  candidates = spy_candidate ∷ [];
  control = some (record { state = active; reason = none; updated_at = 5 });
}

abbrev pub spy_approval : RiskApproval
spy_approval = record {
  event_id = event_one;
  candidate_id = text "candidate-1";
  reservation_id = reservation_id_of event_one;
  permit_id = zero_permit.permit_id;
  permit_sha256 = digest;
  exposure = 300;
  control_state = active;
}
