-- ===== src/Tests/Policy.antt =====
-- The risk policy's theorems at concrete inputs.
use esscher_market.Base.{[], ◌≡◌, refl, ◌↔◌, true}
use esscher_market.Base.Json.{Json, string, object}
use esscher_market.Base.Text.{Text}
use esscher_market.Base.Result.{ok}
use esscher_market.Risk.Policy.{is_risk_policy, risk_policy_bytes}
use esscher_market.Risk.Policy.Parse.{Reader, parse_risk_policy}
use esscher_market.Risk.Policy.RoundTrip.{IsReader, IsSpelled, parse_risk_policy_iff}
use esscher_market.Tests.Codec.{loads, loads-dumps}
use esscher_market.Tests.Data.{sample_host}
use esscher_market.Tests.Entries.{paper_policy}

-- A reader whose `str` gives a text for a text only.
abbrev sample_text : Json → Text
sample_text (string t) = t
sample_text _ = []

abbrev pub sample_reader : Reader
sample_reader = record { loads_pairs = loads; str_of = sample_text; spelling_of = λ t. t }

pub sample_reader-IsReader : IsReader sample_host sample_reader
sample_reader-IsReader = record {
  read_back = λ fs unique flat. (fs, loads-dumps (object fs), unique, λ name. refl);
  str_text = λ t. refl;
}

paper_policy-IsSpelled : IsSpelled sample_host sample_reader paper_policy
paper_policy-IsSpelled = record {
  account_capital = record { value = refl; own = refl };
  per_event_loss_budget = record { value = refl; own = refl };
  aggregate_exposure_limit = record { value = refl; own = refl };
  daily_loss_limit = record { value = refl; own = refl };
  drawdown_limit = record { value = refl; own = refl };
  concentration_limit = record { value = refl; own = refl };
  close_only_equity_threshold = record { value = refl; own = refl };
}

parse_risk_policy_iff_example :
    (parse_risk_policy sample_host sample_reader (risk_policy_bytes sample_host paper_policy)
      ≡ ok paper_policy)
    ↔ ((risk_policy_bytes sample_host paper_policy ≡ risk_policy_bytes sample_host paper_policy)
        × (is_risk_policy paper_policy ≡ true))
parse_risk_policy_iff_example =
    parse_risk_policy_iff sample_host sample_reader sample_reader-IsReader
      (risk_policy_bytes sample_host paper_policy) paper_policy paper_policy-IsSpelled
