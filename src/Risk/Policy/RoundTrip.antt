-- ===== src/Risk/Policy/RoundTrip.antt =====
-- Risk-policy bytes and their strict parser (src/esscher/risk/policy.py).
use esscher_market.Base.{ℕ, Bool, true, false, not, some, ltb, ◌&&◌, arith, ◌≡◌, ◌↔◌, refl, ap, sym}
use esscher_market.Base.Int.{pos, finite}
use esscher_market.Base.Text.{Text, text, same, same_iff}
use esscher_market.Base.Json.{
  Json, array, end, field, string, number, object, Fields, get, is_text, is_integer, Host,
}
use esscher_market.Base.Result.{ok, ◌>>◌, raise_if, Yields, Yields-bind}
use esscher_market.Risk.Policy.{RiskPolicy, is_risk_policy, risk_policy_payload, risk_policy_bytes}
use esscher_market.Risk.Policy.Parse.{
  PolicyFailure, Reader, names, is_unique_fields, has_policy_fields, positive_int_field,
  positive_decimal, str_field, canonical_policy, policy_of, parse_risk_policy,
}
use esscher_market.Risk.Policy.Names.{same_refl, same_names_lem}

-- A value that is neither a list nor a dict.
abbrev is_scalar : Json → Bool
is_scalar (array _) = false
is_scalar (object _) = false
is_scalar _ = true

unfoldable pub is_flat_object : Fields → Bool
is_flat_object end = true
is_flat_object (field _ v rest) = is_scalar v && is_flat_object rest

-- What the parsers of flat objects rely on: `json.loads` of what `json.dumps` wrote for a dict without
-- lists or dicts in it gives an object with the dict's values, each name once, in whatever order; and
-- `str` of a text is that text.
pub record IsReader (host : Host) (reader : Reader) : Type 0 where
  pub read_back :
      (fs : Fields)
      → is_unique_fields fs ≡ true
      → is_flat_object fs ≡ true
      → (gs : Fields) × (reader.loads_pairs (host.dumps (object fs)) ≡ some (object gs))
        × (is_unique_fields gs ≡ true)
        × ((name : Text) → get name gs ≡ get name fs)
  pub str_text : (t : Text) → reader.str_of (string t) ≡ t

-- `t` is `str` of a decimal of the value `n`.
pub record IsSpelling (host : Host) (reader : Reader) (n : ℕ) (t : Text) : Type 0 where
  pub value : host.decimal_of (string t) ≡ some (finite (pos n))
  pub own : reader.spelling_of t ≡ t

-- The decimals of a policy: each spelling is `str` of a decimal of the value beside it.
pub record IsSpelled (host : Host) (reader : Reader) (p : RiskPolicy) : Type 0 where
  pub account_capital : IsSpelling host reader p.account_capital p.spellings.account_capital
  pub per_event_loss_budget :
      IsSpelling host reader p.per_event_loss_budget p.spellings.per_event_loss_budget
  pub aggregate_exposure_limit :
      IsSpelling host reader p.aggregate_exposure_limit p.spellings.aggregate_exposure_limit
  pub daily_loss_limit : IsSpelling host reader p.daily_loss_limit p.spellings.daily_loss_limit
  pub drawdown_limit : IsSpelling host reader p.drawdown_limit p.spellings.drawdown_limit
  pub concentration_limit :
      IsSpelling host reader p.concentration_limit p.spellings.concentration_limit
  pub close_only_equity_threshold :
      IsSpelling host reader p.close_only_equity_threshold p.spellings.close_only_equity_threshold

-- What `RiskPolicy.__post_init__` lets through.
record IsPositive (p : RiskPolicy) : Type 0 where
  paper : p.run_mode ≡ text "PAPER"
  account_capital : ltb 0 p.account_capital ≡ true
  per_event_loss_budget : ltb 0 p.per_event_loss_budget ≡ true
  aggregate_exposure_limit : ltb 0 p.aggregate_exposure_limit ≡ true
  daily_loss_limit : ltb 0 p.daily_loss_limit ≡ true
  drawdown_limit : ltb 0 p.drawdown_limit ≡ true
  concentration_limit : ltb 0 p.concentration_limit ≡ true
  close_only_equity_threshold : ltb 0 p.close_only_equity_threshold ≡ true
  max_entries_per_day : ltb 0 p.max_entries_per_day ≡ true
  max_open_expressions : ltb 0 p.max_open_expressions ≡ true
  truth_max_age_seconds : ltb 0 p.truth_max_age_seconds ≡ true

policy-IsPositive : (p : RiskPolicy) → is_risk_policy p ≡ true → IsPositive p
unfolding is_risk_policy
policy-IsPositive p h = record {
  paper = (same_iff p.run_mode (text "PAPER")).0 (ground arith);
  account_capital = ground arith;
  per_event_loss_budget = ground arith;
  aggregate_exposure_limit = ground arith;
  daily_loss_limit = ground arith;
  drawdown_limit = ground arith;
  concentration_limit = ground arith;
  close_only_equity_threshold = ground arith;
  max_entries_per_day = ground arith;
  max_open_expressions = ground arith;
  truth_max_age_seconds = ground arith;
}

module _ (host : Host) (reader : Reader) (reads : IsReader host reader) where
  decimal_field_lem :
      (n : ℕ) (t : Text)
      → IsSpelling host reader n t
      → ltb 0 n ≡ true
      → positive_decimal host reader (some (string t)) ≡ ok (n, t)
  unfolding positive_decimal
  decimal_field_lem n t spelled h = rw (spelled.value, spelled.own) (ground arith)

  int_field_lem : (n : ℕ) → ltb 0 n ≡ true → positive_int_field (some (number (pos n))) ≡ ok n
  unfolding positive_int_field
  int_field_lem n h = ground arith

  payload-IsUnique : (p : RiskPolicy) → is_unique_fields (risk_policy_payload host p) ≡ true
  unfolding risk_policy_payload is_unique_fields names same
  payload-IsUnique p = refl

  payload-is_flat_object : (p : RiskPolicy) → is_flat_object (risk_policy_payload host p) ≡ true
  unfolding risk_policy_payload is_flat_object
  payload-is_flat_object p = refl

  canonical_lem :
      (p : RiskPolicy)
      → is_risk_policy p ≡ true
      → canonical_policy host reader (risk_policy_bytes host p) p ≡ ok p
  unfolding canonical_policy
  canonical_lem p h = rw (h, same_refl (risk_policy_bytes host p)) refl

  -- An object with the payload's values has the fields of a policy.
  payload-fields :
      (p : RiskPolicy) (gs : Fields)
      → ((name : Text) → get name gs ≡ get name (risk_policy_payload host p))
      → has_policy_fields gs ≡ true
  unfolding has_policy_fields risk_policy_payload names
  payload-fields p gs same_values = same_names_lem (risk_policy_payload host p) gs same_values

  -- The parsed values of an object with the payload's values.
  module _ (p : RiskPolicy) (gs : Fields)
      (same_values : (name : Text) → get name gs ≡ get name (risk_policy_payload host p)) where
    decimal_at :
        (name : Text) (n : ℕ) (t : Text)
        → get name (risk_policy_payload host p) ≡ some (string t)
        → IsSpelling host reader n t
        → ltb 0 n ≡ true
        → positive_decimal host reader (get name gs) ≡ ok (n, t)
    decimal_at name n t h spelled positive =
        rw (same_values name, h) (decimal_field_lem n t spelled positive)

    int_at :
        (name : Text) (n : ℕ)
        → get name (risk_policy_payload host p) ≡ some (number (pos n))
        → ltb 0 n ≡ true
        → positive_int_field (get name gs) ≡ ok n
    int_at name n h positive = rw (same_values name, h) (int_field_lem n positive)

    str_at :
        (name t : Text)
        → get name (risk_policy_payload host p) ≡ some (string t)
        → str_field host reader (get name gs) ≡ t
    str_at name t h = rw (same_values name, h) (reads.str_text t)

    version_at : is_integer (pos 1) (get (text "schema_version") gs) ≡ true
    unfolding risk_policy_payload get same
    version_at = rw (same_values (text "schema_version")) refl

    text_at :
        (name t : Text)
        → get name (risk_policy_payload host p) ≡ some (string t)
        → is_text t (get name gs) ≡ true
    text_at name t h = rw (same_values name, h) (same_refl t)

    policy_of_lem :
        IsSpelled host reader p
        → is_risk_policy p ≡ true
        → policy_of host reader (risk_policy_bytes host p) gs ≡ ok p
    unfolding policy_of risk_policy_payload get same
    policy_of_lem spelled h =
        let valid = policy-IsPositive p h in
        rw
          (
            payload-fields p gs same_values,
            text_at (text "schema") (text "esscher.paper_account_risk_policy") refl,
            version_at,
            text_at (text "run_mode") (text "PAPER") (ap (λ t. some (string t)) valid.paper),
            decimal_at (text "account_capital") p.account_capital p.spellings.account_capital refl
                spelled.account_capital valid.account_capital,
            decimal_at (text "per_event_loss_budget") p.per_event_loss_budget
                p.spellings.per_event_loss_budget refl spelled.per_event_loss_budget
                valid.per_event_loss_budget,
            decimal_at (text "aggregate_exposure_limit") p.aggregate_exposure_limit
                p.spellings.aggregate_exposure_limit refl spelled.aggregate_exposure_limit
                valid.aggregate_exposure_limit,
            decimal_at (text "daily_loss_limit") p.daily_loss_limit p.spellings.daily_loss_limit
                refl spelled.daily_loss_limit valid.daily_loss_limit,
            decimal_at (text "drawdown_limit") p.drawdown_limit p.spellings.drawdown_limit refl
                spelled.drawdown_limit valid.drawdown_limit,
            decimal_at (text "concentration_limit") p.concentration_limit
                p.spellings.concentration_limit refl spelled.concentration_limit
                valid.concentration_limit,
            decimal_at (text "close_only_equity_threshold") p.close_only_equity_threshold
                p.spellings.close_only_equity_threshold refl spelled.close_only_equity_threshold
                valid.close_only_equity_threshold,
            int_at (text "max_entries_per_day") p.max_entries_per_day refl
                valid.max_entries_per_day,
            int_at (text "max_open_expressions") p.max_open_expressions refl
                valid.max_open_expressions,
            int_at (text "truth_max_age_seconds") p.truth_max_age_seconds refl
                valid.truth_max_age_seconds,
            str_at (text "policy_id") p.policy_id refl,
            str_at (text "version") p.version refl,
            str_at (text "run_mode") p.run_mode refl,
            str_at (text "constants_source_sha256") p.constants_source_sha256 refl,
            canonical_lem p h,
          )
          refl

-- Two tests in front of a value.
guarded_ok :
    {A : Type 0} (b c : Bool) (e f : PolicyFailure) (p q : A)
    → (raise_if b e >> (raise_if c f >> ok p)) ≡ ok q
    → (b ≡ false) × (c ≡ false) × (p ≡ q)
guarded_ok true c e f p q h = absurd cc
guarded_ok false true e f p q h = absurd cc
guarded_ok false false e f p q h = (refl, refl, cc)

module _ (host : Host) (reader : Reader) where
  abbrev IsCanonical : Text → RiskPolicy → Type 0
  IsCanonical raw p = (raw ≡ risk_policy_bytes host p) × (is_risk_policy p ≡ true)

  canonical_policy-Yields :
      (raw : Text) (p : RiskPolicy) → Yields (IsCanonical raw) (canonical_policy host reader raw p)
  unfolding canonical_policy
  canonical_policy-Yields raw p = record {
    at = λ q h.
        let (valid, canonical, own) =
          guarded_ok (not (is_risk_policy p)) (not (same (risk_policy_bytes host p) raw)) _ _ p q
            h in
        let bytes = (same_iff (risk_policy_bytes host p) raw).0 (ground arith) in
        rw (← own) (sym bytes, ground arith);
  }

  parse-Yields : (raw : Text) → Yields (IsCanonical raw) (parse_risk_policy host reader raw)
  unfolding parse_risk_policy policy_of
  parse-Yields raw = search (Yields-bind, canonical_policy-Yields) depth 40

  -- The strict parser returns a policy exactly for that policy's own canonical bytes, and only where
  -- the policy passes the checks of its constructor: what `risk_policy_bytes` writes for such a policy
  -- is read back as the same policy, its decimals with their exponents, and no other bytes are read as
  -- that policy. The policy's spellings are those of its decimals, and it is assumed that a flat JSON
  -- object and the `str` of a text are read back as they were written.
  pub parse_risk_policy_iff :
      IsReader host reader
      → (raw : Text) (p : RiskPolicy) → IsSpelled host reader p
      → (parse_risk_policy host reader raw ≡ ok p)
        ↔ ((raw ≡ risk_policy_bytes host p) × (is_risk_policy p ≡ true))
  unfolding parse_risk_policy
  parse_risk_policy_iff reads raw p spelled = (
    (parse-Yields raw).at p,
    λ (bytes, valid).
        let (gs, parsed, unique, same_values) =
          reads.read_back (risk_policy_payload host p) (payload-IsUnique host reader reads p)
            (payload-is_flat_object host reader reads p) in
        rw (bytes, parsed, unique) (policy_of_lem host reader reads p gs same_values spelled valid),
  )
