-- ===== src/Lifecycle/Clocks/Parse.antt =====
-- The strict parser of exit-plan bytes (src/esscher/lifecycle/clocks.py). `_unique_object` and what is
-- read with `json.loads` are the risk policy's: the two files have the same helper.
use esscher_market.Base.{
  ℕ, Bool, true, false, not, ◌&&◌, Option, none, some, List, [], ◌∷◌, all, any, is_some,
}
use esscher_market.Base.Int.{pos}
use esscher_market.Base.Text.{Text, text, same}
use esscher_market.Base.Json.{Json, string, array, object, Fields, get, is_text, is_integer, Host}
use esscher_market.Base.Result.{Result, ok, err, ◌>>=◌, ◌>>◌, raise_if}
use esscher_market.Risk.Policy.Parse.{Reader, names, is_unique_fields}
use esscher_market.Lifecycle.Reasons.{
  LifecycleReason, exit_plan_unverified, exit_plan_clocks_misordered, exit_plan_cohort_mismatch,
  unsupported_input,
}
use esscher_market.Lifecycle.Clocks.{
  LifecycleClocks, known_cohorts, is_lifecycle_clocks, source_verified, lifecycle_clocks_bytes,
}

-- A `LifecycleRejected`, or the `TypeError` of looking up a list or a dict in a set.
pub data ClocksFailure : Type 0 where
  rejected : LifecycleReason → ClocksFailure
  type_error : ClocksFailure

-- `_CLOCK_FIELDS`.
abbrev pub clock_fields : List Text
clock_fields =
    text "schema"
    ∷ text "schema_version"
    ∷ text "event_run_id"
    ∷ text "cohort_id"
    ∷ text "policy_sha256"
    ∷ text "source_sha256"
    ∷ text "observation_window_start_at"
    ∷ text "observation_window_end_at"
    ∷ text "entry_deadline_at"
    ∷ text "time_exit_at"
    ∷ text "flattening_deadline_at"
    ∷ []

-- `not missing and not unknown`.
unfoldable pub has_clock_fields : Fields → Bool
has_clock_fields fs =
    all (λ name. is_some (get name fs)) clock_fields
    && all (λ name. any (same name) clock_fields) (names fs)

-- The value that `json.loads` gives, and the test that its root is an object.
abbrev pub plan_fields : Option Json → Result ClocksFailure Fields
plan_fields (some (object fs)) =
    raise_if (not (is_unique_fields fs)) (rejected unsupported_input) >> ok fs
plan_fields _ = err (rejected unsupported_input)

-- A list or a dict, which has no hash.
abbrev pub is_unhashable : Option Json → Bool
is_unhashable (some (array _)) = true
is_unhashable (some (object _)) = true
is_unhashable _ = false

-- `value in _KNOWN_COHORTS`.
abbrev pub is_known_cohort : Option Json → Bool
is_known_cohort value = any (λ cohort. is_text cohort value) known_cohorts

-- The instant of a text, or the rejection of a text that is none. The `_reject` of `_timestamp` is a
-- `ValueError`, so that the `except ValueError` around the construction gives it another reason.
abbrev pub instant_or_reject : Option ℕ → Result ClocksFailure ℕ
instant_or_reject none = err (rejected exit_plan_clocks_misordered)
instant_or_reject (some n) = ok n

-- `instant_of` is `datetime.fromisoformat(value.replace("Z", "+00:00"))`, or `none` where that raises
-- or is not UTC.
module _ (host : Host) (reader : Reader) (instant_of : Text → Option ℕ) where
  -- `_timestamp`.
  unfoldable pub timestamp : Option Json → Result ClocksFailure ℕ
  timestamp (some (string t)) = instant_or_reject (instant_of t)
  timestamp _ = err (rejected exit_plan_clocks_misordered)

  -- `str(payload[name])` of a name that is there.
  abbrev pub plan_text : Option Json → Text
  plan_text none = []
  plan_text (some value) = reader.str_of value

  -- The construction of the clocks, the test that their bytes are the input, and that of the source.
  unfoldable pub verified_clocks : Text → LifecycleClocks → Result ClocksFailure LifecycleClocks
  verified_clocks raw c = do
    raise_if (not (is_lifecycle_clocks c)) (rejected exit_plan_clocks_misordered)
    raise_if (not (same (lifecycle_clocks_bytes host c) raw)) (rejected unsupported_input)
    raise_if (not (source_verified c)) (rejected exit_plan_unverified)
    ok c

  unfoldable pub clocks_of : Text → Fields → Result ClocksFailure LifecycleClocks
  unfolding verified_clocks
  clocks_of raw payload = do
    raise_if (not (has_clock_fields payload)) (rejected unsupported_input)
    raise_if (not (is_text (text "esscher.lifecycle_exit_plan") (get (text "schema") payload)))
        (rejected unsupported_input)
    raise_if (not (is_integer (pos 1) (get (text "schema_version") payload)))
        (rejected unsupported_input)
    raise_if (is_unhashable (get (text "cohort_id") payload)) type_error
    raise_if (not (is_known_cohort (get (text "cohort_id") payload)))
        (rejected exit_plan_cohort_mismatch)
    window_start ← timestamp (get (text "observation_window_start_at") payload)
    window_end ← timestamp (get (text "observation_window_end_at") payload)
    deadline ← timestamp (get (text "entry_deadline_at") payload)
    exit ← timestamp (get (text "time_exit_at") payload)
    flattening ← timestamp (get (text "flattening_deadline_at") payload)
    verified_clocks raw (record {
      event_run_id = plan_text (get (text "event_run_id") payload);
      cohort_id = plan_text (get (text "cohort_id") payload);
      policy_sha256 = plan_text (get (text "policy_sha256") payload);
      source_sha256 = plan_text (get (text "source_sha256") payload);
      observation_window_start_at = window_start;
      observation_window_end_at = window_end;
      entry_deadline_at = deadline;
      time_exit_at = exit;
      flattening_deadline_at = flattening;
    })

  unfoldable pub parse_lifecycle_clocks : Text → Result ClocksFailure LifecycleClocks
  unfolding clocks_of
  parse_lifecycle_clocks raw = plan_fields (reader.loads_pairs raw) >>= clocks_of raw
