-- ===== src/Lifecycle/Clocks.antt =====
-- The exit plan of one event, its frozen clocks and its identity (src/esscher/lifecycle/clocks.py).
-- A UTC instant is its number of microseconds.
pub mod Parse
pub mod RoundTrip
use esscher_market.Base.{ℕ, Bool, true, not, ◌&&◌, List, [], ◌∷◌, all, any, length, ltb, ◌==◌}
use esscher_market.Base.Int.{pos}
use esscher_market.Base.Text.{Text, text, same, strip, is_hex}
use esscher_market.Base.Json.{number, string, object, Fields, fields, Host}

-- `_KNOWN_COHORTS`.
abbrev pub known_cohorts : List Text
known_cohorts = text "BMO" ∷ text "AMC" ∷ text "BLS_JOLTS" ∷ text "BLS_EMPLOYMENT_SITUATION" ∷ []

pub record LifecycleClocks : Type 0 where
  pub event_run_id : Text
  pub cohort_id : Text
  pub policy_sha256 : Text
  pub source_sha256 : Text
  pub observation_window_start_at : ℕ
  pub observation_window_end_at : ℕ
  pub entry_deadline_at : ℕ
  pub time_exit_at : ℕ
  pub flattening_deadline_at : ℕ

-- Each of `itertools.pairwise(ordered)` is earlier than the next.
unfoldable pub strictly_ordered : List ℕ → Bool
strictly_ordered [] = true
strictly_ordered (_ ∷ []) = true
strictly_ordered (earlier ∷ later ∷ rest) = ltb earlier later && strictly_ordered (later ∷ rest)

-- `LifecycleClocks.__post_init__`, true where it raises nothing.
unfoldable pub is_lifecycle_clocks : LifecycleClocks → Bool
is_lifecycle_clocks c =
    not (same (strip c.event_run_id) [])
    && any (same c.cohort_id) known_cohorts
    && (length c.policy_sha256 == 64)
    && (length c.source_sha256 == 64)
    && strictly_ordered (
        c.observation_window_start_at ∷ c.observation_window_end_at ∷ c.entry_deadline_at
        ∷ c.time_exit_at ∷ c.flattening_deadline_at ∷ [])

-- `"0" * 64`.
abbrev pub unbound_source : Text
unbound_source = text "0000000000000000000000000000000000000000000000000000000000000000"

-- The property `source_verified`.
unfoldable pub source_verified : LifecycleClocks → Bool
source_verified c =
    (length c.source_sha256 == 64)
    && not (same c.source_sha256 unbound_source)
    && all is_hex c.source_sha256

module _ (host : Host) where
  open host use {dumps, sha256_hex, isoformat_z}

  unfoldable pub lifecycle_clocks_payload : LifecycleClocks → Fields
  lifecycle_clocks_payload c = fields (
      (text "schema", string (text "esscher.lifecycle_exit_plan"))
      ∷ (text "schema_version", number (pos 1))
      ∷ (text "event_run_id", string c.event_run_id)
      ∷ (text "cohort_id", string c.cohort_id)
      ∷ (text "policy_sha256", string c.policy_sha256)
      ∷ (text "source_sha256", string c.source_sha256)
      ∷ (text "observation_window_start_at", string (isoformat_z c.observation_window_start_at))
      ∷ (text "observation_window_end_at", string (isoformat_z c.observation_window_end_at))
      ∷ (text "entry_deadline_at", string (isoformat_z c.entry_deadline_at))
      ∷ (text "time_exit_at", string (isoformat_z c.time_exit_at))
      ∷ (text "flattening_deadline_at", string (isoformat_z c.flattening_deadline_at))
      ∷ [])

  abbrev pub lifecycle_clocks_bytes : LifecycleClocks → Text
  lifecycle_clocks_bytes c = dumps (object (lifecycle_clocks_payload c))

  unfoldable pub lifecycle_clocks_sha256 : LifecycleClocks → Text
  lifecycle_clocks_sha256 c = sha256_hex (lifecycle_clocks_bytes c)
