-- ===== src/Lifecycle/Clocks/RoundTrip.antt =====
-- Exit-plan bytes and their strict parser (src/esscher/lifecycle/clocks.py).
use esscher_market.Base.{ℕ, true, Option, some, arith, ◌≡◌, ◌↔◌, refl, ap, sym}
use esscher_market.Base.Text.{Text, text, same, same_iff}
use esscher_market.Base.Int.{pos}
use esscher_market.Base.Json.{string, Fields, get, is_text, is_integer, Host}
use esscher_market.Base.Result.{ok, Yields, Yields-bind, Yields-guard}
use esscher_market.Risk.Policy.Parse.{Reader, names, is_unique_fields}
use esscher_market.Risk.Policy.Names.{same_refl, same_names_lem}
use esscher_market.Risk.Policy.RoundTrip.{IsReader, is_flat_object}
use esscher_market.Lifecycle.Clocks.{
  LifecycleClocks, is_lifecycle_clocks, source_verified, lifecycle_clocks_payload,
  lifecycle_clocks_bytes,
}
use esscher_market.Lifecycle.Clocks.Parse.{
  has_clock_fields, is_unhashable, is_known_cohort, timestamp, plan_text, verified_clocks,
  clocks_of, parse_lifecycle_clocks,
}

module _ (host : Host) (reader : Reader) (instant_of : Text → Option ℕ) where
  -- The bytes of a plan that passes its constructor and whose source is bound.
  abbrev IsVerified : Text → LifecycleClocks → Type 0
  IsVerified raw c =
      (raw ≡ lifecycle_clocks_bytes host c)
      × (is_lifecycle_clocks c ≡ true)
      × (source_verified c ≡ true)

  verified_clocks-Yields :
      (raw : Text) (c : LifecycleClocks)
      → Yields (IsVerified raw) (verified_clocks host reader instant_of raw c)
  unfolding verified_clocks
  verified_clocks-Yields raw c = Yields-guard (IsVerified raw) (is_lifecycle_clocks c) _ _ (λ valid.
      Yields-guard (IsVerified raw) (same (lifecycle_clocks_bytes host c) raw) _ _ (λ canonical.
        Yields-guard (IsVerified raw) (source_verified c) _ _ (λ bound. record {
          at = λ q h.
              let bytes = (same_iff (lifecycle_clocks_bytes host c) raw).0 canonical in
              let own : c ≡ q = cc in rw (← own) (sym bytes, valid, bound);
        })))

  parse-Yields :
      (raw : Text) → Yields (IsVerified raw) (parse_lifecycle_clocks host reader instant_of raw)
  unfolding parse_lifecycle_clocks clocks_of
  parse-Yields raw = search (Yields-bind, verified_clocks-Yields) depth 40

  payload-IsUnique :
      (c : LifecycleClocks) → is_unique_fields (lifecycle_clocks_payload host c) ≡ true
  unfolding lifecycle_clocks_payload is_unique_fields names same
  payload-IsUnique c = refl

  payload-is_flat_object :
      (c : LifecycleClocks) → is_flat_object (lifecycle_clocks_payload host c) ≡ true
  unfolding lifecycle_clocks_payload is_flat_object
  payload-is_flat_object c = refl

  verified_lem :
      (c : LifecycleClocks)
      → is_lifecycle_clocks c ≡ true
      → source_verified c ≡ true
      → verified_clocks host reader instant_of (lifecycle_clocks_bytes host c) c ≡ ok c
  unfolding verified_clocks
  verified_lem c valid bound = rw (valid, bound, same_refl (lifecycle_clocks_bytes host c)) refl

  -- The parsed values of an object with the payload's values.
  module _ (reads : IsReader host reader)
      (instants : (n : ℕ) → instant_of (host.isoformat_z n) ≡ some n) (c : LifecycleClocks)
      (gs : Fields)
      (same_values : (name : Text) → get name gs ≡ get name (lifecycle_clocks_payload host c)) where
    payload-fields : has_clock_fields gs ≡ true
    unfolding has_clock_fields lifecycle_clocks_payload names
    payload-fields = same_names_lem (lifecycle_clocks_payload host c) gs same_values

    clock_at :
        (name : Text) (n : ℕ)
        → get name (lifecycle_clocks_payload host c) ≡ some (string (host.isoformat_z n))
        → timestamp host reader instant_of (get name gs) ≡ ok n
    unfolding timestamp
    clock_at name n h = rw (same_values name, h, instants n) refl

    string_at :
        (name t : Text)
        → get name (lifecycle_clocks_payload host c) ≡ some (string t)
        → plan_text host reader instant_of (get name gs) ≡ t
    string_at name t h = rw (same_values name, h) (reads.str_text t)

    schema_at : is_text (text "esscher.lifecycle_exit_plan") (get (text "schema") gs) ≡ true
    unfolding lifecycle_clocks_payload get same
    schema_at = rw (same_values (text "schema")) refl

    version_at : is_integer (pos 1) (get (text "schema_version") gs) ≡ true
    unfolding lifecycle_clocks_payload get same
    version_at = rw (same_values (text "schema_version")) refl

    cohort_at : get (text "cohort_id") gs ≡ some (string c.cohort_id)
    unfolding lifecycle_clocks_payload get same
    cohort_at = same_values (text "cohort_id")

    known_at : is_lifecycle_clocks c ≡ true → is_known_cohort (get (text "cohort_id") gs) ≡ true
    unfolding is_lifecycle_clocks
    known_at valid = rw cohort_at (ground arith)

    clocks_of_lem :
        is_lifecycle_clocks c ≡ true
        → source_verified c ≡ true
        → clocks_of host reader instant_of (lifecycle_clocks_bytes host c) gs ≡ ok c
    unfolding clocks_of lifecycle_clocks_payload get same
    clocks_of_lem valid bound =
        rw
          (
            payload-fields,
            schema_at,
            version_at,
            ap is_unhashable cohort_at,
            known_at valid,
            clock_at (text "observation_window_start_at") c.observation_window_start_at refl,
            clock_at (text "observation_window_end_at") c.observation_window_end_at refl,
            clock_at (text "entry_deadline_at") c.entry_deadline_at refl,
            clock_at (text "time_exit_at") c.time_exit_at refl,
            clock_at (text "flattening_deadline_at") c.flattening_deadline_at refl,
            string_at (text "event_run_id") c.event_run_id refl,
            string_at (text "cohort_id") c.cohort_id refl,
            string_at (text "policy_sha256") c.policy_sha256 refl,
            string_at (text "source_sha256") c.source_sha256 refl,
            verified_lem c valid bound,
          )
          refl

  -- The strict parser returns an exit plan exactly for that plan's own canonical bytes, and only where
  -- the plan passes its constructor, in which the five clocks are each before the next, and its source
  -- is a digest that is not all zeros. It is assumed that a flat JSON object and the `str` of a text are
  -- read back as they were written, and that the instant of an instant's text is that instant.
  pub parse_lifecycle_clocks_iff :
      IsReader host reader
      → ((n : ℕ) → instant_of (host.isoformat_z n) ≡ some n)
      → (raw : Text) (c : LifecycleClocks)
      → (parse_lifecycle_clocks host reader instant_of raw ≡ ok c) ↔ (
          (raw ≡ lifecycle_clocks_bytes host c)
          × (is_lifecycle_clocks c ≡ true)
          × (source_verified c ≡ true))
  unfolding parse_lifecycle_clocks
  parse_lifecycle_clocks_iff reads instants raw c = (
    (parse-Yields raw).at c,
    λ (bytes, valid, bound).
        let (gs, parsed, unique, same_values) =
          reads.read_back (lifecycle_clocks_payload host c) (payload-IsUnique c)
            (payload-is_flat_object c) in
        rw (bytes, parsed, unique) (clocks_of_lem reads instants c gs same_values valid bound),
  )
