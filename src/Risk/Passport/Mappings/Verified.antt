-- ===== src/Risk/Passport/Mappings/Verified.antt =====
-- The mappings that the verifier lets through (`verify_passport` of src/esscher/risk/passport.py).
use esscher_market.Base.{
  ℕ, Bool, true, false, not, List, [], ◌∷◌, All, length, arith, ◌≡◌, ◌↔◌, refl, ap, ◌∙◌,
}
use esscher_market.Base.Text.{Text, same}
use esscher_market.Base.Json.{Fields, Host}
use esscher_market.Base.Result.{Result, ok, err, ◌>>=◌, ◌>>◌, raise_if}
use esscher_market.Risk.Reasons.{passport_verification_failed, Checked}
use esscher_market.Risk.Passport.{
  PassportEvent, genesis_sha256, link_of, passport_event_sha256, verify_from,
}
use esscher_market.Risk.Passport.Chain.{IsShifted, HasOwnHash, verify_from_iff, IsChain-iff}
use esscher_market.Risk.Passport.Mappings.{event_of_mapping, verify_mappings_from, verify_mappings}
use esscher_market.Risk.Passport.Mappings.Events.{AreEvents, events_of_mappings, events_iff}

-- Two tests in front of the rest.
guards_iff :
    {E : Type 0} (b c : Bool) (e f : E) (m : Result E (Unit {0}))
    → ((raise_if b e >> (raise_if c f >> m)) ≡ ok tt) ↔ ((b ≡ false) × (c ≡ false) × (m ≡ ok tt))
guards_iff true c e f m = ground arith
guards_iff false true e f m = ground arith
guards_iff false false e f m = ground arith

counted : {E : Type 0} (r : Result E (Unit {0})) (n : ℕ) → ((r >> ok n) ≡ ok n) ↔ (r ≡ ok tt)
counted (ok tt) n = ground arith
counted (err e) n = ground arith

cons_ok :
    {A : Type 0} (r : Checked (List A)) (x : A) (ys : List A)
    → (r >>= λ xs. ok (x ∷ xs)) ≡ ok ys
    → (xs : List A) × (r ≡ ok xs) × (x ∷ xs ≡ ys)
cons_ok (ok xs) x ys h = (xs, refl, cc)
cons_ok (err e) x ys h = absurd cc

module _ (host : Host) where
  abbrev Verified : Text → List Fields → Type 0
  Verified prev ms =
      (es : List PassportEvent) × (events_of_mappings ms ≡ ok es)
      × (verify_from host prev es ≡ ok tt)

  -- One event in front of mappings that are verified from any hash.
  verify_event_iff :
      (prev : Text) (m : Fields) (rest : List Fields)
      → ((h : Text) → (verify_mappings_from host h rest ≡ ok tt) ↔ Verified h rest)
      → (r : Checked PassportEvent) → event_of_mapping m ≡ r
      → (verify_mappings_from host prev (m ∷ rest) ≡ ok tt) ↔ Verified prev (m ∷ rest)
  unfolding verify_mappings_from verify_from events_of_mappings
  verify_event_iff prev m rest later (err reason) read = (λ h. absurd cc, λ (es, h, _). absurd cc)
  verify_event_iff prev m rest later (ok e) read =
      let named = not (same e.prev_sha256 prev) in
      let hashed = not (same (passport_event_sha256 host (link_of e)) e.event_sha256) in
      let tests =
        guards_iff named hashed passport_verification_failed passport_verification_failed
          (verify_mappings_from host e.event_sha256 rest) in
      (
        λ h.
            let back = rw read at h in
            let (n, d, others) = tests.0 back in
            let (es, parsed, verified) = (later e.event_sha256).0 others in
            (
              e ∷ es,
              rw (read, parsed) refl,
              (guards_iff named hashed _ _ (verify_from host e.event_sha256 es)).1 (n, d, verified),
            ),
        λ (es, parsed, verified).
            let back = rw read at parsed in
            let (xs, others, whole) = cons_ok (events_of_mappings rest) e es back in
            let own : verify_from host prev (e ∷ xs) ≡ ok tt =
              ap (verify_from host prev) whole ∙ verified in
            let (n, d, chained) =
              (guards_iff named hashed _ _ (verify_from host e.event_sha256 xs)).0 own in
            rw read (tests.1 (n, d, (later e.event_sha256).1 (xs, others, chained))),
      )

  mappings_iff :
      (prev : Text) (ms : List Fields)
      → (verify_mappings_from host prev ms ≡ ok tt) ↔ Verified prev ms
  unfolding verify_mappings_from events_of_mappings verify_from
  mappings_iff prev [] = (λ _. ([], refl, refl), λ _. refl)
  mappings_iff prev (m ∷ rest) =
      verify_event_iff prev m rest (λ h. mappings_iff h rest) (event_of_mapping m) refl

  verify_mappings_from-counts :
      (ms : List Fields)
      → (verify_mappings host ms ≡ ok (length ms))
        ↔ (verify_mappings_from host genesis_sha256 ms ≡ ok tt)
  unfolding verify_mappings
  verify_mappings_from-counts ms = counted (verify_mappings_from host genesis_sha256 ms) (length ms)

  -- The verifier counts a list of mappings exactly when each has its event type, its time and its two
  -- hashes as texts, the hashes that the events name are the genesis hash and then the hashes that the
  -- events before carry, and each event carries the digest of its own type, payload, previous hash and
  -- time, where a payload that is missing or no object counts as an empty one.
  pub verify_mappings_iff :
      (ms : List Fields)
      → (verify_mappings host ms ≡ ok (length ms)) ↔ (
          (es : List PassportEvent) × AreEvents ms es
          × IsShifted host genesis_sha256 es
          × All (HasOwnHash host) es)
  verify_mappings_iff ms =
      let counts = verify_mappings_from-counts ms in
      let mappings = mappings_iff genesis_sha256 ms in
      (
        λ h.
            let (es, parsed, verified) = mappings.0 (counts.0 h) in
            let (shifted, own) =
              (IsChain-iff host genesis_sha256 es).0
                ((verify_from_iff host genesis_sha256 es).0 verified) in
            (es, (events_iff ms es).0 parsed, shifted, own),
        λ (es, read, shifted, own).
            let chain = (IsChain-iff host genesis_sha256 es).1 (shifted, own) in
            counts.1 (
              mappings.1
                (es, (events_iff ms es).1 read, (verify_from_iff host genesis_sha256 es).1 chain)),
      )
