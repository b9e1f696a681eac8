-- ===== src/Risk/Passport/Chain.antt =====
-- Verified chains (`verify_passport` of src/esscher/risk/passport.py).
use esscher_market.Base.{
  All, map, refl, sym, ap, ◌∙◌, List, [], ◌∷◌, ◌++◌, length, arith, ◌≡◌, ◌↔◌, ◌⊎◌,
}
use esscher_market.Base.Text.{Text, same_iff}
use esscher_market.Base.Json.{Host}
use esscher_market.Base.Result.{ok, err}
use esscher_market.Risk.Reasons.{passport_verification_failed}
use esscher_market.Risk.Passport.{
  PassportEvent, genesis_sha256, link_of, passport_event_sha256, verify_from, verify_passport,
  head_sha256, link_bytes, mapping_or_empty,
}

module _ (host : Host) where
  -- Each event names the hash before it, and carries the hash of its own link.
  abbrev pub IsChain : Text → List PassportEvent → Type 0
  IsChain prev [] = Unit
  IsChain prev (e ∷ rest) =
      (e.prev_sha256 ≡ prev)
      × (passport_event_sha256 host (link_of e) ≡ e.event_sha256)
      × IsChain e.event_sha256 rest

  pub verify_from_iff :
      (prev : Text) (es : List PassportEvent) → (verify_from host prev es ≡ ok tt) ↔ IsChain prev es
  unfolding verify_from
  verify_from_iff prev [] = ground arith
  verify_from_iff prev (e ∷ es) = ground (
    arith,
    same_iff e.prev_sha256 prev,
    same_iff (passport_event_sha256 host (link_of e)) e.event_sha256,
    verify_from_iff e.event_sha256 es,
  )

  pub IsChain-append :
      (prev : Text) (es : List PassportEvent) (e : PassportEvent)
      → IsChain prev es
      → e.prev_sha256 ≡ head_sha256 prev es
      → passport_event_sha256 host (link_of e) ≡ e.event_sha256
      → IsChain prev (es ++ e ∷ [])
  unfolding head_sha256
  IsChain-append prev [] e c named hashed = (named, hashed, tt)
  IsChain-append prev (x ∷ es) e c named hashed =
      (c.0, c.1, IsChain-append x.event_sha256 es e c.2 named hashed)

  verify_from-reason :
      (prev : Text) (es : List PassportEvent)
      → (verify_from host prev es ≡ ok tt)
        ⊎ (verify_from host prev es ≡ err passport_verification_failed)
  unfolding verify_from
  verify_from-reason prev [] = ground arith
  verify_from-reason prev (e ∷ es) = ground (arith, verify_from-reason e.event_sha256 es)

  pub verify_passport-IsChain :
      (es : List PassportEvent)
      → (verify_passport host es ≡ ok (length es)) ↔ IsChain genesis_sha256 es
  unfolding verify_passport
  verify_passport-IsChain es =
      ground (arith, verify_from_iff genesis_sha256 es, verify_from-reason genesis_sha256 es)

  -- The hash that the event carries is the digest of the canonical bytes of its type, payload,
  -- previous hash and time; a payload that is no object counts as an empty one.
  abbrev pub HasOwnHash : PassportEvent → Type 0
  HasOwnHash e =
      e.event_sha256
      ≡ host.sha256_hex (
          link_bytes host (record {
            event_type = e.event_type;
            payload = mapping_or_empty e.payload;
            prev_sha256 = e.prev_sha256;
            created_at = e.created_at;
          }))

  -- The hashes that the events name, with the last event's own at the end, are the genesis hash and
  -- then the hashes that they carry.
  abbrev pub IsShifted : Text → List PassportEvent → Type 0
  IsShifted prev es =
      map (λ (e : PassportEvent). e.prev_sha256) es ++ head_sha256 prev es ∷ []
      ≡ prev ∷ map (λ (e : PassportEvent). e.event_sha256) es

  pub IsChain-iff :
      (prev : Text) (es : List PassportEvent)
      → IsChain prev es ↔ (IsShifted prev es × All HasOwnHash es)
  unfolding head_sha256 passport_event_sha256 link_of
  IsChain-iff prev [] = (λ _. (refl, tt), λ _. tt)
  IsChain-iff prev (e ∷ es) =
      let later = IsChain-iff e.event_sha256 es in
      (
        λ c.
            let (shifted, own) = later.0 c.2 in
            (
              ap (λ xs. e.prev_sha256 ∷ xs) shifted
                  ∙ ap (λ x. x ∷ e.event_sha256 ∷ map (λ (f : PassportEvent). f.event_sha256) es)
                      c.0,
              (sym c.1, own),
            ),
        λ (linked, (own, others)).
            let named : e.prev_sha256 ≡ prev = cc in
            let shifted : IsShifted e.event_sha256 es = cc in
            (named, sym own, later.1 (shifted, others)),
      )
