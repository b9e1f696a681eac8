-- ===== src/Risk/Passport/Tamper.antt =====
-- Two verified chains with one head (src/esscher/risk/passport.py).
use mathlib.Core.List.{reverse, reverse_aux, reverse-reverse}
use esscher_market.Base.{
  Bool, true, not, ◌&&◌, some, is_some, List, [], ◌∷◌, map, ◌≡◌, ◌≢◌, ◌⊎◌, inl, inr, refl, sym, ap,
  ◌∙◌, length,
}
use esscher_market.Base.Text.{Text, text, same}
use esscher_market.Base.Json.{Json, string, object, Fields, end, field, get, Host}
use esscher_market.Base.Result.{ok}
use native.Mathlib.Decide.{ℕ_discrete}
use esscher_market.Risk.Passport.{
  PassportEvent, genesis_sha256, mapping_or_empty, link_of, link_bytes, passport_event_sha256,
  verify_passport, head_sha256,
}
use esscher_market.Risk.Passport.Chain.{IsChain, verify_passport-IsChain}

-- No name stands twice in the object, as in every dict.
unfoldable pub is_dict : Fields → Bool
is_dict end = true
is_dict (field name _ rest) = not (is_some (get name rest)) && is_dict rest

-- What tamper evidence relies on: two dicts that `json.dumps` writes the same way have values that it
-- writes the same way under each name that both have, and two texts that it writes the same way are
-- the same text.
pub record IsWriter (host : Host) : Type 0 where
  pub values :
      (fs gs : Fields)
      → is_dict fs ≡ true
      → is_dict gs ≡ true
      → host.dumps (object fs) ≡ host.dumps (object gs)
      → (name : Text) (v w : Json) → get name fs ≡ some v
      → get name gs ≡ some w
      → host.dumps v ≡ host.dumps w
  pub texts : (s t : Text) → host.dumps (string s) ≡ host.dumps (string t) → s ≡ t

Text-discrete : Discrete Text
Text-discrete = hlevel ℕ_discrete

-- `a` is an element of the list.
abbrev pub Occurs : {A : Type 0} → A → List A → Type 0
Occurs a [] = ⊥
Occurs a (x ∷ xs) = (a ≡ x) ⊎ Occurs a xs

Occurs-reverse_aux :
    {A : Type 0} (a : A) (xs acc : List A)
    → Occurs a (reverse_aux xs acc)
    → Occurs a xs ⊎ Occurs a acc
Occurs-reverse_aux a [] acc h = inr h
Occurs-reverse_aux a (x ∷ xs) acc h = elim (Occurs-reverse_aux a xs (x ∷ acc) h) [
  | inl o ↦ inl (inr o)
  | inr (inl e) ↦ inl (inl e)
  | inr (inr o) ↦ inr o
]

Occurs-reverse : {A : Type 0} (a : A) (xs : List A) → Occurs a (reverse xs) → Occurs a xs
Occurs-reverse a xs h = elim (Occurs-reverse_aux a xs [] h) [ inl o ↦ o | inr o ↦ absurd o ]

-- What an event says: its type, the canonical bytes of its payload (a payload that is no object
-- counts as an empty one), the hash that it names and its time.
pub record Content : Type 0 where
  pub event_type : Text
  pub payload : Text
  pub prev_sha256 : Text
  pub created_at : Text

module _ (host : Host) where
  abbrev pub content_of : PassportEvent → Content
  content_of e = record {
    event_type = e.event_type;
    payload = host.dumps (object (mapping_or_empty e.payload));
    prev_sha256 = e.prev_sha256;
    created_at = e.created_at;
  }

  -- Two events, one of each list, whose links have different bytes with one SHA-256, or an event whose
  -- link has the genesis value for its SHA-256.
  pub data IsBroken (es fs : List PassportEvent) : Type 0 where
    collision :
        (e f : PassportEvent)
        → Occurs e es
        → Occurs f fs
        → link_bytes host (link_of e) ≢ link_bytes host (link_of f)
        → host.sha256_hex (link_bytes host (link_of e))
          ≡ host.sha256_hex (link_bytes host (link_of f))
        → IsBroken es fs
    genesis_preimage :
        (e : PassportEvent)
        → Occurs e es ⊎ Occurs e fs
        → host.sha256_hex (link_bytes host (link_of e)) ≡ genesis_sha256
        → IsBroken es fs

  IsBroken-map :
      (es fs es' fs' : List PassportEvent)
      → ((e : PassportEvent) → Occurs e es → Occurs e es')
      → ((e : PassportEvent) → Occurs e fs → Occurs e fs')
      → IsBroken es fs
      → IsBroken es' fs'
  IsBroken-map es fs es' fs' f g (collision a b oa ob differ agree) =
      collision a b (f a oa) (g b ob) differ agree
  IsBroken-map es fs es' fs' f g (genesis_preimage a (inl o) h) = genesis_preimage a (inl (f a o)) h
  IsBroken-map es fs es' fs' f g (genesis_preimage a (inr o) h) = genesis_preimage a (inr (g a o)) h

  -- The chain from its newest event back to the genesis hash.
  Backward : Text → List PassportEvent → Type 0
  Backward h [] = h ≡ genesis_sha256
  Backward h (e ∷ older) =
      (h ≡ e.event_sha256)
      × (host.sha256_hex (link_bytes host (link_of e)) ≡ e.event_sha256)
      × Backward e.prev_sha256 older

  Backward-IsChain :
      (prev : Text) (es older : List PassportEvent)
      → IsChain host prev es
      → Backward prev older
      → Backward (head_sha256 prev es) (reverse_aux es older)
  unfolding Backward head_sha256 passport_event_sha256
  Backward-IsChain prev [] older c b = b
  Backward-IsChain prev (e ∷ es) older c b =
      Backward-IsChain e.event_sha256 es (e ∷ older) c.2 (refl, c.1, rw (c.0) b)

  module _ (writer : IsWriter host) where
    -- The bytes of a link determine what the event says.
    link_bytes-content_of :
        (e f : PassportEvent)
        → link_bytes host (link_of e) ≡ link_bytes host (link_of f)
        → content_of e ≡ content_of f
    unfolding link_of get same is_dict
    link_bytes-content_of e f h =
        let at = writer.values _ _ refl refl h in
        let types = writer.texts _ _ (at (text "event_type") _ _ refl refl) in
        let payloads = at (text "payload") _ _ refl refl in
        let prevs = writer.texts _ _ (at (text "prev_sha256") _ _ refl refl) in
        let times = writer.texts _ _ (at (text "created_at") _ _ refl refl) in cc

    same_contents :
        (h : Text) (xs ys : List PassportEvent)
        → Backward h xs
        → Backward h ys
        → (map content_of xs ≡ map content_of ys) ⊎ IsBroken xs ys
    unfolding Backward
    same_contents h [] [] b c = inl refl
    same_contents h [] (y ∷ ys) b c = inr (genesis_preimage y (inr (inl refl)) (c.1 ∙ sym c.0 ∙ b))
    same_contents h (x ∷ xs) [] b c = inr (genesis_preimage x (inl (inl refl)) (b.1 ∙ sym b.0 ∙ c))
    same_contents h (x ∷ xs) (y ∷ ys) b c =
        elim (Text-discrete (link_bytes host (link_of x)) (link_bytes host (link_of y))) [
          | no differ ↦
              inr (collision x y (inl refl) (inl refl) differ (b.1 ∙ sym b.0 ∙ c.0 ∙ sym c.1))
          | yes agree ↦
              let contents = link_bytes-content_of x y agree in
              let prevs : x.prev_sha256 ≡ y.prev_sha256 =
                ap (λ (k : Content). k.prev_sha256) contents in
              elim (same_contents x.prev_sha256 xs ys b.2 (rw prevs c.2)) [
                | inl e ↦ inl (cc)
                | inr broken ↦
                    inr (IsBroken-map xs ys (x ∷ xs) (y ∷ ys) (λ _ o. inr o) (λ _ o. inr o) broken)
              ]
        ]

  map-reverse_aux :
      (xs acc : List PassportEvent)
      → map content_of (reverse_aux xs acc) ≡ reverse_aux (map content_of xs) (map content_of acc)
  map-reverse_aux [] acc = refl
  map-reverse_aux (x ∷ xs) acc = map-reverse_aux xs (x ∷ acc)

  contents_of_reverse :
      (xs ys : List PassportEvent)
      → map content_of (reverse xs) ≡ map content_of (reverse ys)
      → map content_of xs ≡ map content_of ys
  contents_of_reverse xs ys e =
      sym (reverse-reverse (map content_of xs))
      ∙ ap reverse (sym (map-reverse_aux xs []) ∙ e ∙ map-reverse_aux ys [])
      ∙ reverse-reverse (map content_of ys)

-- If two lists of events both pass the verifier and end in the same hash, they say the same, event by
-- event: the same types, hashes named and times, and payloads of the same canonical bytes, where a
-- payload that is no object counts as an empty one. Otherwise two events of the lists are a collision of
-- SHA-256, with different bytes and one hash, or the link of one of them hashes to the genesis value.
-- It is assumed that JSON writes different values of a dict, and different texts, in different ways.
pub head_determines_chain :
    (host : Host)
    → IsWriter host
    → (es fs : List PassportEvent) → verify_passport host es ≡ ok (length es)
    → verify_passport host fs ≡ ok (length fs)
    → head_sha256 genesis_sha256 es ≡ head_sha256 genesis_sha256 fs
    → (map (content_of host) es ≡ map (content_of host) fs) ⊎ IsBroken host es fs
unfolding Backward
head_determines_chain host writer es fs ve vf heads =
    let chain = λ (xs : List PassportEvent) (v : verify_passport host xs ≡ ok (length xs)).
      Backward-IsChain host genesis_sha256 xs [] ((verify_passport-IsChain host xs).0 v) refl in
    let back : Backward host (head_sha256 genesis_sha256 es) (reverse fs) =
      rw heads (chain fs vf) in
    elim (same_contents host writer (head_sha256 genesis_sha256 es) (reverse es) (reverse fs)
      (chain es ve) back) [
        | inl e ↦ inl (contents_of_reverse host es fs e)
        | inr broken ↦ inr (
            IsBroken-map host (reverse es) (reverse fs) es fs (λ e o. Occurs-reverse e es o)
              (λ f o. Occurs-reverse f fs o) broken)
      ]
