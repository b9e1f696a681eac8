-- ===== src/Risk/Ledger/Passport/Verified.antt =====
-- The passport as `_append_passport` writes it (src/esscher/risk/ledger.py), before the verifier.
use esscher_market.Base.{ℕ, suc, some, List, [], ◌∷◌, ◌++◌, length, arith, ◌≡◌, refl, sym, ap, ◌∙◌}
use esscher_market.Base.Text.{Text, text, same, strip}
use esscher_market.Risk.Checks.{identifier}
use esscher_market.Base.Json.{string, object, Fields, Host, IsJson}
use esscher_market.Base.Result.{ok}
use esscher_market.Risk.Passport.{
  PassportEventType, genesis_sha256, PassportEvent, Link, link_of, passport_event_sha256,
  verify_passport, event_text, candidate_frozen,
}
use esscher_market.Risk.Passport.Chain.{IsChain, verify_passport-IsChain}
use esscher_market.Risk.Ledger.Rows.{Ledger, PassportRow}
use esscher_market.Risk.Ledger.Monad.{◌>>=◌}
use esscher_market.Risk.Ledger.Passport.{
  last_sha256, passport_row, append_passport, event_of_row, events_of_rows, passport_events,
}

pub event_text-identifier : (t : PassportEventType) → identifier (event_text t) ≡ ok (event_text t)
unfolding identifier event_text strip same
event_text-identifier candidate_frozen = refl
event_text-identifier _ = refl

-- The ledger with one more passport row.
abbrev pub appended : Host → PassportEventType → Fields → ℕ → Ledger → Ledger
appended host t payload now l = record l {
  passport = l.passport ++ passport_row host (event_text t) payload now l.passport ∷ [];
}

module _ (host : Host) where
  open host use {dumps, loads}

  -- The link of a row whose payload column is the text of these fields.
  abbrev row_link : PassportRow → Fields → Link
  row_link row fs = record {
    event_type = row.event_type;
    payload = fs;
    prev_sha256 = row.prev_sha256;
    created_at = row.created_at;
  }

  -- Each row names the row before it, and its hash is that of its own contents.
  abbrev pub IsLinked : Text → List PassportRow → Type 0
  IsLinked prev [] = Unit
  IsLinked prev (row ∷ rest) =
      (row.prev_sha256 ≡ prev)
      × ((fs : Fields) × (row.payload ≡ dumps (object fs))
          × (row.event_sha256 ≡ passport_event_sha256 host (row_link row fs)))
      × IsLinked row.event_sha256 rest

  IsLinked-append :
      (prev : Text) (rows : List PassportRow) (event : Text) (payload : Fields) (now : ℕ)
      → (row : PassportRow) → row.prev_sha256 ≡ last_sha256 prev rows
      → row.payload ≡ dumps (object payload)
      → row.event_sha256 ≡ passport_event_sha256 host (row_link row payload)
      → IsLinked prev rows
      → IsLinked prev (rows ++ row ∷ [])
  unfolding last_sha256
  IsLinked-append prev [] event payload now row named stored hashed h =
      (named, (payload, stored, hashed), tt)
  IsLinked-append prev (r ∷ rows) event payload now row named stored hashed h =
      (h.0, h.1, IsLinked-append r.event_sha256 rows event payload now row named stored hashed h.2)

  -- Every event type passes the identifier check, so an append always writes its row.
  pub append_passport_lem :
      (event_type : PassportEventType) (payload : Fields) (now : ℕ) (l : Ledger)
      → append_passport host event_type payload now l
        ≡ (ok tt, appended host event_type payload now l)
  unfolding append_passport ◌>>=◌
  append_passport_lem event_type payload now l = rw (event_text-identifier event_type)

  pub passport_row-IsLinked :
      (event : Text) (payload : Fields) (now : ℕ) (rows : List PassportRow)
      → IsLinked genesis_sha256 rows
      → IsLinked genesis_sha256 (rows ++ passport_row host event payload now rows ∷ [])
  unfolding passport_row
  passport_row-IsLinked event payload now rows h =
      IsLinked-append genesis_sha256 rows event payload now
        (passport_row host event payload now rows) refl refl refl h

  module _ (json : IsJson host) where
    event_of_row-link :
        (row : PassportRow) (fs : Fields)
        → row.payload ≡ dumps (object fs)
        → row.event_sha256 ≡ passport_event_sha256 host (row_link row fs)
        → (e : PassportEvent) × (event_of_row host row ≡ ok e)
          × (e.prev_sha256 ≡ row.prev_sha256)
          × (e.event_sha256 ≡ row.event_sha256)
          × (passport_event_sha256 host (link_of e) ≡ e.event_sha256)
    unfolding event_of_row link_of passport_event_sha256
    event_of_row-link row fs stored hashed =
        let (gs, loaded, agree) = json.reload fs in
        let parsed : loads row.payload ≡ some (object gs) = ap loads stored ∙ loaded in
        (
          record {
            event_type = row.event_type;
            payload = object gs;
            prev_sha256 = row.prev_sha256;
            event_sha256 = row.event_sha256;
            created_at = row.created_at;
          },
          rw (parsed, event_of_row),
          refl,
          refl,
          ap host.sha256_hex (
                json.compose ((text "event_type", string row.event_type) ∷ [])
                  ((text "prev_sha256", string row.prev_sha256)
                    ∷ (text "created_at", string row.created_at)
                    ∷ [])
                  (text "payload") (object gs) (object fs) agree)
              ∙ sym hashed,
        )

    events_of_rows-IsChain :
        (prev : Text) (rows : List PassportRow)
        → IsLinked prev rows
        → (es : List PassportEvent) × (events_of_rows host rows ≡ ok es)
          × IsChain host prev es
          × (length es ≡ length rows)
    unfolding events_of_rows
    events_of_rows-IsChain prev [] h = ([], refl, tt, refl)
    events_of_rows-IsChain prev (row ∷ rows) h =
        let (fs, stored, hashed) = h.1 in
        let (e, parsed, named, kept, linked) = event_of_row-link row fs stored hashed in
        let (es, others, chain, size) = events_of_rows-IsChain row.event_sha256 rows h.2 in
        (e ∷ es, ground (arith, parsed, others), (named ∙ h.0, linked, rw kept chain), ap suc size)

    -- Where JSON parses back what it printed, the events read from a passport that only
    -- `_append_passport` has written pass `verify_passport`, which counts every row.
    pub IsLinked-verifies :
        (l : Ledger)
        → IsLinked genesis_sha256 l.passport
        → (es : List PassportEvent) × (passport_events host l ≡ ok es)
          × (verify_passport host es ≡ ok (length l.passport))
    unfolding passport_events
    IsLinked-verifies l h =
        let (es, parsed, chain, size) = events_of_rows-IsChain genesis_sha256 l.passport h in
        (es, parsed, rw (← size) ((verify_passport-IsChain host es).1 chain))
