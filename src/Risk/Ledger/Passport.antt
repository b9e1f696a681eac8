-- ===== src/Risk/Ledger/Passport.antt =====
-- The canonical append-only passport (the methods `_append_passport` to `passport_events` of
-- src/esscher/risk/ledger.py).
pub mod Verified
use esscher_market.Base.{ℕ, Option, none, some, List, [], ◌∷◌, ◌++◌}
use esscher_market.Base.Text.{Text}
use esscher_market.Base.Json.{Json, object, Fields, Host}
use esscher_market.Base.Result.{Result, ok, err}
use esscher_market.Risk.Reasons.{passport_verification_failed, Checked}
use esscher_market.Risk.Checks.{identifier}
use esscher_market.Risk.Passport.{
  PassportEventType, event_text, genesis_sha256, PassportEvent, passport_event_sha256,
}
use esscher_market.Risk.Ledger.Rows.{Ledger, PassportRow}
use esscher_market.Risk.Ledger.Monad.{Action, modify, check, ◌>>=◌}

-- The hash of the newest row, `ORDER BY seq DESC LIMIT 1`, or the one given where there is no row.
unfoldable pub last_sha256 : Text → List PassportRow → Text
last_sha256 previous [] = previous
last_sha256 previous (row ∷ rest) = last_sha256 row.event_sha256 rest

module _ (host : Host) where
  open host use {dumps, loads, isoformat_z}

  -- The row that `_append_passport` inserts.
  unfoldable pub passport_row : Text → Fields → ℕ → List PassportRow → PassportRow
  unfolding last_sha256
  passport_row event payload now rows =
      let previous = last_sha256 genesis_sha256 rows in
      record {
        event_type = event;
        payload = dumps (object payload);
        prev_sha256 = previous;
        event_sha256 = passport_event_sha256 host (record {
          event_type = event;
          payload = payload;
          prev_sha256 = previous;
          created_at = isoformat_z now;
        });
        created_at = isoformat_z now;
      }

  -- `_append_passport` and `append_passport`, which return the new row's hash to callers that
  -- ignore it.
  unfoldable pub append_passport : PassportEventType → Fields → ℕ → Action (Unit {0})
  unfolding passport_row
  append_passport event_type payload now = do
    event ← check (identifier (event_text event_type))
    modify
        (λ l. record l { passport = l.passport ++ passport_row event payload now l.passport ∷ [] })

  -- One row of `passport_events`, its payload column parsed.
  unfoldable pub event_of_row : PassportRow → Checked PassportEvent
  event_of_row row = elim (loads row.payload) [
    | none ↦ err passport_verification_failed
    | some value ↦ ok (record {
      event_type = row.event_type;
      payload = value;
      prev_sha256 = row.prev_sha256;
      event_sha256 = row.event_sha256;
      created_at = row.created_at;
    })
  ]

  -- The loop of `passport_events`.
  unfoldable pub events_of_rows : List PassportRow → Checked (List PassportEvent)
  events_of_rows [] = ok []
  events_of_rows (row ∷ rest) = elim (event_of_row row) [
    | err e ↦ err e
    | ok event ↦ elim (events_of_rows rest) [ err e ↦ err e | ok events ↦ ok (event ∷ events) ]
  ]

  unfoldable pub passport_events : Ledger → Checked (List PassportEvent)
  unfolding events_of_rows
  passport_events l = events_of_rows l.passport
