-- ===== src/Risk/Passport/Mappings.antt =====
-- `verify_passport` of src/esscher/risk/passport.py on events that are any mappings, as it is written:
-- the ledger hands it events whose four columns are text, `Risk.Passport.PassportEvent`.
pub mod Events
pub mod Verified
use esscher_market.Base.{
  ℕ, Bool, true, false, not, Option, none, some, List, [], ◌∷◌, All, length, arith, ◌≡◌, ◌↔◌, refl,
  ap, ◌∙◌,
}
use esscher_market.Base.Text.{Text, text, same}
use esscher_market.Base.Json.{
  Json, null, bool, number, string, array, object, Fields, get, text_value, Host,
}
use esscher_market.Base.Result.{Result, ok, err, ◌>>=◌, ◌>>◌, raise_if}
use esscher_market.Risk.Reasons.{passport_verification_failed, Checked}
use esscher_market.Risk.Passport.{
  PassportEvent, genesis_sha256, link_of, passport_event_sha256, verify_from,
}
use esscher_market.Risk.Passport.Chain.{IsShifted, HasOwnHash, verify_from_iff, IsChain-iff}

-- `event.get(name)`, which has to be a `str`.
abbrev pub text_or_fail : Option Text → Checked Text
text_or_fail none = err passport_verification_failed
text_or_fail (some t) = ok t

abbrev pub value_or_null : Option Json → Json
value_or_null none = null
value_or_null (some v) = v

-- The fields of one event, and the test of their types.
unfoldable pub event_of_mapping : Fields → Checked PassportEvent
event_of_mapping event = do
  kind ← text_or_fail (text_value (get (text "event_type") event))
  prev ← text_or_fail (text_value (get (text "prev_sha256") event))
  own ← text_or_fail (text_value (get (text "event_sha256") event))
  time ← text_or_fail (text_value (get (text "created_at") event))
  ok (record {
    event_type = kind;
    payload = value_or_null (get (text "payload") event);
    prev_sha256 = prev;
    event_sha256 = own;
    created_at = time;
  })

module _ (host : Host) where
  -- The loop, from the hash that the next event has to name.
  unfoldable pub verify_mappings_from : Text → List Fields → Checked (Unit {0})
  unfolding event_of_mapping
  verify_mappings_from expected_prev [] = ok tt
  verify_mappings_from expected_prev (event ∷ rest) = do
    e ← event_of_mapping event
    raise_if (not (same e.prev_sha256 expected_prev)) passport_verification_failed
    raise_if (not (same (passport_event_sha256 host (link_of e)) e.event_sha256))
        passport_verification_failed
    verify_mappings_from e.event_sha256 rest

  unfoldable pub verify_mappings : List Fields → Checked ℕ
  unfolding verify_mappings_from
  verify_mappings events = verify_mappings_from genesis_sha256 events >> ok (length events)
