-- ===== src/Tests/Passport.antt =====
-- The verifier on mappings at concrete events.
use esscher_market.Base.{List, [], ◌∷◌, All, length, ◌≡◌, ◌↔◌, refl}
use esscher_market.Base.Text.{text, same}
use esscher_market.Base.Int.{pos}
use esscher_market.Base.Json.{Json, string, number, object, Fields, end, fields, set_field, get}
use esscher_market.Base.Result.{ok, err}
use esscher_market.Risk.Reasons.{passport_verification_failed}
use esscher_market.Risk.Passport.{
  PassportEvent, genesis_sha256, mapping_or_empty, link_of, passport_event_sha256,
}
use esscher_market.Risk.Passport.Chain.{IsShifted, HasOwnHash}
use esscher_market.Risk.Passport.Mappings.{event_of_mapping, verify_mappings_from, verify_mappings}
use esscher_market.Risk.Passport.Mappings.Events.{AreEvents}
use esscher_market.Risk.Passport.Mappings.Verified.{verify_mappings_iff}
use esscher_market.Tests.Data.{sample_host}
use esscher_market.Tests.Entries.{zero_host}

-- An event without a payload, and a host whose digest is always the same.
abbrev stored : Json → Fields
stored payload = fields (
    (text "event_type", string (text "CANDIDATE_FROZEN"))
    ∷ (text "payload", payload)
    ∷ (text "prev_sha256", string genesis_sha256)
    ∷ (text "event_sha256", string (zero_host.sha256_hex []))
    ∷ (text "created_at", string (text "2026-01-05T00:00:00Z"))
    ∷ [])

abbrev one_event : List Fields
one_event = stored (object end) ∷ []

verify_mappings_iff_example : (verify_mappings zero_host one_event ≡ ok (length one_event)) ↔ (
    (es : List PassportEvent) × AreEvents one_event es
    × IsShifted zero_host genesis_sha256 es
    × All (HasOwnHash zero_host) es)
verify_mappings_iff_example = verify_mappings_iff zero_host one_event

-- A number as the event type.
untyped_event :
    verify_mappings zero_host
      (set_field (text "event_type") (number (pos 1)) (stored (object end)) ∷ [])
    ≡ err passport_verification_failed
unfolding verify_mappings verify_mappings_from event_of_mapping set_field get same
untyped_event = refl

-- A payload that is no object is hashed as an empty one.
replaced_payload :
    passport_event_sha256 sample_host (
      link_of (record {
        event_type = [];
        payload = number (pos 5);
        prev_sha256 = [];
        event_sha256 = [];
        created_at = [];
      }))
    ≡ passport_event_sha256 sample_host (
        link_of (record {
          event_type = [];
          payload = object end;
          prev_sha256 = [];
          event_sha256 = [];
          created_at = [];
        }))
unfolding link_of mapping_or_empty
replaced_payload = refl
