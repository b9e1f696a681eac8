-- ===== src/Risk/Passport.antt =====
-- The hash-linked passport chain and its verifier (src/esscher/risk/passport.py).
pub mod Chain
pub mod Tamper
pub mod Mappings
use esscher_market.Base.{ℕ, Bool, true, false, not, Option, none, some, List, [], ◌∷◌, length}
use esscher_market.Base.Text.{Text, text, same}
use esscher_market.Base.Json.{Json, string, object, Fields, end, fields, Host}
use esscher_market.Base.Result.{Result, ok, err, ◌>>=◌, ◌>>◌, raise_if}
use esscher_market.Risk.Reasons.{RiskReason, passport_verification_failed, Checked}

-- `"0" * 64`.
abbrev pub genesis_sha256 : Text
genesis_sha256 = text "0000000000000000000000000000000000000000000000000000000000000000"

pub data PassportEventType : Type 0 where
  candidate_frozen decision_made abstained rejected expression_compiled : PassportEventType
  risk_approved reservation_held reservation_released permit_issued : PassportEventType
  order_intended order_submitted fill_observed position_observed reconciled : PassportEventType
  control_state_changed not_run : PassportEventType

-- The enum's value.
unfoldable pub event_text : PassportEventType → Text
event_text candidate_frozen = text "CANDIDATE_FROZEN"
event_text decision_made = text "DECISION_MADE"
event_text abstained = text "ABSTAINED"
event_text rejected = text "REJECTED"
event_text expression_compiled = text "EXPRESSION_COMPILED"
event_text risk_approved = text "RISK_APPROVED"
event_text reservation_held = text "RESERVATION_HELD"
event_text reservation_released = text "RESERVATION_RELEASED"
event_text permit_issued = text "PERMIT_ISSUED"
event_text order_intended = text "ORDER_INTENDED"
event_text order_submitted = text "ORDER_SUBMITTED"
event_text fill_observed = text "FILL_OBSERVED"
event_text position_observed = text "POSITION_OBSERVED"
event_text reconciled = text "RECONCILED"
event_text control_state_changed = text "CONTROL_STATE_CHANGED"
event_text not_run = text "NOT_RUN"

-- What the hash of a link covers.
pub record Link : Type 0 where
  pub event_type : Text
  pub payload : Fields
  pub prev_sha256 : Text
  pub created_at : Text

-- An event of the chain as `passport_events` reads it: four text columns, and the payload parsed.
pub record PassportEvent : Type 0 where
  pub event_type : Text
  pub payload : Json
  pub prev_sha256 : Text
  pub event_sha256 : Text
  pub created_at : Text

-- `payload if isinstance(payload, Mapping) else {}`.
unfoldable pub mapping_or_empty : Json → Fields
mapping_or_empty (object fs) = fs
mapping_or_empty _ = end

-- The link that an event claims to be.
unfoldable pub link_of : PassportEvent → Link
unfolding mapping_or_empty
link_of e = record {
  event_type = e.event_type;
  payload = mapping_or_empty e.payload;
  prev_sha256 = e.prev_sha256;
  created_at = e.created_at;
}

module _ (host : Host) where
  open host use {dumps, sha256_hex}

  -- `canonical_json_bytes` of a link.
  abbrev pub link_bytes : Link → Text
  link_bytes link = dumps (
      object (
        fields (
          (text "event_type", string link.event_type)
          ∷ (text "payload", object link.payload)
          ∷ (text "prev_sha256", string link.prev_sha256)
          ∷ (text "created_at", string link.created_at)
          ∷ [])))

  unfoldable pub passport_event_sha256 : Link → Text
  passport_event_sha256 link = sha256_hex (link_bytes link)

  -- The loop of `verify_passport`, from the hash that the next event has to name.
  unfoldable pub verify_from : Text → List PassportEvent → Checked (Unit {0})
  verify_from expected_prev [] = ok tt
  verify_from expected_prev (e ∷ rest) =
      let later = verify_from e.event_sha256 rest in
      (do
        raise_if (not (same e.prev_sha256 expected_prev)) passport_verification_failed
        raise_if (not (same (passport_event_sha256 (link_of e)) e.event_sha256))
            passport_verification_failed
        later)

  unfoldable pub verify_passport : List PassportEvent → Checked ℕ
  unfolding verify_from
  verify_passport events = verify_from genesis_sha256 events >> ok (length events)

-- The hash that an event after these has to name.
unfoldable pub head_sha256 : Text → List PassportEvent → Text
head_sha256 prev [] = prev
head_sha256 prev (e ∷ rest) = head_sha256 e.event_sha256 rest
