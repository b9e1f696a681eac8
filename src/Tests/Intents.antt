-- ===== src/Tests/Intents.antt =====
-- The theorem on lifecycle intents at a concrete input.
use esscher_market.Base.{none, List, [], ◌∷◌, length, ◌≡◌, refl}
use esscher_market.Base.Text.{Text, text}
use esscher_market.Base.Json.{string, object, Fields, fields, Host}
use esscher_market.Risk.Ledger.Rows.{LifecycleIntent, IntentState, empty}
use esscher_market.Risk.Ledger.Operations.{LedgerCall, perform_all}
use esscher_market.Risk.Ledger.Single.{IsSingle, one_intent_per_phase}
use esscher_market.Base.Text.{same, strip}
use esscher_market.Base.Json.{get}
use esscher_market.Risk.Checks.{identifier, sha256}
use esscher_market.Risk.Passport.{event_text}
use esscher_market.Risk.Ledger.Monad.{◌>>=◌, transaction}
use esscher_market.Risk.Ledger.Passport.{append_passport}
use esscher_market.Risk.Ledger.Intents.{
  record_lifecycle_intent, validated_intent, is_request_of, intent_body, bind_lifecycle_intent,
  bind_body,
}
use esscher_market.Risk.Ledger.Operations.{perform}
use esscher_market.Tests.Codec.{parse, size, print, split}
use esscher_market.Tests.Data.{sample_host, digest, event_one}

-- A host that hashes every text to zeros.
abbrev zero_host : Host
zero_host = record sample_host { sha256_hex = λ _. digest }

abbrev request_of : Text → Text → Fields
request_of permit phase = fields (
    (text "permit_id", string permit)
    ∷ (text "open_permit_id", string (text "permit-1"))
    ∷ (text "phase", string phase)
    ∷ (text "event_run_id", string event_one)
    ∷ (text "reservation_id", string (text "rsv-event-1"))
    ∷ (text "correlation_sha256", string digest)
    ∷ (text "policy_sha256", string digest)
    ∷ (text "snapshot_sha256", string digest)
    ∷ (text "account_id", string (text "account-1"))
    ∷ (text "account_class", string (text "PAPER"))
    ∷ (text "order_class", string (text "MULTI_LEG"))
    ∷ (text "client_order_id", string (text "client-1"))
    ∷ [])

-- The intent of a permit in a phase of the event.
abbrev intent : Text → Text → LifecycleIntent
intent permit phase = record {
  permit_id = permit;
  phase = phase;
  event_id = event_one;
  open_permit_id = text "permit-1";
  reservation_id = text "rsv-event-1";
  correlation_sha256 = digest;
  policy_sha256 = digest;
  snapshot_sha256 = digest;
  account_id = text "account-1";
  account_class = text "PAPER";
  order_class = text "MULTI_LEG";
  client_order_id = text "client-1";
  request_sha256 = digest;
  request_json = zero_host.dumps (object (request_of permit phase));
  broker_order_id = none;
  state = IntentState.intended;
  created_at = 5;
  updated_at = 5;
}

-- An opening and a closing intent, and a second closing intent under another permit.
abbrev intents_session : List LedgerCall
intents_session =
    LedgerCall.intend (intent (text "permit-1") (text "OPEN")) 5
    ∷ LedgerCall.bind_order (text "permit-1") (text "OPEN") (text "order-1") 6
    ∷ LedgerCall.intend (intent (text "permit-2") (text "CLOSE")) 7
    ∷ LedgerCall.intend (intent (text "permit-3") (text "CLOSE")) 8
    ∷ []

one_intent_per_phase_example : IsSingle (perform_all zero_host intents_session empty).intents
one_intent_per_phase_example = one_intent_per_phase zero_host intents_session

-- The second closing intent is refused.
two_intents : length (perform_all zero_host intents_session empty).intents ≡ 2
unfolding perform_all perform record_lifecycle_intent ◌>>=◌ validated_intent identifier same strip
    sha256 parse size print split is_request_of get transaction intent_body bind_lifecycle_intent
    bind_body append_passport event_text
two_intents = refl
