-- ===== src/Risk/Ledger/Intents.antt =====
-- Durable lifecycle intents (src/esscher/risk/ledger.py).
use esscher_market.Base.{
  ℕ, Bool, true, false, not, ◌&&◌, ◌||◌, Option, none, some, [], ◌∷◌, ◌++◌, any, update,
}
use esscher_market.Base.Text.{Text, text, same}
use esscher_market.Base.Json.{string, object, Fields, get, set_field, Host}
use esscher_market.Risk.Reasons.{unsupported_input, permit_lifecycle_invalid}
use esscher_market.Risk.Checks.{identifier, sha256}
use esscher_market.Risk.Passport.{order_intended, order_submitted}
use esscher_market.Risk.Ledger.Rows.{LifecycleIntent, IntentState}
use esscher_market.Risk.Ledger.Monad.{
  Action, pure, reject_if, gets, modify, constraint, check, or_reject, ◌>>=◌, ◌>>◌, transaction,
  unhandled, integrity_as,
}
use esscher_market.Risk.Ledger.Passport.{append_passport}
use esscher_market.Risk.Ledger.Queries.{intent_of, intent_of_phase, lifecycle_intent_for_permit}

-- `phase_text in {"OPEN", "CLOSE"}`.
is_phase : Text → Bool
is_phase phase = same phase (text "OPEN") || same phase (text "CLOSE")

-- `request_payload.get(field) == expected`.
is_field : Text → Text → Fields → Bool
is_field name expected payload = elim (get name payload) [
  | some (string value) ↦ same value expected
  | _ ↦ false
]

-- The loop over `expected_request_fields`.
unfoldable pub is_request_of : LifecycleIntent → Fields → Bool
unfolding is_field
is_request_of i payload =
    is_field (text "permit_id") i.permit_id payload
    && is_field (text "open_permit_id") i.open_permit_id payload
    && is_field (text "phase") i.phase payload
    && is_field (text "event_run_id") i.event_id payload
    && is_field (text "reservation_id") i.reservation_id payload
    && is_field (text "correlation_sha256") i.correlation_sha256 payload
    && is_field (text "policy_sha256") i.policy_sha256 payload
    && is_field (text "snapshot_sha256") i.snapshot_sha256 payload
    && is_field (text "account_id") i.account_id payload
    && is_field (text "account_class") i.account_class payload
    && is_field (text "order_class") i.order_class payload
    && is_field (text "client_order_id") i.client_order_id payload

-- The value of a JSON object, or `none` for text that is no JSON or no object.
unfoldable pub loads_object : Host → Text → Option Fields
loads_object host raw = elim (host.loads raw) [ some (object payload) ↦ some payload | _ ↦ none ]

-- The primary key `permit_id` and the unique pair `(event_id, phase)`. (A new row has no broker
-- order, and SQL's NULLs do not conflict.)
abbrev pub intent_conflict : LifecycleIntent → LifecycleIntent → Bool
intent_conflict new old =
    same old.permit_id new.permit_id || intent_of_phase new.event_id new.phase old

-- Another intent than this permit's has the broker order.
abbrev pub is_other_order : Text → Text → LifecycleIntent → Bool
is_other_order permit order i = not (same i.permit_id permit) && has_order i.broker_order_id
  where
    has_order : Option Text → Bool
    has_order none = false
    has_order (some o) = same o order

abbrev pub is_intended : IntentState → Bool
is_intended IntentState.intended = true
is_intended _ = false

abbrev pub is_bound_intent : IntentState → Bool
is_bound_intent IntentState.submitted = true
is_bound_intent _ = false

module _ (host : Host) where
  open host use {dumps, sha256_hex}

  -- The checks on the columns; the row's state, broker order and times are the method's own.
  unfoldable pub validated_intent : LifecycleIntent → Action Fields
  unfolding is_phase loads_object
  validated_intent i = do
    check (identifier i.permit_id)
    check (identifier i.phase)
    reject_if (not (is_phase i.phase)) unsupported_input
    check (identifier i.event_id)
    check (identifier i.open_permit_id)
    check (identifier i.reservation_id)
    check (sha256 i.correlation_sha256)
    check (sha256 i.policy_sha256)
    check (sha256 i.snapshot_sha256)
    check (identifier i.account_id)
    check (identifier i.account_class)
    check (identifier i.order_class)
    check (identifier i.client_order_id)
    check (sha256 i.request_sha256)
    payload ← or_reject unsupported_input (loads_object host i.request_json)
    reject_if (not (same (dumps (object payload)) i.request_json)) unsupported_input
    reject_if (not (same (sha256_hex (dumps (object payload))) i.request_sha256)) unsupported_input
    reject_if (not (is_request_of i payload)) unsupported_input
    pure payload

  unfoldable pub intent_body : LifecycleIntent → Fields → ℕ → Action (Unit {0})
  intent_body i payload now =
      let row : LifecycleIntent = record i {
        broker_order_id = none;
        state = IntentState.intended;
        created_at = now;
        updated_at = now;
      } in
      (do
        constraint (not (any (intent_conflict row) (← gets (λ l. l.intents))))
        modify (λ l. record l { intents = l.intents ++ row ∷ [] })
        append_passport host order_intended
            (set_field (text "request_sha256") (string i.request_sha256) payload) now)

  -- `record_lifecycle_intent`, its arguments given as a row.
  unfoldable pub record_lifecycle_intent : LifecycleIntent → ℕ → Action (Unit {0})
  record_lifecycle_intent i now = do
    payload ← validated_intent i
    transaction (integrity_as permit_lifecycle_invalid) (intent_body i payload now)

  unfoldable pub bind_body : Text → Text → Text → ℕ → Action (Unit {0})
  unfolding loads_object
  bind_body permit phase order now = do
    intent ←
        or_reject permit_lifecycle_invalid (lifecycle_intent_for_permit permit (← gets (λ l. l)))
    reject_if (not (same intent.phase phase) || not (is_intended intent.state))
        permit_lifecycle_invalid
    constraint (not (any (is_other_order permit order) (← gets (λ l. l.intents))))
    modify (λ l. record l {
      intents =
          update (intent_of permit)
            (λ i. record i {
              broker_order_id = some order;
              state = IntentState.submitted;
              updated_at = now;
            })
            l.intents;
    })
    payload ← or_reject permit_lifecycle_invalid (loads_object host intent.request_json)
    append_passport host order_submitted
        (set_field (text "broker_order_id") (string order)
          (set_field (text "request_sha256") (string intent.request_sha256) payload))
        now

  unfoldable pub bind_lifecycle_intent : Text → Text → Text → ℕ → Action (Unit {0})
  bind_lifecycle_intent permit_id phase broker_order_id now = do
    permit ← check (identifier permit_id)
    phase_text ← check (identifier phase)
    order ← check (identifier broker_order_id)
    transaction (integrity_as permit_lifecycle_invalid) (bind_body permit phase_text order now)

unfoldable pub reconciled_body : Text → ℕ → Action (Unit {0})
reconciled_body permit now = do
  intent ← or_reject permit_lifecycle_invalid (lifecycle_intent_for_permit permit (← gets (λ l. l)))
  reject_if (not (is_bound_intent intent.state)) permit_lifecycle_invalid
  modify (λ l. record l {
    intents =
        update (intent_of permit)
          (λ i. record i { state = IntentState.reconciled; updated_at = now }) l.intents;
  })

unfoldable pub mark_lifecycle_intent_reconciled : Text → ℕ → Action (Unit {0})
mark_lifecycle_intent_reconciled permit_id now = do
  permit ← check (identifier permit_id)
  transaction unhandled (reconciled_body permit now)
