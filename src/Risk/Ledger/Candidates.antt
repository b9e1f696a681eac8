-- ===== src/Risk/Ledger/Candidates.antt =====
-- Immutable candidates and abstentions (src/esscher/risk/ledger.py).
use esscher_market.Base.{Bool, not, [], ◌∷◌, ◌++◌, is_some, if◌then◌else◌}
use esscher_market.Base.Text.{text}
use esscher_market.Base.Json.{string, Fields, fields, Host}
use esscher_market.Risk.Reasons.{immutable_event_replay, not_run_event, event_lifecycle_invalid}
use esscher_market.Risk.Checks.{identifier, sha256}
use esscher_market.Risk.Passport.{candidate_frozen, not_run}
use esscher_market.Risk.Ledger.Rows.{Candidate, NotRun}
use esscher_market.Risk.Ledger.Monad.{
  Action, pure, reject_if, gets, modify, constraint, check, ◌>>=◌, ◌>>◌, transaction, unhandled,
}
use esscher_market.Risk.Ledger.Passport.{append_passport}
use esscher_market.Risk.Ledger.Queries.{candidate_exists, not_run_exists, reservation_for_event}

-- `_validated_candidate`: the arguments, each checked, as the row to insert.
unfoldable pub validated_candidate : Candidate → Action Candidate
validated_candidate c = do
  check (identifier c.event_id)
  check (identifier c.candidate_id)
  check (sha256 c.policy_sha256)
  check (sha256 c.decision_sha256)
  check (sha256 c.expression_sha256)
  check (identifier c.evidence_mode)
  pure c

-- `_insert_candidate`; `event_id` is the primary key.
unfoldable pub insert_candidate : Candidate → Action (Unit {0})
insert_candidate c = do
  constraint (not (← gets (candidate_exists c.event_id)))
  modify (λ l. record l { candidates = l.candidates ++ c ∷ [] })

-- The guards that `record_candidate` and `freeze_candidate` share, and the insert.
unfoldable pub add_candidate : Candidate → Action (Unit {0})
unfolding insert_candidate
add_candidate c = do
  reject_if (← gets (candidate_exists c.event_id)) immutable_event_replay
  reject_if (← gets (not_run_exists c.event_id)) not_run_event
  insert_candidate c

unfoldable pub record_candidate : Candidate → Action (Unit {0})
unfolding validated_candidate
record_candidate c = do valid ← validated_candidate c; transaction unhandled (add_candidate valid)

module _ (host : Host) where
  candidate_payload : Candidate → Fields
  candidate_payload c = fields (
      (text "event_id", string c.event_id)
      ∷ (text "candidate_id", string c.candidate_id)
      ∷ (text "risk_policy_sha256", string c.policy_sha256)
      ∷ (text "decision_sha256", string c.decision_sha256)
      ∷ (text "compiled_expression_sha256", string c.expression_sha256)
      ∷ (text "evidence_mode", string c.evidence_mode)
      ∷ [])

  unfoldable pub freeze_body : Candidate → Action (Unit {0})
  unfolding add_candidate candidate_payload
  freeze_body c = do
    add_candidate c
    append_passport host candidate_frozen (candidate_payload c) c.created_at

  unfoldable pub freeze_candidate : Candidate → Action (Unit {0})
  unfolding validated_candidate
  freeze_candidate c = do valid ← validated_candidate c; transaction unhandled (freeze_body valid)

  -- The body of `_record_not_run`; `event_id` is the primary key of `not_run`.
  unfoldable pub not_run_body : NotRun → Bool → Action (Unit {0})
  not_run_body n with_passport = do
    reject_if (← gets (not_run_exists n.event_id)) immutable_event_replay
    reject_if (is_some (← gets (reservation_for_event n.event_id))) event_lifecycle_invalid
    constraint (not (← gets (not_run_exists n.event_id)))
    modify (λ l. record l { not_run = l.not_run ++ n ∷ [] })
    (if with_passport
        then append_passport host not_run
            (fields ((text "event_id", string n.event_id) ∷ (text "reason", string n.reason) ∷ []))
            n.created_at
        else pure tt)

  -- `_record_not_run`: `record_not_run` without a passport event, `mark_not_run` with one.
  unfoldable pub record_not_run : NotRun → Bool → Action (Unit {0})
  record_not_run n with_passport = do
    check (identifier n.event_id)
    check (identifier n.reason)
    transaction unhandled (not_run_body n with_passport)
