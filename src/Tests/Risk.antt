-- ===== src/Tests/Risk.antt =====
-- The theorems on controls, freshness, permits and passports at concrete inputs.
use esscher_market.Base.{
  some, ◌+◌, ◌≤◌, ap, ◌*◌, ◌<◌, true, false, any, All, map, length, none, List, [], ◌∷◌, ◌≡◌, ◌≢◌,
  refl, ◌⊎◌, ◌↔◌,
}
use esscher_market.Base.Int.{pos}
use esscher_market.Base.Text.{text, same, strip}
use esscher_market.Base.Json.{string, get, end, object}
use esscher_market.Base.Result.{ok, err}
use esscher_market.Execution.Models.{
  debit_vertical_permit_id, maximum_loss, is_debit_vertical_permit,
}
use esscher_market.Execution.Models.Bounds.{settlement, maximum_loss_lem}
use esscher_market.Risk.Reasons.{
  active, close_only, kill, manual_required, contradictory_truth, stale_position_truth,
}
use esscher_market.Risk.Checks.{is_sha256}
use esscher_market.Risk.Controls.{
  ControlTrigger, kill_request, resolved, non_flat_state, next_control_state, entry_allowed,
  close_allowed, run_controls, apply_control,
}
use esscher_market.Risk.Controls.Traces.{
  next_control_state-authority, kill_is_final, entry_needs_resolved, is_resolved,
}
use esscher_market.Risk.Snapshots.{
  AccountSnapshot, PositionSnapshot, OrderSnapshot, validate_positions_freshness,
}
use esscher_market.Risk.Snapshots.Freshness.{IsFresh, validate_positions_freshness_iff}
use esscher_market.Risk.Passport.{
  PassportEvent, Link, genesis_sha256, link_of, passport_event_sha256, verify_passport,
}
use esscher_market.Risk.Passport.Chain.{verify_passport-IsChain}
use esscher_market.Risk.Passport.Tamper.{IsWriter, content_of, IsBroken, head_determines_chain}
use esscher_market.Tests.Codec.{dumps_injective, print, size}
use esscher_market.Tests.Data.{sample_host, spy_permit}

abbrev handled : List ControlTrigger
handled = non_flat_state ∷ kill_request ∷ resolved ∷ []

kill_is_final_example :
    (run_controls active handled ≡ kill)
    × (entry_allowed (run_controls active handled) ≡ false)
    × (close_allowed (run_controls active handled) ≡ false)
kill_is_final_example = kill_is_final active handled refl

abbrev recovery : List ControlTrigger
recovery = non_flat_state ∷ resolved ∷ []

manual_blocks : entry_allowed manual_required ≡ false
unfolding entry_allowed
manual_blocks = refl

recovers : entry_allowed (run_controls manual_required recovery) ≡ true
unfolding entry_allowed run_controls apply_control
recovers = refl

entry_needs_resolved_example : any is_resolved recovery ≡ true
entry_needs_resolved_example = entry_needs_resolved manual_required recovery manual_blocks recovers

closes : next_control_state active non_flat_state ≡ ok close_only
unfolding next_control_state
closes = refl

next_control_state-authority_example :
    (entry_allowed close_only ≡ true → (non_flat_state ≡ resolved) × (active ≢ kill))
    × (close_allowed active ≡ true
        → close_allowed close_only ≡ false
        → non_flat_state ≡ kill_request)
next_control_state-authority_example =
    next_control_state-authority active close_only non_flat_state closes

-- One position seen at five seconds.
abbrev seen : List PositionSnapshot
seen =
    record {
      underlying = text "SPY";
      quantity = pos 1;
      market_value = pos 300;
      observed_at = 5000000;
    }
    ∷ []

validate_positions_freshness_iff_example :
    let r = validate_positions_freshness 30 9000000 seen in
    ((r ≡ ok seen) ↔ All (λ p. IsFresh 30 9000000 p.observed_at) seen)
    × ((r ≡ ok seen) ⊎ (r ≡ err contradictory_truth) ⊎ (r ≡ err stale_position_truth))
validate_positions_freshness_iff_example = validate_positions_freshness_iff 30 9000000 seen

abbrev working : List OrderSnapshot
working =
    record {
      order_id = text "order-1";
      symbol = text "SPY";
      status = text "NEW";
      filled_quantity = pos 0;
      observed_at = 5000000;
    }
    ∷ []

abbrev spy_account : AccountSnapshot
spy_account = record {
  equity = pos 100000;
  buying_power = pos 50000;
  currency = text "USD";
  observed_at = 5000000;
  cash = none;
}

spy_permit_is_valid : is_debit_vertical_permit spy_permit ≡ true
unfolding is_debit_vertical_permit same strip debit_vertical_permit_id print size is_sha256
spy_permit_is_valid = refl

maximum_loss_lem_example :
    (spy_permit.limit_price * 100 + settlement spy_permit.short_leg 503
      ≤ maximum_loss spy_permit + settlement spy_permit.long_leg 503)
    × (spy_permit.limit_price * 100 + settlement spy_permit.short_leg spy_permit.long_leg.strike
        ≡ maximum_loss spy_permit + settlement spy_permit.long_leg spy_permit.long_leg.strike)
    × (spy_permit.limit_price * 100 + settlement spy_permit.short_leg spy_permit.short_leg.strike
        < settlement spy_permit.long_leg spy_permit.short_leg.strike)
maximum_loss_lem_example = maximum_loss_lem spy_permit 503 spy_permit_is_valid

abbrev first_link : Link
first_link = record {
  event_type = text "CANDIDATE_FROZEN";
  payload = end;
  prev_sha256 = genesis_sha256;
  created_at = text "2026-01-05T00:00:00Z";
}

-- A passport of one event.
abbrev short_passport : List PassportEvent
short_passport =
    record {
      event_type = text "CANDIDATE_FROZEN";
      payload = object end;
      prev_sha256 = genesis_sha256;
      event_sha256 = passport_event_sha256 sample_host first_link;
      created_at = text "2026-01-05T00:00:00Z";
    }
    ∷ []

short_passport_verifies : verify_passport sample_host short_passport ≡ ok (length short_passport)
unfolding link_of
short_passport_verifies = (verify_passport-IsChain sample_host short_passport).1 (refl, refl, tt)

sample_host-IsWriter : IsWriter sample_host
sample_host-IsWriter = record {
  values = λ fs gs _ _ e name v w h k.
      let objects = dumps_injective (object fs) (object gs) e in
      let same_objects : fs ≡ gs = cc in
      let found : get name fs ≡ some w = rw same_objects k in
      let same_values : v ≡ w = cc in ap (λ x. sample_host.dumps x) same_values;
  texts = λ s t e. let texts = dumps_injective (string s) (string t) e in cc;
}

head_determines_chain_example :
    (map (content_of sample_host) short_passport ≡ map (content_of sample_host) short_passport)
    ⊎ IsBroken sample_host short_passport short_passport
head_determines_chain_example =
    head_determines_chain sample_host sample_host-IsWriter short_passport short_passport
      short_passport_verifies short_passport_verifies refl
