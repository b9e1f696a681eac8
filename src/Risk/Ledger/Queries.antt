-- ===== src/Risk/Ledger/Queries.antt =====
-- The ledger's SELECT statements (src/esscher/risk/ledger.py). `fetchone` gives the first row in
-- rowid order.
use esscher_market.Base.{
  ℕ, ◌+◌, ◌/◌, Bool, true, false, ◌&&◌, Option, List, [], ◌∷◌, find, filter, count, is_some, ◌==◌,
  if◌then◌else◌,
}
use esscher_market.Base.Text.{Text, same}
use esscher_market.Risk.Ledger.Rows.{
  Candidate, Reservation, ReservationState, reserved, consumed, released, Permit, Submission, Fill,
  NotRun, LifecycleIntent, Ledger,
}

-- `WHERE event_id=?` over the tables, and `WHERE permit_id=?`.
abbrev pub of_event : Text → Reservation → Bool
of_event event r = same r.event_id event

abbrev pub candidate_of : Text → Candidate → Bool
candidate_of event c = same c.event_id event

abbrev pub not_run_of : Text → NotRun → Bool
not_run_of event n = same n.event_id event

abbrev pub permit_of_event : Text → Permit → Bool
permit_of_event event p = same p.event_id event

abbrev pub has_permit_id : Text → Permit → Bool
has_permit_id permit p = same p.permit_id permit

abbrev pub submission_of : Text → Submission → Bool
submission_of permit s = same s.permit_id permit

abbrev pub intent_of : Text → LifecycleIntent → Bool
intent_of permit i = same i.permit_id permit

abbrev pub intent_of_phase : Text → Text → LifecycleIntent → Bool
intent_of_phase event phase i = same i.event_id event && same i.phase phase

-- `candidate_for_event`.
abbrev pub candidate_for_event : Text → Ledger → Option Candidate
candidate_for_event event l = find (candidate_of event) l.candidates

-- `_candidate_exists`.
abbrev pub candidate_exists : Text → Ledger → Bool
candidate_exists event l = is_some (find (candidate_of event) l.candidates)

-- `_not_run_exists`.
abbrev pub not_run_exists : Text → Ledger → Bool
not_run_exists event l = is_some (find (not_run_of event) l.not_run)

-- `_reservation_for_event`.
abbrev pub reservation_for_event : Text → Ledger → Option Reservation
reservation_for_event event l = find (of_event event) l.reservations

-- `_permit_for_event`.
abbrev pub permit_for_event : Text → Ledger → Option Permit
permit_for_event event l = find (permit_of_event event) l.permits

-- `_permit`.
abbrev pub permit_by_id : Text → Ledger → Option Permit
permit_by_id permit l = find (has_permit_id permit) l.permits

-- `_submission_for_permit`.
abbrev pub submission_for_permit : Text → Ledger → Option Submission
submission_for_permit permit l = find (submission_of permit) l.submissions

-- `fills_for_permit`.
unfoldable pub fills_for_permit : Text → Ledger → List Fill
fills_for_permit permit l = filter (λ f. same f.permit_id permit) l.fills

-- `lifecycle_intent_for_permit`.
abbrev pub lifecycle_intent_for_permit : Text → Ledger → Option LifecycleIntent
lifecycle_intent_for_permit permit l = find (intent_of permit) l.intents

-- `lifecycle_intent_for_event_phase`.
unfoldable pub lifecycle_intent_for_event_phase : Text → Text → Ledger → Option LifecycleIntent
lifecycle_intent_for_event_phase event phase l = find (intent_of_phase event phase) l.intents

-- `state IN ('RESERVED', 'CONSUMED')`.
abbrev pub is_open : ReservationState → Bool
is_open reserved = true
is_open consumed = true
is_open released = false

-- What a row counts for in `SELECT amount ... WHERE state IN ('RESERVED', 'CONSUMED')`.
abbrev pub open_amount : Reservation → ℕ
open_amount r = if is_open r.state then r.amount else 0

-- `_sum_open_reservations` over all underlyings: `open_reservation_total`.
unfoldable pub sum_open : List Reservation → ℕ
sum_open [] = 0
sum_open (r ∷ rest) = open_amount r + sum_open rest

-- `open_reservation_total_for_underlying`.
unfoldable pub sum_open_for : Text → List Reservation → ℕ
sum_open_for underlying [] = 0
sum_open_for underlying (r ∷ rest) =
    (if same r.underlying underlying then open_amount r else 0) + sum_open_for underlying rest

-- `open_reservation_count`.
unfoldable pub count_open : List Reservation → ℕ
count_open [] = 0
count_open (r ∷ rest) = (if is_open r.state then 1 else 0) + count_open rest

-- Microseconds in a day: the first ten characters of two time texts are equal exactly when the
-- instants lie on one day.
abbrev pub day : ℕ
day = 86400000000

-- `entries_today`.
unfoldable pub entries_today : ℕ → List Reservation → ℕ
entries_today now = count (λ r. (r.created_at / day) == (now / day))
