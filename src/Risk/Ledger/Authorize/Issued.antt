-- ===== src/Risk/Ledger/Authorize/Issued.antt =====
-- What `reserve_and_issue_permit` needs of the ledger and what it writes.
use esscher_market.Base.{
  ℕ, ◌+◌, ◌≤◌, ◌<◌, true, false, none, some, [], ◌∷◌, ◌++◌, any, is_some, leb, ltb, ◌≡◌, ap, ◌↔◌,
  arith,
}
use esscher_market.Base.Text.{same}
use esscher_market.Base.Json.{Fields, Host}
use esscher_market.Base.Result.{ok, is_ok}
use esscher_market.Risk.Passport.{PassportEventType, reservation_held, permit_issued}
use esscher_market.Risk.Ledger.Rows.{Candidate, Reservation, reserved, Permit, PermitState, Ledger}
use esscher_market.Risk.Ledger.Monad.{pure, ◌>>=◌, ◌>>◌}
use esscher_market.Risk.Ledger.Queries.{
  candidate_for_event, not_run_exists, reservation_for_event, permit_by_id, sum_open, count_open,
  entries_today,
}
use esscher_market.Risk.Ledger.Reservations.{
  reservation_id_of, insert_reservation, insert_permit, reservation_conflict,
}
use esscher_market.Risk.Ledger.Passport.{append_passport}
use esscher_market.Risk.Ledger.Passport.Verified.{event_text-identifier, appended}
use esscher_market.Risk.Ledger.Ensures.{
  Ensures, Ensures-always, Ensures-returned, Ensures-bind, Ensures-modify, Ensures-reject_if,
  then_gets, then_reject_if, then_or_reject, then_constraint,
}
use esscher_market.Risk.Ledger.Authorize.{
  Order, order_payload, is_bound, require_authorized, issue_body,
}

-- The rows that the order writes.
abbrev pub reservation_row : Order → Reservation
reservation_row o = record {
  reservation_id = reservation_id_of o.event;
  event_id = o.event;
  amount = o.exposure;
  state = reserved;
  underlying = o.symbol;
  created_at = o.created;
  updated_at = o.created;
}

abbrev pub permit_row : Order → Permit
permit_row o = record {
  permit_id = o.issued_permit_id;
  event_id = o.event;
  reservation_id = reservation_id_of o.event;
  permit_sha256 = o.permit_sha256;
  state = PermitState.issued;
  created_at = o.created;
  updated_at = o.created;
}

-- The event was not abstained from, its candidate is frozen under the order's identities, nothing
-- is reserved for it, every budget has room, and its permit is new.
abbrev pub IsAuthorizable : Order → Ledger → Type 0
IsAuthorizable o l =
    (not_run_exists o.event l ≡ false)
    × ((frozen : Candidate) × (candidate_for_event o.event l ≡ some frozen)
        × (same frozen.policy_sha256 o.policy ≡ true)
        × (is_bound o frozen ≡ true))
    × (is_some (reservation_for_event o.event l) ≡ false)
    × (entries_today o.created l.reservations < o.max_entries)
    × (count_open l.reservations < o.max_open)
    × (sum_open l.reservations + o.exposure ≤ o.aggregate)
    × (any (reservation_conflict (reservation_row o)) l.reservations ≡ false)
    × (permit_by_id o.issued_permit_id l ≡ none)

two_receipts :
    {A : Type 0} (host : Host) (t u : PassportEventType) (payload : Fields) (now : ℕ) (v : A)
    → (l : Ledger)
    → (append_passport host t payload now >> (append_passport host u payload now >> pure v)) l
      ≡ (ok v, appended host u payload now (appended host t payload now l))
unfolding append_passport ◌>>=◌
two_receipts host t u payload now v l = rw (event_text-identifier t, event_text-identifier u)

module _ (host : Host) (o : Order) (l : Ledger) where
  issue_body-needs : Ensures (issue_body host o) l (λ _ _. IsAuthorizable o l)
  unfolding issue_body require_authorized insert_reservation insert_permit
  issue_body-needs = Ensures-bind _ _ l (
      then_gets _ _ (
        then_reject_if _ _ _ λ absent. then_gets _ _ (
          then_or_reject _ _ _ λ frozen found. then_reject_if _ _ _ λ policy.
            then_reject_if _ _ _ λ bound. then_gets _ _ (
              then_reject_if _ _ _ λ new. then_gets _ _ (
                then_reject_if _ _ _ λ daily. then_reject_if _ _ _ λ few.
                  Ensures-reject_if _ _ l λ fits. Ensures-bind _ _ l (
                    then_gets _ _ (
                      then_constraint _ _ λ fresh. Ensures-modify _ l (
                        Ensures-bind _ _ _ (
                          then_gets _ _ (
                            then_constraint _ _ λ unused. Ensures-modify _ _ (
                              Ensures-always _ _ (
                                absent,
                                (frozen, found, ground arith, ground arith),
                                new,
                                ground arith,
                                ground arith,
                                ground arith,
                                ground arith,
                                ground arith,
                              ))))))))))))

  -- The ledger with the order's rows.
  abbrev rows_added : Ledger
  rows_added = record l {
    reservations = l.reservations ++ reservation_row o ∷ [];
    permits = l.permits ++ permit_row o ∷ [];
  }

  -- The ledger after the order's rows and its two receipts.
  abbrev pub issued_ledger : Ledger
  issued_ledger =
      appended host permit_issued (order_payload host o) o.created
        (appended host reservation_held (order_payload host o) o.created rows_added)

  -- Where the order is authorizable the body returns the three identifiers and leaves the ledger with the new rows and receipts.
  issue_body-accepts :
      IsAuthorizable o l
      → issue_body host o l
        ≡ (ok (reservation_id_of o.event, o.issued_permit_id, o.permit_sha256), issued_ledger)
  unfolding issue_body ◌>>=◌ require_authorized insert_reservation insert_permit
  issue_body-accepts
        (absent, (frozen, found, policy, bound), new, daily, few, fits, fresh, unused) =
      let d : leb o.max_entries (entries_today o.created l.reservations) ≡ false = ground arith in
      let f : leb o.max_open (count_open l.reservations) ≡ false = ground arith in
      let s : ltb o.aggregate (sum_open l.reservations + o.exposure) ≡ false = ground arith in
      rw (absent, found, policy, bound, new, d, f, s, fresh, unused)
        (two_receipts host reservation_held permit_issued (order_payload host o) o.created _
          rows_added)

  -- The body of `reserve_and_issue_permit` returns exactly where the event was not abstained from,
  -- its candidate is frozen under the order's policy, decision and expression, nothing is reserved
  -- for it, fewer than the allowed entries were made on the day, fewer than the allowed rows are
  -- open, the exposure fits under the aggregate limit, and the permit is new; it then appends the
  -- reservation, the permit and two receipts.
  pub issue_body_iff :
      ((is_ok (issue_body host o l).0 ≡ true) ↔ IsAuthorizable o l)
      × (IsAuthorizable o l
          → issue_body host o l
            ≡ (ok (reservation_id_of o.event, o.issued_permit_id, o.permit_sha256), issued_ledger))
  issue_body_iff = (
    (
      Ensures-returned (issue_body host o) l issue_body-needs,
      λ h. ap (λ r. is_ok r.0) (issue_body-accepts h),
    ),
    issue_body-accepts,
  )
