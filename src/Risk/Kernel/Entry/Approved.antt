-- ===== src/Risk/Kernel/Entry/Approved.antt =====
-- What an approval of `authorize_entry` tells (src/esscher/risk/kernel.py).
use esscher_market.Base.{ℕ, ◌+◌, ◌≤◌, ◌<◌, true, false, List, [], ◌∷◌, ◌++◌, any, arith, ◌≡◌, refl}
use esscher_market.Base.Text.{Text, same_iff}
use esscher_market.Base.Int.{pos, ◌-ℤ◌, ◌≤ℤ◌, leb_ℤ, finite}
use esscher_market.Base.Json.{Host}
use esscher_market.Base.Result.{ok}
use esscher_market.Execution.Expression.{CompiledExpression}
use esscher_market.Execution.Models.{DebitVerticalPermit, maximum_loss, debit_vertical_permit_id}
use esscher_market.Risk.Reasons.{ControlState}
use esscher_market.Risk.Controls.{entry_allowed}
use esscher_market.Risk.Exposure.{expression_exposure}
use esscher_market.Risk.Policy.{RiskPolicy, constants_verified}
use esscher_market.Risk.Snapshots.{
  AccountSnapshot, PositionSnapshot, OrderSnapshot, is_partial_fill,
}
use esscher_market.Risk.Ledger.Rows.{Ledger}
use esscher_market.Risk.Ledger.Queries.{sum_open_for}
use esscher_market.Risk.Ledger.Records.{
  get_control_state, record_account_snapshot, intraday_peak_equity,
}
use esscher_market.Risk.Checks.{finite_decimal}
use esscher_market.Risk.Ledger.Ensures.{
  Ensures, Ensures-bind, Ensures-modify, Ensures-pure, Ensures-map, Ensures-always, Ensures-value,
  then_check, then_gets, then_reject_if,
}
use esscher_market.Risk.Kernel.Truth.{Truth, observed_truth}
use esscher_market.Risk.Kernel.Entry.{
  Entry, RiskApproval, gross_existing, require_limits, issue, authorize_entry,
}
use esscher_market.Risk.Kernel.Entry.Unchanged.{
  then_reads, trip_if-reads, truth_or_trip-reads, binding-reads, allowed-reads, affordable-reads,
}
use esscher_market.Risk.Kernel.Permit.{validate_permit_binding}

-- The permit is its own canonical identity, active at `now`, and its maximum loss is `exposure`.
pub record IsPermitFor (host : Host) (permit : DebitVerticalPermit) (now exposure : ℕ)
    : Type 0 where
  pub identity : permit.permit_id ≡ debit_vertical_permit_id host permit
  pub begun : permit.issued_at ≤ now
  pub unexpired : now < permit.expires_at
  pub loss : maximum_loss permit ≡ exposure

pub permit_binding-IsPermitFor :
    (host : Host) (permit : DebitVerticalPermit) (compiled : CompiledExpression) (policy : Text)
    (now exposure : ℕ)
    → validate_permit_binding host permit compiled policy now ≡ ok tt
    → expression_exposure host compiled ≡ ok exposure
    → IsPermitFor host permit now exposure
unfolding validate_permit_binding
permit_binding-IsPermitFor host permit compiled policy now exposure h x =
    let own = same_iff permit.permit_id (debit_vertical_permit_id host permit) in
    record {
      identity = ground (arith, own);
      begun = ground arith;
      unexpired = ground arith;
      loss = ground arith;
    }

-- The ledger with the account's equity recorded.
abbrev pub with_equity : AccountSnapshot → ℕ → Ledger → Ledger
with_equity account now l = record l {
  accounts = l.accounts ++ record { equity = account.equity; observed_at = now } ∷ [];
}

-- The limits of the policy on the account and on one underlying.
pub record IsWithinLimits (policy : RiskPolicy) (l : Ledger) (symbol : Text) (exposure : ℕ)
    (account : AccountSnapshot) (positions : List PositionSnapshot) (now : ℕ) : Type 0 where
  pub daily_loss :
      (intraday_peak_equity now (with_equity account now l) -ℤ account.equity)
      ≤ℤ pos policy.daily_loss_limit
  pub drawdown : (pos policy.account_capital -ℤ account.equity) ≤ℤ pos policy.drawdown_limit
  pub above_threshold : leb_ℤ account.equity (pos policy.close_only_equity_threshold) ≡ false
  pub concentration :
      gross_existing symbol positions + sum_open_for symbol l.reservations + exposure
      ≤ policy.concentration_limit

record_account_snapshot-with_equity :
    (account : AccountSnapshot) (now : ℕ) (l : Ledger)
    → Ensures
        (record_account_snapshot (finite account.equity) now)
        l
        (λ _ l'. l' ≡ with_equity account now l)
unfolding record_account_snapshot finite_decimal
record_account_snapshot-with_equity account now l =
    then_check _ _
      λ equity own. Ensures-modify _ l (let q : equity ≡ account.equity = cc in rw q refl)

module _ (host : Host) (policy : RiskPolicy) where
  require_limits-IsWithinLimits :
      (symbol : Text) (exposure : ℕ) (account : AccountSnapshot) (positions : List PositionSnapshot)
      (now : ℕ) (l : Ledger)
      → Ensures
          (require_limits host policy symbol exposure account positions now)
          l
          (λ _ _. IsWithinLimits policy l symbol exposure account positions now)
  unfolding require_limits
  require_limits-IsWithinLimits symbol exposure account positions now l = Ensures-bind _ _ l (
      Ensures-map
        (λ _ l' stored. rw stored (
          then_gets _ _ (
            then_reads (λ _. _) _ _ _ (trip_if-reads host _ _ _ now _)
              λ _ daily.
                then_reads (λ _. _) _ _ _ (trip_if-reads host _ _ _ now _)
                  λ _ drawn.
                    then_reads (λ _. _) _ _ _ (trip_if-reads host _ _ _ now _)
                      λ _ above. then_gets _ _ (
                        Ensures-map
                          (λ _ _ (concentrated, _). record {
                            daily_loss = ground arith;
                            drawdown = ground arith;
                            above_threshold = above;
                            concentration = ground arith;
                          })
                          (trip_if-reads host _ _ _ now _)))))
        (record_account_snapshot-with_equity account now l))

  -- The entry was allowed by the state of the ledger `l`, by the policy and by the truth `seen`.
  pub record IsApproved (e : Entry) (truth : Truth) (now : ℕ) (l : Ledger) (a : RiskApproval)
      : Type 0 where
    pub allowed : entry_allowed (get_control_state l).0 ≡ true
    pub verified : constants_verified policy ≡ true
    pub seen : AccountSnapshot × List PositionSnapshot × List OrderSnapshot
    pub fresh : observed_truth policy.truth_max_age_seconds now truth ≡ ok seen
    pub whole : any is_partial_fill seen.2 ≡ false
    pub permit : IsPermitFor host e.permit now a.exposure
    pub issued : a.permit_id ≡ e.permit.permit_id
    pub budgeted : a.exposure ≤ policy.per_event_loss_budget
    pub affordable : pos a.exposure ≤ℤ seen.0.buying_power
    pub limited : IsWithinLimits policy l e.underlying a.exposure seen.0 seen.1 now

  issue-permit :
      (e : Entry) (event symbol active_policy : Text) (exposure : ℕ) (state : ControlState)
      (now : ℕ) (l : Ledger)
      → Ensures
          (issue host policy e event symbol active_policy exposure state now)
          l
          (λ a _. (a.exposure ≡ exposure) × (a.permit_id ≡ e.permit.permit_id))
  unfolding issue
  issue-permit e event symbol active_policy exposure state now l = then_check _ _ λ _ _.
      Ensures-bind _ _ l (
        Ensures-map
          (λ receipt l' _. then_reject_if _ _ _ λ kept.
            Ensures-pure _ l' (refl, (same_iff receipt.1 e.permit.permit_id).0 (ground arith)))
          (Ensures-always _ l tt))

  authorize-IsApproved :
      (e : Entry) (truth : Truth) (now : ℕ) (l : Ledger)
      → Ensures (authorize_entry host policy e truth now) l (λ a _. IsApproved e truth now l a)
  unfolding authorize_entry
  authorize-IsApproved e truth now l =
      then_reads _ _ _ l (allowed-reads host policy l) λ state (here, allowed, verified).
        then_reads _ _ _ l
          (binding-reads host policy e.event_id e.underlying e.candidate_id e.compiled l)
          λ bound named. then_check _ _ λ _ bound_permit.
            then_reads _ _ _ l (truth_or_trip-reads host _ now l) λ seen fresh.
              then_reads _ _ _ l (trip_if-reads host _ _ _ now l) λ _ whole.
                then_check _ _ λ exposure own.
                  then_reads _ _ _ l (affordable-reads host policy exposure seen.0 l)
                    λ _ (budgeted, affordable). Ensures-bind _ _ l (
                      Ensures-map
                        (λ _ l' limited.
                          Ensures-map
                            (λ a _ (same_exposure, issued). record {
                              allowed = rw (← here) allowed;
                              verified = verified;
                              seen = seen;
                              fresh = fresh;
                              whole = whole;
                              permit = rw same_exposure (
                                  permit_binding-IsPermitFor host e.permit e.compiled _ now exposure
                                    bound_permit own);
                              issued = issued;
                              budgeted = rw same_exposure budgeted;
                              affordable = rw same_exposure affordable;
                              limited = rw (same_exposure, ← named) limited;
                            })
                            (issue-permit e bound.0 bound.1 bound.2 exposure state now l'))
                        (require_limits-IsWithinLimits bound.1 exposure seen.0 seen.1 now l))

  -- An entry is approved only in the state `ACTIVE`, under a policy with verified constants, on fresh
  -- truth without a partial fill, for a permit that is its own canonical identity, is active and
  -- loses at most the approved exposure; and that exposure is within the loss budget, the buying
  -- power, the daily loss, drawdown and close-only limits and the concentration limit of its
  -- underlying.
  pub authorize_entry-IsApproved :
      (e : Entry) (truth : Truth) (now : ℕ) (l : Ledger) (approval : RiskApproval)
      → (authorize_entry host policy e truth now l).0 ≡ ok approval
      → IsApproved e truth now l approval
  authorize_entry-IsApproved e truth now l approval h =
      Ensures-value (authorize_entry host policy e truth now) l approval
        (authorize-IsApproved e truth now l) h
