-- ===== src/Risk/Kernel/Entry/Unchanged.antt =====
-- The statements of `authorize_entry` that only read the ledger (src/esscher/risk/kernel.py): what
-- each ensures when it returns.
use esscher_market.Base.{ℕ, ◌≤◌, Bool, true, false, arith, ◌≡◌, refl}
use esscher_market.Base.Text.{Text}
use esscher_market.Base.Int.{pos, ◌≤ℤ◌}
use esscher_market.Base.Json.{Host}
use esscher_market.Base.Result.{Result, ok, err}
use esscher_market.Execution.Expression.{CompiledExpression}
use esscher_market.Risk.Reasons.{
  RiskReason, Failure, rejected, type_error, integrity_error, truth_error,
}
use esscher_market.Risk.Controls.{ControlTrigger, entry_allowed}
use esscher_market.Risk.Policy.{RiskPolicy, constants_verified}
use esscher_market.Risk.Snapshots.{AccountSnapshot}
use esscher_market.Risk.Checks.{underlying, identifier}
use esscher_market.Risk.Ledger.Rows.{Ledger}
use esscher_market.Risk.Ledger.Monad.{Action, raise, fail, ◌>>=◌}
use esscher_market.Risk.Ledger.Records.{get_control_state}
use esscher_market.Risk.Ledger.Ensures.{
  Ensures, Ensures-bind, Ensures-map, Ensures-pure, Ensures-raise, Ensures-always, then_gets,
  then_check, then_or_reject, then_reject_if, Ensures-reject_if,
}
use esscher_market.Risk.Kernel.Control.{apply_trigger}
use esscher_market.Risk.Kernel.Binding.{validate_candidate_binding}
use esscher_market.Risk.Kernel.Entry.{
  trip_if, truth_or_trip, require_entry_allowed, require_affordable,
}

-- If `m` returns, then `P` holds of what it returns and the ledger is as it was.
abbrev pub Reads : {A : Type 0} → (A → Type 0) → Action A → Type 0
Reads P m = (l : Ledger) → Ensures m l (λ a l'. P a × (l' ≡ l))

-- One such statement of a do block, then the rest.
pub then_reads :
    {A B : Type 0} (P : A → Type 0) {Q : B → Ledger → Type 0} (m : Action A) (f : A → Action B)
    (l : Ledger)
    → Ensures m l (λ a l'. P a × (l' ≡ l))
    → ((a : A) → P a → Ensures (f a) l Q)
    → Ensures (m >>= f) l Q
then_reads P {Q} m f l h k = Ensures-bind m f l (Ensures-map (λ a l' (p, q). rw q (k a p)) h)

pub identifier-value : (value name : Text) → identifier value ≡ ok name → name ≡ value
unfolding identifier
identifier-value value name h = ground arith

pub underlying-value : (value name : Text) → underlying value ≡ ok name → name ≡ value
unfolding underlying identifier
underlying-value value name h = ground arith

module _ (host : Host) where
  pub raise_after :
      {A B : Type 0} {Q : B → Ledger → Type 0} (m : Action A) (r : RiskReason) (l : Ledger)
      → Ensures (m >>= λ _. raise r) l Q
  raise_after m r l =
      Ensures-bind m _ l (Ensures-map (λ a l' _. Ensures-raise r l') (Ensures-always m l tt))

  pub trip_if-reads :
      (b : Bool) (t : ControlTrigger) (r : RiskReason) (now : ℕ) (l : Ledger)
      → Ensures (trip_if host b t r now) l (λ _ l'. (b ≡ false) × (l' ≡ l))
  unfolding trip_if
  trip_if-reads true t r now l = raise_after (apply_trigger host t now) r l
  trip_if-reads false t r now l = Ensures-pure tt l (refl, refl)

  pub truth_or_trip-reads :
      {A : Type 0} (r : Result Failure A) (now : ℕ) (l : Ledger)
      → Ensures (truth_or_trip host r now) l (λ a l'. (r ≡ ok a) × (l' ≡ l))
  unfolding truth_or_trip fail
  truth_or_trip-reads (ok a) now l = Ensures-pure a l (refl, refl)
  truth_or_trip-reads (err (rejected reason)) now l = raise_after _ reason l
  truth_or_trip-reads (err type_error) now l = raise_after _ _ l
  truth_or_trip-reads (err integrity_error) now l = record { at = tt }
  truth_or_trip-reads (err truth_error) now l = record { at = tt }

  module _ (policy : RiskPolicy) where
    pub binding-reads :
        (event symbol candidate : Text) (compiled : CompiledExpression) (l : Ledger)
        → Ensures
            (validate_candidate_binding host policy event symbol candidate compiled)
            l
            (λ bound l'. (bound.1 ≡ symbol) × (l' ≡ l))
    unfolding validate_candidate_binding
    binding-reads event symbol candidate compiled l = then_check _ _ λ _ _.
        then_check _ _ λ name own. then_check _ _ λ _ _. then_check _ _ λ _ _.
          then_reject_if _ _ _ λ _. then_check _ _ λ _ _. then_reject_if _ _ _ λ _. then_gets _ _ (
            then_reject_if _ _ _ λ _. then_gets _ _ (
              then_or_reject _ _ _ λ _ _. then_reject_if _ _ _ λ _. then_check _ _ λ _ _.
                then_reject_if _ _ _
                  λ _. Ensures-pure _ l (underlying-value symbol name own, refl)))

    pub allowed-reads :
        (l : Ledger)
        → Ensures (require_entry_allowed host policy) l (λ s l'.
          ((s ≡ (get_control_state l).0)
            × (entry_allowed s ≡ true)
            × (constants_verified policy ≡ true))
          × (l' ≡ l))
    unfolding require_entry_allowed
    allowed-reads l = then_reject_if _ _ _ λ verified. then_reject_if _ _ _ λ _. then_gets _ _ (
        then_reject_if _ _ _ λ allowed. Ensures-pure _ l ((refl, ground arith, ground arith), refl))

    pub affordable-reads :
        (exposure : ℕ) (account : AccountSnapshot) (l : Ledger)
        → Ensures (require_affordable host policy exposure account) l (λ _ l'.
          ((exposure ≤ policy.per_event_loss_budget) × (pos exposure ≤ℤ account.buying_power))
          × (l' ≡ l))
    unfolding require_affordable
    affordable-reads exposure account l =
        then_reject_if _ _ _
          λ budget. Ensures-reject_if _ _ l λ power. ((ground arith, ground arith), refl)
