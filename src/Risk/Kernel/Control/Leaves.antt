-- ===== src/Risk/Kernel/Control/Leaves.antt =====
-- What a trigger leaves (src/esscher/risk/kernel.py).
use esscher_market.Base.{ℕ, false, Option, arith, ◌≡◌, refl, ◌≢◌}
use esscher_market.Base.Json.{Fields, Host}
use esscher_market.Base.Text.{Text}
use esscher_market.Risk.Passport.{control_state_changed}
use esscher_market.Risk.Ledger.Passport.Verified.{event_text-identifier}
use esscher_market.Base.Result.{ok}
use esscher_market.Risk.Reasons.{ControlState, active, RiskReason, Checked}
use esscher_market.Risk.Controls.{ControlTrigger, resolved, next_control_state, apply_control}
use esscher_market.Risk.Ledger.Rows.{Ledger}
use esscher_market.Risk.Ledger.Passport.{append_passport}
use esscher_market.Risk.Ledger.Monad.{Action, pure, gets, check, ◌>>=◌, ◌>>◌, transaction}
use esscher_market.Risk.Ledger.Records.{
  get_control_state, set_control_state, set_control_body, set_control_state_with_passport,
}
use esscher_market.Risk.Kernel.Control.{apply_trigger, is_settled, failure_trigger}

module _ (host : Host) where
  -- The action returns `s`, and `s` is the control state that it leaves.
  pub record Leaves (m : Action ControlState) (l : Ledger) (s : ControlState) : Type 0 where
    pub returns : (m l).0 ≡ ok s
    pub stores : (get_control_state (m l).1).0 ≡ s

  set_control-Leaves :
      (s : ControlState) (reason : Option Text) (payload : Fields) (now : ℕ) (l : Ledger)
      → Leaves (set_control_state_with_passport host s reason payload now >> pure s) l s
  unfolding ◌>>=◌ set_control_state_with_passport transaction set_control_body set_control_state
      append_passport get_control_state
  set_control-Leaves s reason payload now l = record {
    returns = rw (event_text-identifier control_state_changed) refl;
    stores = rw (event_text-identifier control_state_changed) refl;
  }

  check-Leaves :
      (c : Checked ControlState) (f : ControlState → Action ControlState) (l : Ledger)
      (s : ControlState)
      → c ≡ ok s
      → Leaves (f s) l s
      → Leaves (check c >>= f) l s
  unfolding ◌>>=◌ check
  check-Leaves c f l s h k = record { returns = rw h k.returns; stores = rw h k.stores }

  pub apply_trigger-Leaves :
      (t : ControlTrigger) (now : ℕ) (l : Ledger) (s : ControlState)
      → next_control_state (get_control_state l).0 t ≡ ok s
      → Leaves (apply_trigger host t now) l s
  unfolding apply_trigger ◌>>=◌ gets
  apply_trigger-Leaves t now l s h =
      let c =
        check-Leaves (next_control_state (get_control_state l).0 t) _ l s h
          (set_control-Leaves s _ _ now l) in
      record { returns = c.returns; stores = c.stores }

  -- A trigger but `RESOLVED` never raises and never gives entry authority.
  pub trip-next :
      (s : ControlState) (t : ControlTrigger)
      → t ≢ resolved
      → (next_control_state s t ≡ ok (apply_control s t)) × (apply_control s t ≢ active)
  unfolding next_control_state apply_control
  trip-next s t h = ground arith

  pub resolved-next :
      (s : ControlState) → is_settled s ≡ false → next_control_state s resolved ≡ ok active
  unfolding next_control_state
  resolved-next s h = ground arith

  pub failure_trigger-resolved : (r : RiskReason) → failure_trigger r ≢ resolved
  unfolding failure_trigger
  failure_trigger-resolved r = ground arith
