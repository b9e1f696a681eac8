-- ===== src/Lifecycle/States/Authority.antt =====
-- The permission tests against the transitions that the table accepts.
use esscher_market.Base.{Bool, true, false, arith, ◌≡◌}
use esscher_market.Base.Result.{is_ok}
use esscher_market.Lifecycle.Reasons.{LifecycleState}
use esscher_market.Lifecycle.States.{
  LifecycleTrigger, open_submit, hold_elapsed, close_submit, close_fill, close_partial_fill,
  close_ambiguous, manual, require_transition, is_terminal, entry_permitted, close_permitted,
}

-- The triggers that close, wait for the exit or hand over to a person.
abbrev pub is_closing : LifecycleTrigger → Bool
is_closing hold_elapsed = true
is_closing close_submit = true
is_closing close_fill = true
is_closing close_partial_fill = true
is_closing close_ambiguous = true
is_closing manual = true
is_closing _ = false

-- A submission of an opening is accepted exactly in the states that `entry_permitted` names; every
-- accepted trigger of the closing side starts from a state with close authority; and a state that
-- accepts any trigger is not terminal.
pub accepted_has_authority :
    (s : LifecycleState) (t : LifecycleTrigger)
    → (is_ok (require_transition s open_submit) ≡ entry_permitted s)
      × (is_closing t ≡ true → is_ok (require_transition s t) ≡ true → close_permitted s ≡ true)
      × (is_ok (require_transition s t) ≡ true → is_terminal s ≡ false)
unfolding require_transition entry_permitted close_permitted is_terminal
accepted_has_authority s t = ground arith
