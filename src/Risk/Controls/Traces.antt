-- ===== src/Risk/Controls/Traces.antt =====
-- Entry authority and the kill switch over every sequence of triggers.
use esscher_market.Base.{
  Bool, true, false, List, [], ◌∷◌, arith, ◌≡◌, ◌≢◌, inl, inr, refl, ◌↔◌, any, Bool-cases,
}
use esscher_market.Base.Result.{ok, err}
use esscher_market.Risk.Reasons.{ControlState, kill, control_state_blocks_entry}
use esscher_market.Risk.Controls.{
  ControlTrigger, kill_request, resolved, next_control_state, apply_control, entry_allowed,
  close_allowed, run_controls,
}

-- One trigger gives entry authority only when it is `RESOLVED` and the state is not `KILL`; it takes
-- close authority away only when it is `KILL_REQUEST`. This is for a trigger that does not raise.
pub next_control_state-authority :
    (s u : ControlState) (t : ControlTrigger)
    → next_control_state s t ≡ ok u
    → (entry_allowed u ≡ true → (t ≡ resolved) × (s ≢ kill))
      × (close_allowed s ≡ true → close_allowed u ≡ false → t ≡ kill_request)
unfolding next_control_state entry_allowed close_allowed
next_control_state-authority s u t h = ground arith

pub next_control_state-raises :
    (s : ControlState) (t : ControlTrigger)
    → (next_control_state s t ≡ err control_state_blocks_entry) ↔ ((s ≡ kill) × (t ≡ resolved))
unfolding next_control_state
next_control_state-raises s t = ground arith

apply_control-kill : (t : ControlTrigger) → apply_control kill t ≡ kill
unfolding apply_control
apply_control-kill t = ground arith

run_controls-kill : (ts : List ControlTrigger) → run_controls kill ts ≡ kill
unfolding run_controls
run_controls-kill [] = refl
run_controls-kill (t ∷ ts) = rw (apply_control-kill t) (run_controls-kill ts)

abbrev pub is_kill : ControlTrigger → Bool
is_kill kill_request = true
is_kill _ = false

abbrev pub is_resolved : ControlTrigger → Bool
is_resolved resolved = true
is_resolved _ = false

apply_control-is_kill :
    (s : ControlState) (t : ControlTrigger) → is_kill t ≡ true → apply_control s t ≡ kill
unfolding apply_control
apply_control-is_kill s t h = ground arith

run_controls-killed :
    (s : ControlState) (ts : List ControlTrigger) → any is_kill ts ≡ true → run_controls s ts ≡ kill
unfolding run_controls
run_controls-killed s [] h = cc
run_controls-killed s (t ∷ ts) h = elim (Bool-cases (is_kill t)) [
  | inl killed ↦ rw (apply_control-is_kill s t killed) (run_controls-kill ts)
  | inr other ↦ run_controls-killed (apply_control s t) ts (ground arith)
]

-- Once a `KILL_REQUEST` has been handled, from whatever state and among whatever other triggers, the
-- state is `KILL` for good: neither entries nor closes are allowed again.
pub kill_is_final :
    (s : ControlState) (ts : List ControlTrigger)
    → any is_kill ts ≡ true
    → (run_controls s ts ≡ kill)
      × (entry_allowed (run_controls s ts) ≡ false)
      × (close_allowed (run_controls s ts) ≡ false)
unfolding entry_allowed close_allowed
kill_is_final s ts h = ground (arith, run_controls-killed s ts h)

apply_control-entry :
    (s : ControlState) (t : ControlTrigger)
    → entry_allowed s ≡ false
    → is_resolved t ≡ false
    → entry_allowed (apply_control s t) ≡ false
unfolding apply_control entry_allowed
apply_control-entry s t h n = ground arith

-- From a state that does not allow entries, only a sequence with a `RESOLVED` in it leads to one
-- that does.
pub entry_needs_resolved :
    (s : ControlState) (ts : List ControlTrigger)
    → entry_allowed s ≡ false
    → entry_allowed (run_controls s ts) ≡ true
    → any is_resolved ts ≡ true
unfolding run_controls
entry_needs_resolved s [] h e = cc
entry_needs_resolved s (t ∷ ts) h e = elim (Bool-cases (is_resolved t)) [
  | inl found ↦ ground arith
  | inr other ↦
      ground (arith, entry_needs_resolved (apply_control s t) ts (apply_control-entry s t h other))
]
