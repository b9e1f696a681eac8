-- ===== src/Lifecycle/States/Traces.antt =====
-- What holds of `next_lifecycle_state` over every sequence of triggers.
use esscher_market.Base.{true, Option, none, some, List, [], ◌∷◌, arith, ◌≡◌, ◌≢◌, refl}
use esscher_market.Base.Result.{err}
use esscher_market.Lifecycle.Reasons.{
  LifecycleState, approved, open_submitted, open_partial, close_partial, open_filled, open_unknown,
  holding, close_due, close_submitted, closed_flat, lifecycle_state_invalid,
}
use esscher_market.Lifecycle.States.{
  LifecycleTrigger, open_submit, open_fill, hold_elapsed, close_submit, close_fill, open_ambiguous,
  manual, next_lifecycle_state, require_transition, is_terminal, run_triggers,
}

-- The triggers of the first list occur in the second one, in this order.
pub data InOrder : List LifecycleTrigger → List LifecycleTrigger → Type 0 where
  done : {ts : List LifecycleTrigger} → InOrder [] ts
  take :
      {t : LifecycleTrigger} {ws ts : List LifecycleTrigger}
      → InOrder ws ts
      → InOrder (t ∷ ws) (t ∷ ts)
  skip :
      {t : LifecycleTrigger} {ws ts : List LifecycleTrigger} → InOrder ws ts → InOrder ws (t ∷ ts)

-- What is still to happen before a proven close, or `none` where none is possible any more.
to_flat : LifecycleState → Option (List LifecycleTrigger)
to_flat approved = some (open_submit ∷ open_fill ∷ hold_elapsed ∷ close_submit ∷ close_fill ∷ [])
to_flat open_submitted = some (open_fill ∷ hold_elapsed ∷ close_submit ∷ close_fill ∷ [])
to_flat open_unknown = some (open_fill ∷ hold_elapsed ∷ close_submit ∷ close_fill ∷ [])
to_flat open_filled = some (hold_elapsed ∷ close_submit ∷ close_fill ∷ [])
to_flat holding = some (hold_elapsed ∷ close_submit ∷ close_fill ∷ [])
to_flat close_due = some (close_submit ∷ close_fill ∷ [])
to_flat close_submitted = some (close_fill ∷ [])
to_flat closed_flat = some []
to_flat _ = none

Reaches : Option (List LifecycleTrigger) → List LifecycleTrigger → Type 0
Reaches none ts = ⊥
Reaches (some ws) ts = InOrder ws ts

Reaches-next :
    (s : LifecycleState) (t : LifecycleTrigger) (ts : List LifecycleTrigger)
    → Reaches (to_flat (next_lifecycle_state s t)) ts
    → Reaches (to_flat s) (t ∷ ts)
unfolding to_flat next_lifecycle_state Reaches
Reaches-next approved open_submit ts h = take h
Reaches-next open_submitted open_fill ts h = take h
Reaches-next open_submitted open_ambiguous ts h = skip h
Reaches-next open_unknown open_fill ts h = take h
Reaches-next open_filled hold_elapsed ts h = take h
Reaches-next holding hold_elapsed ts h = take h
Reaches-next close_due close_submit ts h = take h
Reaches-next close_submitted close_fill ts h = take h
Reaches-next open_partial manual ts h = absurd h
Reaches-next close_partial manual ts h = absurd h
Reaches-next _ _ ts h = absurd h

Reaches-run :
    (s : LifecycleState) (ts : List LifecycleTrigger)
    → run_triggers s ts ≡ closed_flat
    → Reaches (to_flat s) ts
unfolding run_triggers
Reaches-run s [] e = rw e (unfold Reaches to_flat in done)
Reaches-run s (t ∷ ts) e = Reaches-next s t ts (Reaches-run (next_lifecycle_state s t) ts e)

-- A lifecycle that starts approved and ends flat has gone through a submission of the opening, its
-- fill, the end of the holding time, a submission of the close and its fill, in this order.
pub flat_needs_proofs :
    (ts : List LifecycleTrigger)
    → run_triggers approved ts ≡ closed_flat
    → InOrder (open_submit ∷ open_fill ∷ hold_elapsed ∷ close_submit ∷ close_fill ∷ []) ts
unfolding Reaches to_flat
flat_needs_proofs ts e = Reaches-run approved ts e

run_manual :
    (ts : List LifecycleTrigger)
    → run_triggers LifecycleState.manual_required ts ≡ LifecycleState.manual_required
unfolding run_triggers next_lifecycle_state
run_manual [] = refl
run_manual (t ∷ ts) = run_manual ts

next_of_terminal :
    (s : LifecycleState) (t : LifecycleTrigger)
    → is_terminal s ≡ true
    → (next_lifecycle_state s t ≡ LifecycleState.manual_required)
      × (require_transition s t ≡ err lifecycle_state_invalid)
unfolding next_lifecycle_state require_transition is_terminal
next_of_terminal s t h = ground arith

-- From a terminal state `require_transition` accepts no trigger, and `next_lifecycle_state` goes to
-- manual at the first trigger and stays there whatever follows.
pub terminal_absorbs :
    (s : LifecycleState) (t : LifecycleTrigger) (ts : List LifecycleTrigger)
    → is_terminal s ≡ true
    → (require_transition s t ≡ err lifecycle_state_invalid)
      × (run_triggers s (t ∷ ts) ≡ LifecycleState.manual_required)
unfolding run_triggers
terminal_absorbs s t ts h =
    let (moved, refused) = next_of_terminal s t h in (refused, rw moved (run_manual ts))

next-ne-holding : (s : LifecycleState) (t : LifecycleTrigger) → next_lifecycle_state s t ≢ holding
unfolding next_lifecycle_state
next-ne-holding s t e = ground arith

run-ne-holding :
    (s : LifecycleState) (ts : List LifecycleTrigger) → s ≢ holding → run_triggers s ts ≢ holding
unfolding run_triggers
run-ne-holding s [] h = h
run-ne-holding s (t ∷ ts) h = run-ne-holding (next_lifecycle_state s t) ts (next-ne-holding s t)

-- No sequence of triggers brings an approved lifecycle to the state `HOLDING`.
pub holding_unreachable : (ts : List LifecycleTrigger) → run_triggers approved ts ≢ holding
holding_unreachable ts = run-ne-holding approved ts (λ e. cc)
