-- ===== src/Sip/Lifecycle/Reach.antt =====
-- What must have happened before the engine runs.
use axe_voice_desktop.Prelude.{List, [], ◌∷◌, ◌≡◌, ◌⊎◌, inl, inr, sym, arith}
use axe_voice_desktop.Sip.Lifecycle.{EngineLifecycle, LifecycleEvent, transition, run}
use mathlib.Core.List.{Memᴰ}

running_before :
    (s : EngineLifecycle) (e : LifecycleEvent)
    → transition s e ≡ EngineLifecycle.running
    → (s ≡ EngineLifecycle.running)
      ⊎ ((s ≡ EngineLifecycle.starting) × (e ≡ LifecycleEvent.started))
unfolding transition
running_before s e h = ground arith

starting_before :
    (s : EngineLifecycle) (e : LifecycleEvent)
    → transition s e ≡ EngineLifecycle.starting
    → (s ≡ EngineLifecycle.starting)
      ⊎ ((s ≡ EngineLifecycle.stopped) × (e ≡ LifecycleEvent.start_requested))
unfolding transition
starting_before s e h = ground arith

-- A start was requested, and at some later point the engine reported that it had started.
pub data StartedAfterRequest : List LifecycleEvent → Type 0 where
  requested :
      {e : LifecycleEvent} {es : List LifecycleEvent}
      → e ≡ LifecycleEvent.start_requested
      → Memᴰ LifecycleEvent.started es
      → StartedAfterRequest (e ∷ es)
  later :
      {e : LifecycleEvent} {es : List LifecycleEvent}
      → StartedAfterRequest es
      → StartedAfterRequest (e ∷ es)

run_running :
    (s : EngineLifecycle) (es : List LifecycleEvent)
    → run s es ≡ EngineLifecycle.running
    → (s ≡ EngineLifecycle.running)
      ⊎ (((s ≡ EngineLifecycle.starting) × Memᴰ LifecycleEvent.started es) ⊎ StartedAfterRequest es)
unfolding run
run_running s [] h = inl h
run_running s (e ∷ es) h = elim (run_running (transition s e) es h) [
  | inl up ↦ elim (running_before s e up) [
    | inl was ↦ inl was
    | inr (was, now) ↦ inr (inl (was, Memᴰ.head (sym now)))
  ]
  | inr (inl (up, seen)) ↦ elim (starting_before s e up) [
    | inl was ↦ inr (inl (was, Memᴰ.tail seen))
    | inr (was, now) ↦ inr (inr (requested now seen))
  ]
  | inr (inr before) ↦ inr (inr (later before))
]

-- An engine that was stopped runs only after a start was requested and, later, reported as done;
-- whatever other events came in between.
pub running_needs_start :
    (es : List LifecycleEvent)
    → run EngineLifecycle.stopped es ≡ EngineLifecycle.running
    → StartedAfterRequest es
running_needs_start es h = elim (run_running EngineLifecycle.stopped es h) [
  | inl e ↦ cc
  | inr (inl (e, _)) ↦ cc
  | inr (inr before) ↦ before
]
