-- ===== src/Sip/Lifecycle.antt =====
-- src/engine_lifecycle.h: the engine's life cycle.
pub mod Reach
use axe_voice_desktop.Prelude.{List, [], ◌∷◌}

pub data EngineLifecycle : Type 0 where
  stopped starting running stopping failed : EngineLifecycle

pub data LifecycleEvent : Type 0 where
  start_requested started start_failed stop_requested stopped fault : LifecycleEvent

-- An event that the state does not name leaves it as it is.
unfoldable pub transition : EngineLifecycle → LifecycleEvent → EngineLifecycle
transition EngineLifecycle.stopped LifecycleEvent.start_requested = EngineLifecycle.starting
transition EngineLifecycle.starting LifecycleEvent.started = EngineLifecycle.running
transition EngineLifecycle.starting LifecycleEvent.start_failed = EngineLifecycle.failed
transition EngineLifecycle.starting LifecycleEvent.fault = EngineLifecycle.failed
transition EngineLifecycle.starting LifecycleEvent.stop_requested = EngineLifecycle.stopping
transition EngineLifecycle.running LifecycleEvent.stop_requested = EngineLifecycle.stopping
transition EngineLifecycle.running LifecycleEvent.fault = EngineLifecycle.failed
transition EngineLifecycle.stopping LifecycleEvent.stopped = EngineLifecycle.stopped
transition EngineLifecycle.stopping LifecycleEvent.fault = EngineLifecycle.failed
transition EngineLifecycle.failed LifecycleEvent.stop_requested = EngineLifecycle.stopping
transition state event = state

-- A sequence of events, the first one first.
unfoldable pub run : EngineLifecycle → List LifecycleEvent → EngineLifecycle
run state [] = state
run state (event ∷ events) = run (transition state event) events
