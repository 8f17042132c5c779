-- ===== src/Registration/DispatcherTests.antt =====
-- The theorems on the dispatcher at concrete inputs.
use axe_voice_desktop.Prelude.{
  Bool, true, false, ℕ, ◌≡◌, ◌==◌, if◌then◌else◌, List, [], ◌∷◌, refl, ap,
}
use axe_voice_desktop.Registration.Queue
use axe_voice_desktop.Registration.Queue.Closing
use axe_voice_desktop.Registration.Queue.Inv
use axe_voice_desktop.Registration.Queue.Inv.{Op}
use axe_voice_desktop.Registration.Bridge.{Bridge, BridgeLaws}
use axe_voice_desktop.Registration.Deadline
use axe_voice_desktop.Registration.Gateway
use axe_voice_desktop.Registration.Gateway.{make_gateway}
use axe_voice_desktop.Registration.Dispatcher
use axe_voice_desktop.Registration.Dispatcher.{Dispatch, RegistrationDispatchKind, tick}
use axe_voice_desktop.Registration.Dispatcher.Closed.{ends, IsShut, tick_fails_closed}
use axe_voice_desktop.Registration.Dispatcher.Kept.{reports_submission, IsKept, tick_submitted}

-- A bridge that is active from its start to its end.
abbrev bridge : Bridge Bool
bridge = record {
  start = λ s ua. (true, true);
  stop = λ s. false;
  active = λ s. s;
  session = λ s. if s then 1 else 0;
  native_register_ok_seen = λ s. false;
  ua_register = λ s ua. (s, 0);
  ua_unregister = λ s ua. s;
}

bridge-BridgeLaws : BridgeLaws bridge
bridge-BridgeLaws = record { active-stop = λ s. refl }

-- The dispatcher of the first generation, for which a submission waits.
abbrev waiting : Dispatch Bool
waiting = record {
  queue = (Queue.submit (Queue.begin_generation Queue.initial_queue).0 1 5000).0;
  gateway = make_gateway false;
  accesses = 0;
}

abbrev nobody : ℕ → List Op
nobody n = []

-- Another thread cancels after the SDK was called, before the third access.
abbrev canceller : ℕ → List Op
canceller n = if n == 2 then Op.cancels 1 ∷ [] else []

submits : reports_submission (tick bridge nobody true waiting 1 100 7).1.kind ≡ true
unfolding tick Dispatcher.interleave Dispatcher.dispatch_all Dispatcher.dispatch_command
    Dispatcher.try_submit Dispatcher.is_admitted Dispatcher.poll Dispatcher.shut_down
    Dispatcher.invalidate Queue.submit Queue.enqueue Queue.begin_generation Queue.drain
    Queue.still_admitted Queue.invalidate Gateway.submit Gateway.submitted Gateway.session
    Gateway.arm_registration_deadline Gateway.stop Gateway.poll_registration_deadline Deadline.arm
    Deadline.check Deadline.clear Closing.run
submits = refl

is_superseded :
    (tick bridge canceller true waiting 1 100 7).1.kind
    ≡ RegistrationDispatchKind.superseded_during_dispatch
unfolding tick Dispatcher.interleave Dispatcher.dispatch_all Dispatcher.dispatch_command
    Dispatcher.try_submit Dispatcher.is_admitted Dispatcher.poll Dispatcher.shut_down
    Dispatcher.invalidate Queue.submit Queue.cancel Queue.enqueue Queue.begin_generation Queue.drain
    Queue.still_admitted Queue.invalidate Gateway.submit Gateway.submitted Gateway.session
    Gateway.arm_registration_deadline Gateway.stop Gateway.poll_registration_deadline Deadline.arm
    Deadline.check Deadline.clear Closing.run Inv.step
is_superseded = refl

tick_submitted_example : IsKept bridge 1 7 (tick bridge nobody true waiting 1 100 7).0
tick_submitted_example = tick_submitted bridge nobody true waiting 1 100 7 submits

tick_fails_closed_example : IsShut bridge (tick bridge canceller true waiting 1 100 7).0
tick_fails_closed_example =
    tick_fails_closed bridge bridge-BridgeLaws canceller true waiting 1 100 7
      (ap ends is_superseded)
