-- ===== src/Sdk/Tests.antt =====
-- The theorems on the adapter, the port and the gateway over them, at concrete inputs.
use axe_voice_desktop.Prelude.{
  Bool, true, false, ℕ, ◌≡◌, ◌==◌, if◌then◌else◌, ltb, List, [], ◌∷◌, some, refl, ap, take,
  is_digit,
}
use axe_voice_desktop.Call.Address.{WideClasses}
use axe_voice_desktop.Pipeline.Fence
use axe_voice_desktop.Pipeline.Ingress
use axe_voice_desktop.Pipeline.Mailbox
use axe_voice_desktop.Pipeline.Lifecycle
use axe_voice_desktop.Pipeline.Lifecycle.{CapturedSession}
use axe_voice_desktop.Registration.Queue
use axe_voice_desktop.Registration.Queue.Closing
use axe_voice_desktop.Registration.Queue.Inv
use axe_voice_desktop.Registration.Queue.Inv.{Op}
use axe_voice_desktop.Registration.Deadline
use axe_voice_desktop.Registration.Gateway
use axe_voice_desktop.Registration.Gateway.{make_gateway}
use axe_voice_desktop.Registration.Dispatcher
use axe_voice_desktop.Registration.Dispatcher.{Dispatch, RegistrationDispatchKind, tick}
use axe_voice_desktop.Registration.Dispatcher.Closed.{ends}
use axe_voice_desktop.Sdk.Event.{BeventKind, Delivery}
use axe_voice_desktop.Sdk.Adapter
use axe_voice_desktop.Sdk.Adapter.{BaresipSdkEventAdapter, callback, start}
use axe_voice_desktop.Sdk.Adapter.History.{IsSound, new_adapter, new_adapter-IsSound}
use axe_voice_desktop.Sdk.Adapter.Closing.{Outcome, callback-Outcome}
use axe_voice_desktop.Sdk.CallPort.{Sdk, BaresipSdkCallPort, make_port}
use axe_voice_desktop.Sdk.CallPort
use axe_voice_desktop.Sdk.CallPort.Life
use axe_voice_desktop.Sdk.CallPort.Once
use axe_voice_desktop.Sdk.CallPort.Life.{Noted, use_port, use_port-IsSound}
use axe_voice_desktop.Sdk.CallPort.Once.{acted}
use axe_voice_desktop.Sdk.Joined.{RegistrationSdk, Joined, joined, IsIdle, tick-IsIdle}

abbrev first_session : CapturedSession
first_session = record { fence_generation = 1; mailbox_session = 1; account_identity = 7 }

abbrev event_of : ℕ → ℕ → BeventKind → Delivery
event_of ua call kind = record {
  context = first_session;
  kind = kind;
  event = some (record { ua = ua; call = call });
  is_registered = true;
}

-- An SDK that closes a call at once when it is hung up, and else calls nothing back.
abbrev quiet_sdk : Sdk ℕ
quiet_sdk = record {
  ua_isregistered = λ s ua. true;
  ua_connect = λ s ua uri. (s, [], 0);
  ua_answer = λ s ua call. (s, [], 0);
  ua_hangup = λ s ua call. (s, event_of 7 call BeventKind.call_closed ∷ []);
  call_audio = λ s call. 1;
  audio_ismuted = λ s audio. s == 1;
  audio_mute = λ s audio on. if on then 1 else 0;
  call_is_onhold = λ s call. false;
  call_hold = λ s call on. (s, [], 0);
  call_account = λ s call. 1;
  account_dtmfmode = λ s account. 2;
  dtmfmode_sip_info = 2;
  call_send_digit = λ s call key. (s, [], 0);
  call_transfer = λ s call uri. (s, [], 0);
}

abbrev ascii : WideClasses
ascii = record { iswspace = λ c. c == b' '; iswdigit = is_digit; iswcntrl = λ c. ltb c 32 }

abbrev new_port : BaresipSdkCallPort ℕ
new_port = make_port 0 new_adapter

-- A call comes in, is answered twice, and hung up twice.
abbrev a_call : List (Bool × Life.Op ℕ)
a_call =
    (true, Life.Op.started 7 0)
    ∷ (true, Life.Op.delivered (event_of 7 0 BeventKind.register_ok))
    ∷ (true, Life.Op.renewed)
    ∷ (true, Life.Op.delivered (event_of 7 40 BeventKind.call_incoming))
    ∷ (true, Life.Op.answered 1)
    ∷ (true, Life.Op.answered 1)
    ∷ (true, Life.Op.delivered (event_of 7 40 BeventKind.call_established))
    ∷ (true, Life.Op.hung_up 1)
    ∷ (true, Life.Op.hung_up 1)
    ∷ []

use_port-IsSound_example : IsSound (use_port quiet_sdk ascii new_port a_call).adapter
use_port-IsSound_example = use_port-IsSound quiet_sdk ascii a_call new_port new_adapter-IsSound

abbrev started : BaresipSdkEventAdapter
started = (start new_adapter 7 0).0

callback-Outcome_example : Outcome started (callback started (event_of 7 0 BeventKind.audio_error))
callback-Outcome_example = callback-Outcome started (event_of 7 0 BeventKind.audio_error)

acted_once : acted quiet_sdk ascii Noted.answer_noted new_port (take 6 a_call) ≡ (1, 1) ∷ []
unfolding start Lifecycle.begin Fence.begin Ingress.begin_session Mailbox.begin_session
    Adapter.register acted Once.acts CallPort.may_answer CallPort.resolve CallPort.owns_session
    CallPort.answer Life.perform Adapter.session Adapter.active callback
    Lifecycle.hold_native_callback Fence.admit Adapter.on_event Lifecycle.is_live Adapter.handle
    Adapter.send_registration Lifecycle.report Ingress.accept Ingress.registration Fence.release_one
    Ingress.admit Ingress.call_started Ingress.enqueue Ingress.register Ingress.start_call
    Mailbox.enqueue Adapter.mint Adapter.minted Adapter.native_register_ok_seen Adapter.open_call
    Adapter.run
acted_once = refl

abbrev registrar : RegistrationSdk ℕ
registrar = record {
  bevent_register = λ s. 0;
  ua_isregistered = λ s ua. true;
  ua_register = λ s ua. (s, event_of ua 0 BeventKind.register_ok ∷ [], 0);
  ua_unregister = λ s ua. (s, event_of ua 0 BeventKind.unregistering ∷ []);
}

-- The dispatcher of the first generation over the new adapter, for which a submission waits.
abbrev waiting : Dispatch (Joined ℕ)
waiting = record {
  queue = (Queue.submit (Queue.begin_generation Queue.initial_queue).0 1 5000).0;
  gateway = make_gateway (record { world = 0; adapter = new_adapter });
  accesses = 0;
}

-- Another thread cancels after the SDK was called, before the third access.
abbrev canceller : ℕ → List Op
canceller n = if n == 2 then Op.cancels 1 ∷ [] else []

is_superseded :
    (tick (joined registrar) canceller true waiting 1 100 7).1.kind
    ≡ RegistrationDispatchKind.superseded_during_dispatch
unfolding tick Dispatcher.interleave Dispatcher.dispatch_all Dispatcher.dispatch_command
    Dispatcher.try_submit Dispatcher.is_admitted Dispatcher.poll Dispatcher.shut_down
    Dispatcher.invalidate Queue.submit Queue.cancel Queue.enqueue Queue.begin_generation Queue.drain
    Queue.still_admitted Queue.invalidate Gateway.submit Gateway.submitted Gateway.session
    Gateway.arm_registration_deadline Gateway.stop Gateway.poll_registration_deadline Deadline.arm
    Deadline.check Deadline.clear Closing.run Inv.step start Lifecycle.begin Fence.begin
    Ingress.begin_session Mailbox.begin_session Adapter.register Adapter.run callback
    Lifecycle.hold_native_callback Fence.admit Adapter.on_event Adapter.active Lifecycle.is_live
    Adapter.handle Adapter.send_registration Lifecycle.report Ingress.accept Ingress.registration
    Ingress.admit Ingress.register Ingress.enqueue Mailbox.enqueue Fence.release_one Adapter.session
is_superseded = refl

tick-IsIdle_example :
    IsIdle (tick (joined registrar) canceller true waiting 1 100 7).0.gateway.bridge.adapter
tick-IsIdle_example =
    tick-IsIdle registrar canceller true waiting 1 100 7 new_adapter-IsSound (ap ends is_superseded)
