-- ===== src/Sip/Tests.antt =====
-- Runs of the reducer and the life cycle, and the theorems at concrete inputs.
use axe_voice_desktop.Prelude.{ℕ, ◌≡◌, List, [], ◌∷◌, refl, arith}
use axe_voice_desktop.Sip.Status.{SipStatus}
use axe_voice_desktop.Sip.Observation.{
  sip_proof_is_current, SipRuntimeObservation, SipEvidence, RuntimeProcess,
}
use axe_voice_desktop.Sip.Lifecycle.{LifecycleEvent}
use axe_voice_desktop.Sip.Reducer.{
  reduce, BaresipEventKind, BaresipNativeEvent, EventTransition, apply_baresip_event,
}
use axe_voice_desktop.Sip.Reducer.Laws.{
  IsConsistent, IncreasingFrom, opened, apply_baresip_event-IsConsistent, opened-IncreasingFrom,
}
use axe_voice_desktop.Sip.Identity.{BoundBaresipState}

abbrev proven : SipStatus → ℕ → ℕ → SipRuntimeObservation
proven sip call last = record {
  process = RuntimeProcess.running;
  sip = sip;
  evidence = SipEvidence.verified_native_api;
  session = 7;
  call_id = call;
  last_call_id = last;
}

abbrev event : BaresipEventKind → ℕ → BaresipNativeEvent
event kind call = record {
  kind = kind;
  session = 7;
  call_id = call;
  account_token = 5;
  call_token = call;
}

abbrev rings : BaresipNativeEvent
rings = event BaresipEventKind.call_incoming 3

incoming_rings :
    apply_baresip_event (proven SipStatus.registered 0 2) 7 rings
    ≡ (proven SipStatus.ringing 3 3, EventTransition.applied)
unfolding apply_baresip_event sip_proof_is_current reduce
incoming_rings = refl

apply_baresip_event-IsConsistent_example :
    IsConsistent (apply_baresip_event (proven SipStatus.registered 0 2) 7 rings).0
apply_baresip_event-IsConsistent_example =
    apply_baresip_event-IsConsistent (proven SipStatus.registered 0 2) 7 rings (ground arith)

abbrev history : List BaresipNativeEvent
history =
    rings
    ∷ event BaresipEventKind.call_closed 3
    ∷ event BaresipEventKind.call_outgoing 3
    ∷ event BaresipEventKind.call_outgoing 4
    ∷ []

history_opens : opened (proven SipStatus.registered 0 2) 7 history ≡ 3 ∷ 4 ∷ []
unfolding opened apply_baresip_event sip_proof_is_current reduce
history_opens = refl

opened-IncreasingFrom_example :
    IncreasingFrom 2 (opened (proven SipStatus.registered 0 2) 7 history)
opened-IncreasingFrom_example = opened-IncreasingFrom (proven SipStatus.registered 0 2) 7 history

abbrev bound : BoundBaresipState
bound = record {
  observation = proven SipStatus.registered 0 2;
  expected_account_token = 5;
  active_call_token = 0;
  last_call_token = 2;
}

abbrev life : List LifecycleEvent
life = LifecycleEvent.fault ∷ LifecycleEvent.start_requested ∷ LifecycleEvent.started ∷ []
