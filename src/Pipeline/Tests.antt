-- ===== src/Pipeline/Tests.antt =====
-- Runs of the pipeline, and the theorems at concrete inputs.
use axe_voice_desktop.Prelude.{true, false, ◌≡◌, List, [], ◌∷◌, ◌++◌, refl, arith}
use axe_voice_desktop.Sip.Status.{SipStatus}
use axe_voice_desktop.Sip.Observation.{
  SipRuntimeObservation, SipEvidence, RuntimeProcess, sip_proof_is_current, initial_observation,
}
use axe_voice_desktop.Sip.Reducer.{BaresipEventKind, EventTransition, apply_baresip_event}
use axe_voice_desktop.Sip.Reducer.Laws as ReducerLaws
use axe_voice_desktop.Pipeline.Mailbox
use axe_voice_desktop.Pipeline.Mailbox.{BaresipEventMailbox, Batch, empty_mailbox, k_capacity}
use axe_voice_desktop.Pipeline.Mailbox.Inbox
use axe_voice_desktop.Pipeline.Mailbox.Inbox.{Inbox, Op, Reply}
use axe_voice_desktop.Pipeline.Mailbox.Refine
use axe_voice_desktop.Pipeline.Projection.Legacy.{
  LegacySipEventProjection, initial_projection, bare,
}
use axe_voice_desktop.Pipeline.Projection.LegacyLaws
use axe_voice_desktop.Pipeline.Projection.LegacyLaws.{Observed}
use axe_voice_desktop.Pipeline.Projection.Bound.{SipEventProjection}
use axe_voice_desktop.Pipeline.SessionGuard.{Guarded}
use axe_voice_desktop.Pipeline.Ingress
use axe_voice_desktop.Pipeline.Ingress.{BaresipCallbackIngress, Callback, make_event}
use axe_voice_desktop.Pipeline.Ingress.Agree
use axe_voice_desktop.Pipeline.Ingress.Agree.{Agree}
use axe_voice_desktop.Pipeline.NativeIngress.{
  BaresipNativeIngress, NativeCallback, NativeIngressFault, NativeSignal,
}
use axe_voice_desktop.Pipeline.Lifecycle
use axe_voice_desktop.Pipeline.Lifecycle.Threads
use axe_voice_desktop.Pipeline.Lifecycle.Threads.{World, Reach}
use axe_voice_desktop.Pipeline.Lifecycle.Quiescence

-- One session is open, and its ring of 32 entries starts near the end.
abbrev open_mailbox : BaresipEventMailbox
open_mailbox = record empty_mailbox { generation = 1; session = 1; first = 31 }

abbrev script : List Op
script =
    Op.enqueue (make_event BaresipEventKind.registering 1 0)
    ∷ Op.enqueue (make_event BaresipEventKind.register_ok 1 0)
    ∷ Op.enqueue (make_event BaresipEventKind.register_ok 9 0)
    ∷ Op.drain
    ∷ Op.begin_session
    ∷ []

script_runs :
    Refine.run open_mailbox script
    ≡ Reply.queued true
      ∷ Reply.queued true
      ∷ Reply.queued false
      ∷ Reply.drained
          (make_event BaresipEventKind.registering 1 0
            ∷ make_event BaresipEventKind.register_ok 1 0
            ∷ [])
          1
          false
      ∷ Reply.began 2
      ∷ []
unfolding Refine.run Refine.step Mailbox.enqueue Mailbox.drain Mailbox.begin_session
    Mailbox.copy_entries
script_runs = refl

run_refines_example :
    Refine.run open_mailbox script ≡ Inbox.run (Refine.contents open_mailbox) script
run_refines_example = Refine.run_refines script {m = open_mailbox} (ground arith)

abbrev registered : SipRuntimeObservation
registered = record {
  process = RuntimeProcess.running;
  sip = SipStatus.registered;
  evidence = SipEvidence.verified_native_api;
  session = 1;
  call_id = 0;
  last_call_id = 0;
}

abbrev shown : LegacySipEventProjection
shown = record { state = registered; rejected_session = 0 }

abbrev ring_batch : Batch
ring_batch = record {
  events = make_event BaresipEventKind.call_incoming 1 1 ∷ [];
  session = 1;
  overflow = false;
}

abbrev rejected : LegacySipEventProjection
rejected = record {
  state = bare RuntimeProcess.running SipEvidence.unproved 0;
  rejected_session = 1;
}

abbrev later : List Observed
later =
    record {
      process = RuntimeProcess.running;
      evidence = SipEvidence.verified_native_api;
      batch = ring_batch;
    }
    ∷ []

abbrev account_projection : SipEventProjection
account_projection = record {
  identity_mode = true;
  legacy = initial_projection;
  bound = record {
    observation = initial_observation;
    expected_account_token = 0;
    active_call_token = 0;
    last_call_token = 0;
  };
  rejected_session = 0;
}

abbrev guarded : Guarded
guarded = record {
  previous = RuntimeProcess.stopped;
  mailbox = open_mailbox;
  projection = record account_projection { identity_mode = false };
}

abbrev ingress : BaresipCallbackIngress
ingress = record {
  mailbox = open_mailbox;
  session = 1;
  account = 9;
  active_native_key = 0;
  active_token = 0;
  last_native_key = 0;
  last_token = 0;
}

abbrev incoming : Callback
incoming = Callback.on_call_started 1 9 100 BaresipEventKind.call_incoming

accept_simulates_example :
    let i' = (Ingress.accept ingress incoming).0 in
    let (s', r) = apply_baresip_event registered 1 (Agree.event_of ingress incoming) in
    ((Refine.contents i'.mailbox).queue
      ≡ (Refine.contents open_mailbox).queue ++ Agree.event_of ingress incoming ∷ [])
    × ReducerLaws.IsOrderly r
    × (r ≡ EventTransition.applied → Agree i' s')
unfolding Ingress.accept Ingress.registration Ingress.call_started Ingress.call_changed
    Ingress.register Ingress.start_call Ingress.change_call Ingress.admit Ingress.enqueue
    Ingress.revoke Mailbox.enqueue sip_proof_is_current
accept_simulates_example =
    Agree.accept_simulates incoming ingress registered (ground arith) (ground arith) refl

abbrev native : BaresipNativeIngress
native = record {
  queue = open_mailbox;
  session = 1;
  account = 9;
  call = 0;
  call_token = 0;
  last_call_token = 0;
  fault = NativeIngressFault.no_fault;
}

abbrev native_call : NativeCallback
native_call = record { signal = NativeSignal.call_incoming; session = 1; account = 9; call = 77 }

abbrev faulty : BaresipNativeIngress
faulty = record native { fault = NativeIngressFault.malformed }

abbrev begun : World
begun = record (Threads.start open_mailbox) {
  life = (Lifecycle.begin (Threads.start open_mailbox).life 9).0;
}

Reach-Inv_example : Quiescence.Inv begun
Reach-Inv_example =
    Quiescence.Reach-Inv {m = open_mailbox} {w = begun}
      (Reach.more Reach.here (Threads.Step.begins 9 refl))
