-- ===== src/Sip/Reducer.antt =====
-- src/baresip_event_reducer.h: one native event applied to the observed state.
pub mod Laws
use axe_voice_desktop.Prelude.{
  Bool, true, false, ℕ, ◌==◌, ◌!=◌, ◌||◌, ◌&&◌, not, if◌then◌else◌, leb,
}
use axe_voice_desktop.Sip.Status.{SipStatus, status_eq}
use axe_voice_desktop.Sip.Observation.{
  SipRuntimeObservation, sip_proof_is_current, is_stale_session,
}

pub data BaresipEventKind : Type 0 where
  registering register_ok register_fail unregistering : BaresipEventKind
  call_incoming call_outgoing call_established call_closed : BaresipEventKind
  transport_lost : BaresipEventKind

pub record BaresipNativeEvent : Type 0 where
  pub kind : BaresipEventKind
  pub session : ℕ  -- uint64_t
  pub call_id : ℕ  -- uint64_t
  pub account_token : ℕ  -- uint64_t
  pub call_token : ℕ  -- uint64_t

pub data EventTransition : Type 0 where
  applied stale_session unverified_source invalid_order stale_call : EventTransition

abbrev pub Outcome : Type 0
Outcome = SipRuntimeObservation × EventTransition

-- The end of the function: the three fields are written and `Applied` is returned.
abbrev pub commit : SipRuntimeObservation → SipStatus → ℕ → ℕ → Outcome
commit state next next_call_id last_call_id = (
  record state { sip = next; call_id = next_call_id; last_call_id = last_call_id },
  EventTransition.applied,
)

-- The two opening cases share their code; `next` is the status that the kind chooses.
abbrev pub open_call : SipRuntimeObservation → ℕ → SipStatus → Outcome
open_call state call next =
    if not (status_eq state.sip SipStatus.registered)
    then (state, EventTransition.invalid_order)
    else if call == 0 || state.call_id != 0 || leb call state.last_call_id
    then (state, EventTransition.stale_call)
    else commit state next call call

-- The `switch`; `call` is the event's `call_id`.
unfoldable pub reduce : BaresipEventKind → SipRuntimeObservation → ℕ → Outcome
reduce BaresipEventKind.registering state call =
    if call != 0
      || (not (status_eq state.sip SipStatus.unavailable)
          && not (status_eq state.sip SipStatus.disconnected)
          && not (status_eq state.sip SipStatus.failed)
          && not (status_eq state.sip SipStatus.registered))
    then (state, EventTransition.invalid_order)
    else commit state SipStatus.registering state.call_id state.last_call_id
reduce BaresipEventKind.register_ok state call =
    if call != 0 || not (status_eq state.sip SipStatus.registering)
    then (state, EventTransition.invalid_order)
    else commit state SipStatus.registered state.call_id state.last_call_id
reduce BaresipEventKind.register_fail state call =
    if call != 0 || not (status_eq state.sip SipStatus.registering)
    then (state, EventTransition.invalid_order)
    else commit state SipStatus.failed state.call_id state.last_call_id
reduce BaresipEventKind.unregistering state call =
    if call != 0
      || (not (status_eq state.sip SipStatus.registering)
          && not (status_eq state.sip SipStatus.registered))
    then (state, EventTransition.invalid_order)
    else commit state SipStatus.disconnected state.call_id state.last_call_id
reduce BaresipEventKind.call_incoming state call = open_call state call SipStatus.ringing
reduce BaresipEventKind.call_outgoing state call = open_call state call SipStatus.calling
reduce BaresipEventKind.call_established state call =
    if not (status_eq state.sip SipStatus.calling) && not (status_eq state.sip SipStatus.ringing)
    then (state, EventTransition.invalid_order)
    else if call == 0 || call != state.call_id
    then (state, EventTransition.stale_call)
    else commit state SipStatus.in_call state.call_id state.last_call_id
reduce BaresipEventKind.call_closed state call =
    if not (status_eq state.sip SipStatus.calling)
      && not (status_eq state.sip SipStatus.ringing)
      && not (status_eq state.sip SipStatus.in_call)
    then (state, EventTransition.invalid_order)
    else if call == 0 || call != state.call_id
    then (state, EventTransition.stale_call)
    else commit state SipStatus.registered 0 state.last_call_id
reduce BaresipEventKind.transport_lost state call =
    if call != 0
    then (state, EventTransition.invalid_order)
    else commit state SipStatus.disconnected 0 state.last_call_id

unfoldable pub apply_baresip_event : SipRuntimeObservation → ℕ → BaresipNativeEvent → Outcome
unfolding is_stale_session
apply_baresip_event state active_session event =
    if is_stale_session event.session active_session || state.session != active_session
    then (state, EventTransition.stale_session)
    else if not (sip_proof_is_current state active_session)
    then (state, EventTransition.unverified_source)
    else reduce event.kind state event.call_id
