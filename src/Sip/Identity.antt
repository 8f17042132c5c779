-- ===== src/Sip/Identity.antt =====
-- src/baresip_event_identity.h: an event is checked against the account and the call it names
-- before the reducer sees it.
pub mod Laws
use axe_voice_desktop.Prelude.{
  Bool, true, false, ℕ, ◌==◌, ◌!=◌, ◌||◌, ◌&&◌, not, if◌then◌else◌, leb,
}
use axe_voice_desktop.Sip.Observation.{
  SipRuntimeObservation, initial_observation, sip_proof_is_current, is_stale_session,
}
use axe_voice_desktop.Sip.Reducer.{
  BaresipEventKind, BaresipNativeEvent, EventTransition, apply_baresip_event,
}

pub record BoundBaresipState : Type 0 where
  pub observation : SipRuntimeObservation
  pub expected_account_token : ℕ  -- uint64_t
  pub active_call_token : ℕ  -- uint64_t
  pub last_call_token : ℕ  -- uint64_t

pub data IdentityResult : Type 0 where
  applied stale_session unverified_source wrong_account missing_call : IdentityResult
  concurrent_call wrong_call replayed_call unexpected_call invalid_order : IdentityResult

abbrev pub opening : BaresipEventKind → Bool
opening BaresipEventKind.call_incoming = true
opening BaresipEventKind.call_outgoing = true
opening _ = false

abbrev pub continuing : BaresipEventKind → Bool
continuing BaresipEventKind.call_established = true
continuing BaresipEventKind.call_closed = true
continuing _ = false

-- `event.kind == CallClosed || event.kind == TransportLost`
abbrev pub ends_call : BaresipEventKind → Bool
ends_call BaresipEventKind.call_closed = true
ends_call BaresipEventKind.transport_lost = true
ends_call _ = false

-- The state after the reducer has applied the event.
abbrev pub bind_call :
    BoundBaresipState → SipRuntimeObservation → BaresipNativeEvent → BoundBaresipState
bind_call bound next event =
    if opening event.kind
    then record bound {
      observation = next;
      active_call_token = event.call_token;
      last_call_token = event.call_token;
    }
    else if ends_call event.kind
    then record bound { observation = next; active_call_token = 0 }
    else record bound { observation = next }

abbrev pub settle :
    BoundBaresipState
    → BaresipNativeEvent
    → SipRuntimeObservation × EventTransition
    → BoundBaresipState × IdentityResult
settle bound event (next, EventTransition.applied) =
    (bind_call bound next event, IdentityResult.applied)
settle bound event (next, _) = (record bound { observation = next }, IdentityResult.invalid_order)

-- The checks on the call, then the reducer on the event with its `call_id` set.
unfoldable pub identify :
    BoundBaresipState → ℕ → BaresipNativeEvent → BoundBaresipState × IdentityResult
identify bound active_session event =
    let go = settle bound event (
      apply_baresip_event bound.observation active_session
        (record event { call_id = event.call_token })) in
    if opening event.kind
    then if event.call_token == 0
      then (bound, IdentityResult.missing_call)
      else if bound.active_call_token != 0
      then (bound, IdentityResult.concurrent_call)
      else if leb event.call_token bound.last_call_token
      then (bound, IdentityResult.replayed_call)
      else go
    else if continuing event.kind
    then if event.call_token == 0
      then (bound, IdentityResult.missing_call)
      else if event.call_token != bound.active_call_token
      then (bound, IdentityResult.wrong_call)
      else go
    else if event.call_token != 0
    then (bound, IdentityResult.unexpected_call)
    else go

unfoldable pub apply_identified_event :
    BoundBaresipState → ℕ → BaresipNativeEvent → BoundBaresipState × IdentityResult
unfolding is_stale_session
apply_identified_event bound active_session event =
    if is_stale_session event.session active_session || bound.observation.session != active_session
    then (bound, IdentityResult.stale_session)
    else if not (sip_proof_is_current bound.observation active_session)
    then (bound, IdentityResult.unverified_source)
    else if bound.expected_account_token == 0 || event.account_token != bound.expected_account_token
    then (bound, IdentityResult.wrong_account)
    else identify bound active_session event

unfoldable pub invalidate_identity : BoundBaresipState
invalidate_identity = record {
  observation = initial_observation;
  expected_account_token = 0;
  active_call_token = 0;
  last_call_token = 0;
}
