-- ===== src/Sip/Observation.antt =====
-- src/sip_runtime_observation.h: what is known of the running engine, and what proves it.
use axe_voice_desktop.Prelude.{Bool, true, false, ℕ, ◌==◌, ◌!=◌, ◌||◌, ◌&&◌, if◌then◌else◌}
use axe_voice_desktop.Sip.Status.{SipStatus, CallAction, can_apply_call_action}

-- `enum class SipEvidence`; `none` is spelled `unproved`.
pub data SipEvidence : Type 0 where
  unproved verified_native_api : SipEvidence

pub data RuntimeProcess : Type 0 where
  stopped running stopping failed : RuntimeProcess

pub record SipRuntimeObservation : Type 0 where
  pub process : RuntimeProcess
  pub sip : SipStatus
  pub evidence : SipEvidence
  pub session : ℕ  -- uint64_t
  pub call_id : ℕ  -- uint64_t
  pub last_call_id : ℕ  -- uint64_t

abbrev pub initial_observation : SipRuntimeObservation
initial_observation = record {
  process = RuntimeProcess.stopped;
  sip = SipStatus.unavailable;
  evidence = SipEvidence.unproved;
  session = 0;
  call_id = 0;
  last_call_id = 0;
}

abbrev pub is_running : RuntimeProcess → Bool
is_running RuntimeProcess.running = true
is_running _ = false

abbrev pub is_verified : SipEvidence → Bool
is_verified SipEvidence.verified_native_api = true
is_verified _ = false

unfoldable pub sip_proof_is_current : SipRuntimeObservation → ℕ → Bool
sip_proof_is_current observation current_session =
    is_running observation.process
    && is_verified observation.evidence
    && current_session != 0
    && observation.session == current_session

unfoldable pub effective_sip_status : SipRuntimeObservation → ℕ → SipStatus
unfolding sip_proof_is_current
effective_sip_status observation current_session =
    if sip_proof_is_current observation current_session
    then observation.sip
    else SipStatus.unavailable

unfoldable pub may_use_call_control : SipRuntimeObservation → ℕ → CallAction → Bool
unfolding effective_sip_status can_apply_call_action
may_use_call_control observation current_session action =
    can_apply_call_action (effective_sip_status observation current_session) action

unfoldable pub is_stale_session : ℕ → ℕ → Bool
is_stale_session event_session current_session =
    event_session == 0 || event_session != current_session
