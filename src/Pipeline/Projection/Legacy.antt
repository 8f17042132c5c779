-- ===== src/Pipeline/Projection/Legacy.antt =====
-- src/legacy_sip_event_projection.h: the projection that binds no account.
use axe_voice_desktop.Prelude.{
  Bool, true, false, ℕ, ◌==◌, ◌!=◌, ◌||◌, not, if◌then◌else◌, ltb, List, [], ◌∷◌, length,
}
use axe_voice_desktop.Sip.Status.{SipStatus}
use axe_voice_desktop.Sip.Observation.{
  SipRuntimeObservation, SipEvidence, RuntimeProcess, is_running, is_verified, initial_observation,
}
use axe_voice_desktop.Sip.Reducer.{BaresipNativeEvent, EventTransition, apply_baresip_event}
use axe_voice_desktop.Pipeline.Mailbox.{Batch, k_capacity}

pub record LegacySipEventProjection : Type 0 where
  pub state : SipRuntimeObservation
  pub rejected_session : ℕ  -- uint64_t

abbrev pub initial_projection : LegacySipEventProjection
initial_projection = record { state = initial_observation; rejected_session = 0 }

-- `{process, SipStatus::Unavailable, evidence, session}`
abbrev pub bare : RuntimeProcess → SipEvidence → ℕ → SipRuntimeObservation
bare process evidence session = record {
  process = process;
  sip = SipStatus.unavailable;
  evidence = evidence;
  session = session;
  call_id = 0;
  last_call_id = 0;
}

-- Two values of `SipEvidence` compared.
abbrev pub evidence_eq : SipEvidence → SipEvidence → Bool
evidence_eq SipEvidence.unproved SipEvidence.unproved = true
evidence_eq SipEvidence.verified_native_api SipEvidence.verified_native_api = true
evidence_eq _ _ = false

unfoldable pub reject : ℕ → RuntimeProcess → LegacySipEventProjection
reject session process = record {
  state = bare process SipEvidence.unproved 0;
  rejected_session = session;
}

-- The loop of `observe`: it stops at the first event that is not applied, and says so.
unfoldable pub apply_all :
    SipRuntimeObservation → ℕ → List BaresipNativeEvent → SipRuntimeObservation × Bool
apply_all state session [] = (state, true)
apply_all state session (event ∷ events) =
    let (next, r) = apply_baresip_event state session event in
    let rest = apply_all next session events in
    elim r [ EventTransition.applied ↦ rest | _ ↦ (next, false) ]

-- The state at the start of a batch: nothing is inherited across generations.
unfoldable pub enter_generation :
    SipRuntimeObservation → RuntimeProcess → SipEvidence → ℕ → SipRuntimeObservation
enter_generation state process evidence session =
    if state.session != session || not (evidence_eq state.evidence evidence)
    then bare process evidence session
    else state

unfoldable pub observe :
    LegacySipEventProjection → RuntimeProcess → SipEvidence → Batch → LegacySipEventProjection
unfolding reject enter_generation
observe p process evidence batch =
    if not (is_running process) || batch.session == 0
    then record {
      state = bare process SipEvidence.unproved 0;
      rejected_session = if p.state.session != 0 then p.state.session else p.rejected_session;
    }
    else if batch.session == p.rejected_session
    then record p { state = bare process SipEvidence.unproved 0 }
    else if batch.overflow || ltb k_capacity (length batch.events)
    then reject batch.session process
    else if not (is_verified evidence)
    then record {
      state = bare process SipEvidence.unproved 0;
      rejected_session = if is_verified p.state.evidence then batch.session else p.rejected_session;
    }
    else let (state, complete) =
        apply_all (enter_generation p.state process evidence batch.session) batch.session
          batch.events in
      if complete then record p { state = state } else reject batch.session process
