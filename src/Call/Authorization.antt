-- ===== src/Call/Authorization.antt =====
-- src/dial_authorization.h, src/call_command_authorization.h: who may command the native engine.
pub mod Sound
use axe_voice_desktop.Sip.Status.{SipStatus, CallAction, status_eq}
use axe_voice_desktop.Sip.Observation.{
  SipRuntimeObservation, sip_proof_is_current, may_use_call_control,
}
use axe_voice_desktop.Prelude.{
  Bool, true, false, ℕ, zero, suc, ◌+◌, ◌-◌, ◌*◌, ◌/◌, ◌%◌, ◌^◌, ◌≤◌, ◌<◌, ◌≡◌, ◌≢◌, ◌↔◌, ◌⊎◌, ◌∙◌,
  ◌==◌, ◌!=◌, ◌||◌, ◌&&◌, not, if◌then◌else◌, leb, ltb, List, [], ◌∷◌, ◌++◌, map, Option, none,
  some, inl, inr, refl, sym, ap, arith, tests, Bool-cases, Option-cases, length, get_or, set, take,
  drop, replicate, pop_front, All, All-append, All-mono, length-append, length-set, length-take,
  get_or-set_self, get_or-set_ne, u64_mod, u64_max, inc_u64, sub_u64, lt→ltb, ltb→lt, leb→le,
  le→leb, ==_iff, Text, is_empty,
}
use axe_voice_desktop.Call.Address.{WideClasses, validate_address, is_accepted}

-- `EngineKind`
pub data EngineKind : Type 0 where
  unavailable baresip : EngineKind

-- The engine counts by its status, which is a call of the engine; `none` where there is no engine.
pub record EngineSelection : Type 0 where
  pub engine : Option SipStatus
  pub kind : EngineKind

-- `None` is spelled `allowed`.
pub data DialDenied : Type 0 where
  allowed empty_destination invalid_destination unverified_session : DialDenied
  engine_unavailable engine_not_registered : DialDenied

-- `kind == Baresip && engine`: the engine's status.
abbrev pub native_engine : EngineSelection → Option SipStatus
native_engine s = elim s.kind [ EngineKind.baresip ↦ s.engine | EngineKind.unavailable ↦ none ]

-- The reason, and the normalized destination.
unfoldable pub authorize_dial :
    WideClasses → SipRuntimeObservation → ℕ → EngineSelection → Text → DialDenied × Text
authorize_dial w observed current_session selected typed_destination =
    let address = validate_address w typed_destination in
    if is_empty typed_destination
    then (DialDenied.empty_destination, [])
    else if not (is_accepted address.error)
    then (DialDenied.invalid_destination, [])
    else if not (may_use_call_control observed current_session CallAction.dial)
    then (DialDenied.unverified_session, [])
    else elim (native_engine selected) [
      | none ↦ (DialDenied.engine_unavailable, [])
      | some status ↦
          if status_eq status SipStatus.registered
          then (DialDenied.allowed, address.normalized)
          else (DialDenied.engine_not_registered, [])
    ]

-- `None` is spelled `permitted`.
pub data CallCommandDenied : Type 0 where
  permitted unverified_session engine_unavailable invalid_destination : CallCommandDenied
  unsupported_state stale_call engine_state_mismatch : CallCommandDenied

abbrev pub is_permitted : CallCommandDenied → Bool
is_permitted CallCommandDenied.permitted = true
is_permitted _ = false

-- The reason that a denied dial becomes.
abbrev pub of_dial : DialDenied → CallCommandDenied
of_dial DialDenied.allowed = CallCommandDenied.permitted
of_dial DialDenied.empty_destination = CallCommandDenied.invalid_destination
of_dial DialDenied.invalid_destination = CallCommandDenied.invalid_destination
of_dial DialDenied.unverified_session = CallCommandDenied.unverified_session
of_dial DialDenied.engine_unavailable = CallCommandDenied.engine_unavailable
of_dial DialDenied.engine_not_registered = CallCommandDenied.engine_state_mismatch

-- Answering and hanging up.
unfoldable pub authorize_control :
    SipRuntimeObservation → ℕ → EngineSelection → CallAction → ℕ → CallCommandDenied
authorize_control state active_session selected action expected_call_id =
    if not (sip_proof_is_current state active_session)
    then CallCommandDenied.unverified_session
    else elim (native_engine selected) [
      | none ↦ CallCommandDenied.engine_unavailable
      | some status ↦
          if not (may_use_call_control state active_session action)
          then CallCommandDenied.unsupported_state
          else if expected_call_id == 0
              || state.call_id == 0
              || state.call_id != expected_call_id
              || state.last_call_id != expected_call_id
          then CallCommandDenied.stale_call
          else if not (status_eq status state.sip)
          then CallCommandDenied.engine_state_mismatch
          else CallCommandDenied.permitted
    ]

-- The check of an action other than the three is for values outside the enumeration, which the type
-- rules out.
unfoldable pub authorize_call_command :
    WideClasses
    → SipRuntimeObservation
    → ℕ
    → EngineSelection
    → CallAction
    → ℕ
    → Text
    → CallCommandDenied × Text
authorize_call_command w state active_session selected CallAction.dial expected_call_id
      destination =
    let (reason, normalized) = authorize_dial w state active_session selected destination in
    if expected_call_id != 0 || state.call_id != 0
    then (CallCommandDenied.stale_call, [])
    else (of_dial reason, normalized)
authorize_call_command w state active_session selected action expected_call_id destination =
    (authorize_control state active_session selected action expected_call_id, [])
