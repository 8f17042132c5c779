-- ===== src/Call/Authorization/Sound.antt =====
-- What a permission to command the engine rests on.
use axe_voice_desktop.Sip.Status.{SipStatus, CallAction, status_eq, can_apply_call_action}
use axe_voice_desktop.Sip.Observation.{
  SipRuntimeObservation, sip_proof_is_current, may_use_call_control, effective_sip_status,
}
use axe_voice_desktop.Prelude.{true, ℕ, ◌≡◌, ◌≢◌, [], some, inl, inr, arith, Option-cases, Text}
use axe_voice_desktop.Call.Address.{WideClasses, validate_address, is_accepted}
use axe_voice_desktop.Call.Authorization.{
  EngineSelection, native_engine, authorize_dial, authorize_control, authorize_call_command,
  is_permitted, of_dial,
}

status_eq→≡ : (a b : SipStatus) → status_eq a b ≡ true → a ≡ b
status_eq→≡ a b h = ground arith

dial_needs :
    (state : SipRuntimeObservation) (active : ℕ)
    → may_use_call_control state active CallAction.dial ≡ true
    → (sip_proof_is_current state active ≡ true) × (state.sip ≡ SipStatus.registered)
unfolding may_use_call_control effective_sip_status can_apply_call_action
dial_needs state active h = ground arith

-- The call that a request names: no call when dialling, and then none is observed; else the one that is
-- observed, which is also the last one.
abbrev pub NamesCall : CallAction → SipRuntimeObservation → ℕ → Type 0
NamesCall CallAction.dial state call = (call ≡ 0) × (state.call_id ≡ 0)
NamesCall CallAction.answer state call =
    (call ≢ 0) × (call ≡ state.call_id) × (call ≡ state.last_call_id)
NamesCall CallAction.hangup state call =
    (call ≢ 0) × (call ≡ state.call_id) × (call ≡ state.last_call_id)

-- The destination that is handed on: the normalized one when dialling, and then the typed one is valid;
-- else none.
abbrev pub NamesTarget : WideClasses → CallAction → Text → Text → Type 0
NamesTarget w CallAction.dial typed target =
    (is_accepted (validate_address w typed).error ≡ true)
    × (target ≡ (validate_address w typed).normalized)
NamesTarget w CallAction.answer typed target = target ≡ []
NamesTarget w CallAction.hangup typed target = target ≡ []

-- A permission rests on a current native proof, in a status that allows the action, with the native
-- engine in the same status; and on the call and the destination that the request names.
pub record IsGrounded (w : WideClasses) (state : SipRuntimeObservation) (active : ℕ)
    (selected : EngineSelection) (action : CallAction) (call : ℕ) (typed target : Text)
    : Type 0 where
  pub proven : sip_proof_is_current state active ≡ true
  pub fits : may_use_call_control state active action ≡ true
  pub engine : native_engine selected ≡ some state.sip
  pub same_call : NamesCall action state call
  pub destination : NamesTarget w action typed target

authorize_dial_needs :
    (w : WideClasses) (state : SipRuntimeObservation) (active : ℕ) (selected : EngineSelection)
    (typed : Text)
    → is_permitted (of_dial (authorize_dial w state active selected typed).0) ≡ true
    → (may_use_call_control state active CallAction.dial ≡ true)
      × (native_engine selected ≡ some SipStatus.registered)
      × NamesTarget w CallAction.dial typed (authorize_dial w state active selected typed).1
unfolding authorize_dial
authorize_dial_needs w state active selected typed h =
    elim (Option-cases (native_engine selected)) [
      | inl none' ↦ ground (arith, none', h)
      | inr (s, e) ↦ ground (arith, e, h, status_eq→≡ s SipStatus.registered)
    ]

-- Both of the other actions name their call alike.
authorize_control_needs :
    (state : SipRuntimeObservation) (active : ℕ) (selected : EngineSelection) (action : CallAction)
    (call : ℕ)
    → is_permitted (authorize_control state active selected action call) ≡ true
    → (sip_proof_is_current state active ≡ true)
      × (may_use_call_control state active action ≡ true)
      × (native_engine selected ≡ some state.sip)
      × NamesCall CallAction.answer state call
unfolding authorize_control
authorize_control_needs state active selected action call h =
    elim (Option-cases (native_engine selected)) [
      | inl none' ↦ ground (arith, none', h)
      | inr (s, e) ↦ ground (arith, e, h, status_eq→≡ s state.sip)
    ]

-- A command is permitted only under a current native proof, in a status that allows its action, with
-- the native engine in the same status. Dialling is permitted only while no call is observed, for a
-- request that names no call and a valid destination, which is handed on normalized; answering and
-- hanging up only for the call that is observed, which the request names and which is the last one.
pub authorize_call_command-IsGrounded :
    (w : WideClasses) (state : SipRuntimeObservation) (active : ℕ) (selected : EngineSelection)
    (action : CallAction) (call : ℕ) (typed : Text)
    → is_permitted (authorize_call_command w state active selected action call typed).0 ≡ true
    → IsGrounded w state active selected action call typed
        (authorize_call_command w state active selected action call typed).1
unfolding authorize_call_command
authorize_call_command-IsGrounded w state active selected CallAction.dial call typed h =
    ground (arith, authorize_dial_needs w state active selected typed, dial_needs state active)
authorize_call_command-IsGrounded w state active selected CallAction.answer call typed h =
    ground (arith, authorize_control_needs state active selected CallAction.answer call h)
authorize_call_command-IsGrounded w state active selected CallAction.hangup call typed h =
    ground (arith, authorize_control_needs state active selected CallAction.hangup call h)
