-- ===== src/Native/Offers/Gate.antt =====
-- What is offered passes the gate of the native engine.
use axe_voice_desktop.Call.Address.{WideClasses, validate_address, is_accepted}
use axe_voice_desktop.Call.Feedback.{evaluate_destination, is_valid}
use axe_voice_desktop.Prelude.{
  Bool, true, false, ℕ, ◌≡◌, ◌⊎◌, ◌&&◌, Option, none, some, arith, Text,
}
use axe_voice_desktop.Sip.Status.{status_eq→≡, SipStatus}
use axe_voice_desktop.Sip.Observation.{SipRuntimeObservation, sip_proof_is_current}
use axe_voice_desktop.Native.Control.{
  NativeCallCommand, NativeCallAction, command_for, native_command_is_current, action_fits,
  native_displayed_call_command_current,
}
use axe_voice_desktop.Native.Offers.{
  EssentialCallActions, essential_call_actions, PortCall, answer, dial,
}

-- Whether the gate admits the action, for the session and the call that are observed.
abbrev pub admits : SipRuntimeObservation → NativeCallAction → Bool
admits o action = native_command_is_current (command_for action o.session o.call_id) o

-- What is offered is what the gate admits.
abbrev pub AreCurrent : SipRuntimeObservation → Bool → EssentialCallActions → Type 0
AreCurrent o authorized a =
    (a.dial ≡ (admits o NativeCallAction.dial && authorized))
    × (a.answer ≡ admits o NativeCallAction.answer)
    × (a.hangup ≡ admits o NativeCallAction.hangup)
    × (a.secondary ≡ admits o NativeCallAction.set_mute)
    × (a.secondary ≡ admits o NativeCallAction.set_hold)
    × (a.secondary ≡ admits o NativeCallAction.transfer)

-- The actions that are offered are exactly those that the gate of the native engine admits at the same
-- observation: dialling if the operator may dial, answering and hanging up always, and the secondary
-- controls exactly where muting, holding and transferring are admitted.
pub offers-AreCurrent :
    (o : SipRuntimeObservation) (authorized : Bool)
    → AreCurrent o authorized (essential_call_actions o o.session authorized)
unfolding essential_call_actions native_command_is_current action_fits
offers-AreCurrent o authorized = ground arith

current_needs :
    (c : NativeCallCommand) (s : SipRuntimeObservation)
    → native_command_is_current c s ≡ true
    → (s.session ≡ c.session)
      × (c.call_id ≡ s.call_id)
      × (sip_proof_is_current s c.session ≡ true)
      × (action_fits c s ≡ true)
unfolding native_command_is_current sip_proof_is_current
current_needs c s h = ground arith

fits_dial :
    (session : ℕ) (s : SipRuntimeObservation)
    → action_fits (command_for NativeCallAction.dial session 0) s ≡ true
    → s.sip ≡ SipStatus.registered
unfolding action_fits
fits_dial session s h = status_eq→≡ s.sip SipStatus.registered (ground arith)

fits_answer :
    (session call : ℕ) (s : SipRuntimeObservation)
    → action_fits (command_for NativeCallAction.answer session call) s ≡ true
    → s.sip ≡ SipStatus.ringing
unfolding action_fits
fits_answer session call s h = status_eq→≡ s.sip SipStatus.ringing (ground arith)

-- A destination is valid exactly if its address is accepted.
valid_iff :
    (w : WideClasses) (destination : Text)
    → is_valid (evaluate_destination w destination).kind
      ≡ is_accepted (validate_address w destination).error
unfolding evaluate_destination
valid_iff w destination = ground arith

abbrev pub DialNeeds :
    WideClasses
    → (PortCall → Bool)
    → SipRuntimeObservation
    → SipRuntimeObservation
    → Text
    → Bool × Option PortCall
    → Type 0
DialNeeds w port displayed current destination result =
    (result ≡ (false, none))
    ⊎ ((result ≡ (port (PortCall.start_call destination), some (PortCall.start_call destination)))
        × (is_accepted (validate_address w destination).error ≡ true)
        × (current.session ≡ displayed.session)
        × (current.call_id ≡ 0)
        × (current.sip ≡ SipStatus.registered)
        × (sip_proof_is_current current displayed.session ≡ true))

abbrev pub AnswerNeeds :
    (PortCall → Bool)
    → SipRuntimeObservation
    → SipRuntimeObservation
    → Bool × Option PortCall
    → Type 0
AnswerNeeds port displayed current result =
    (result ≡ (false, none))
    ⊎ ((result ≡ (port (PortCall.answer_call displayed), some (PortCall.answer_call displayed)))
        × (current.call_id ≡ displayed.call_id)
        × (current.session ≡ displayed.session)
        × (current.sip ≡ SipStatus.ringing)
        × (displayed.sip ≡ SipStatus.ringing)
        × (sip_proof_is_current current displayed.session ≡ true))

-- The service submits a call only for a valid destination, while the native engine shows a registration
-- without a call, in the session that was displayed; without that it reports a failure.
pub dial_needs :
    (w : WideClasses) (port : PortCall → Bool) (displayed current : SipRuntimeObservation)
    (destination : Text)
    → DialNeeds w port displayed current destination (dial w port displayed current destination)
unfolding dial
dial_needs w port displayed current destination = ground (
  arith,
  valid_iff w destination,
  current_needs (command_for NativeCallAction.dial displayed.session 0) current,
  fits_dial displayed.session current,
)

-- The service answers only the call that is displayed as ringing, while the native engine still shows
-- it ringing in that session; without that it makes no call of the engine and reports a failure.
pub answer_needs :
    (port : PortCall → Bool) (displayed current : SipRuntimeObservation)
    → AnswerNeeds port displayed current (answer port displayed current)
unfolding answer native_displayed_call_command_current
answer_needs port displayed current =
    let c = command_for NativeCallAction.answer displayed.session displayed.call_id in
    ground (
      arith,
      current_needs c current,
      current_needs c displayed,
      fits_answer displayed.session displayed.call_id current,
      fits_answer displayed.session displayed.call_id displayed,
    )
