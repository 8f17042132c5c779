-- ===== src/Native/Offers.antt =====
-- src/essential_call_actions.h, src/voice_application_service.h: what the interface offers for what is
-- observed, and the service that submits it to the native port.
pub mod Gate
use axe_voice_desktop.Prelude.{
  Bool, true, false, ℕ, zero, suc, ◌+◌, ◌-◌, ◌*◌, ◌/◌, ◌%◌, ◌^◌, ◌≤◌, ◌<◌, ◌≡◌, ◌≢◌, ◌↔◌, ◌⊎◌, ◌∙◌,
  ◌==◌, ◌!=◌, ◌||◌, ◌&&◌, not, if◌then◌else◌, leb, ltb, List, [], ◌∷◌, ◌++◌, map, Option, none,
  some, inl, inr, refl, sym, ap, arith, tests, Bool-cases, Option-cases, length, get_or, set, take,
  drop, replicate, pop_front, All, All-append, All-mono, length-append, length-set, length-take,
  get_or-set_self, get_or-set_ne, u64_mod, u64_max, inc_u64, sub_u64, Text, codes, text_eq,
  is_empty, any, all, between, is_digit, is_letter, is_alnum, text_eq→≡, text_eq_refl, Before,
  newer_session, newer_sequence, NewerFrom, NewerFrom-mono, NotAfter, newer, same_or_later,
  NotAfter-trans, lt→ltb, ltb→lt, leb→le, le→leb, ==_iff,
}
use axe_voice_desktop.Sip.Status.{SipStatus, status_eq}
use axe_voice_desktop.Sip.Observation.{SipRuntimeObservation, is_running, sip_proof_is_current}
use axe_voice_desktop.Call.Address.{WideClasses}
use axe_voice_desktop.Call.Feedback.{evaluate_destination, is_valid}
use axe_voice_desktop.Native.Control.{
  NativeCallAction, command_for, native_command_is_current, native_displayed_call_command_current,
}

pub data EssentialConnectionSignal : Type 0 where
  offline pending online : EssentialConnectionSignal

-- The `switch` on the status.
abbrev pub signal_of : SipStatus → EssentialConnectionSignal
signal_of SipStatus.registered = EssentialConnectionSignal.online
signal_of SipStatus.ringing = EssentialConnectionSignal.online
signal_of SipStatus.calling = EssentialConnectionSignal.online
signal_of SipStatus.in_call = EssentialConnectionSignal.online
signal_of _ = EssentialConnectionSignal.offline

unfoldable pub essential_connection_signal : SipRuntimeObservation → ℕ → EssentialConnectionSignal
essential_connection_signal observed active_session =
    if is_running observed.process && status_eq observed.sip SipStatus.registering
    then EssentialConnectionSignal.pending
    else if not (sip_proof_is_current observed active_session)
    then EssentialConnectionSignal.offline
    else signal_of observed.sip

pub data EssentialCallView : Type 0 where
  idle incoming outgoing connected : EssentialCallView

pub record EssentialCallActions : Type 0 where
  pub view : EssentialCallView
  pub dial : Bool
  pub answer : Bool
  pub hangup : Bool
  pub secondary : Bool

abbrev pub nothing_offered : EssentialCallActions
nothing_offered = record {
  view = EssentialCallView.idle;
  dial = false;
  answer = false;
  hangup = false;
  secondary = false;
}

-- The `switch` on the status of a call.
abbrev pub call_actions : SipStatus → EssentialCallActions
call_actions SipStatus.ringing = record nothing_offered {
  view = EssentialCallView.incoming;
  answer = true;
  hangup = true;
}
call_actions SipStatus.calling = record nothing_offered {
  view = EssentialCallView.outgoing;
  hangup = true;
}
call_actions SipStatus.in_call = record nothing_offered {
  view = EssentialCallView.connected;
  hangup = true;
  secondary = true;
}
call_actions _ = nothing_offered

unfoldable pub essential_call_actions : SipRuntimeObservation → ℕ → Bool → EssentialCallActions
essential_call_actions observed active_session dial_authorized =
    if not (sip_proof_is_current observed active_session)
    then nothing_offered
    else if status_eq observed.sip SipStatus.registered
    then record nothing_offered { dial = observed.call_id == 0 && dial_authorized }
    else if observed.call_id == 0
    then nothing_offered
    else call_actions observed.sip

-- What the service asks of the native port: its methods, answered by `port`.
pub data PortCall : Type 0 where
  start_call : Text → PortCall
  answer_call hangup_call : SipRuntimeObservation → PortCall

module _ (w : WideClasses) (port : PortCall → Bool) where
  -- The answer, and the call of the port if there was one; `current` is the port's observation.
  unfoldable pub dial :
      SipRuntimeObservation → SipRuntimeObservation → Text → Bool × Option PortCall
  dial displayed current destination =
      let requested = command_for NativeCallAction.dial displayed.session 0 in
      let call = PortCall.start_call destination in
      if not (is_valid (evaluate_destination w destination).kind)
        || not (native_command_is_current requested displayed)
        || not (native_command_is_current requested current)
      then (false, none)
      else (port call, some call)

module _ (port : PortCall → Bool) where
  unfoldable pub answer : SipRuntimeObservation → SipRuntimeObservation → Bool × Option PortCall
  answer displayed current =
      let call = PortCall.answer_call displayed in
      if native_displayed_call_command_current NativeCallAction.answer displayed current
      then (port call, some call)
      else (false, none)

  unfoldable pub hangup : SipRuntimeObservation → SipRuntimeObservation → Bool × Option PortCall
  hangup displayed current =
      let call = PortCall.hangup_call displayed in
      if native_displayed_call_command_current NativeCallAction.hangup displayed current
      then (port call, some call)
      else (false, none)
