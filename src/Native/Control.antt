-- ===== src/Native/Control.antt =====
-- src/native_session_control.h: which commands are current, and the admission of each at most once.
pub mod Once
use axe_voice_desktop.Prelude.{
  Bool, true, false, ℕ, zero, suc, ◌+◌, ◌-◌, ◌*◌, ◌/◌, ◌%◌, ◌^◌, ◌≤◌, ◌<◌, ◌≡◌, ◌≢◌, ◌↔◌, ◌⊎◌, ◌∙◌,
  ◌==◌, ◌!=◌, ◌||◌, ◌&&◌, not, if◌then◌else◌, leb, ltb, List, [], ◌∷◌, ◌++◌, map, Option, none,
  some, inl, inr, refl, sym, ap, arith, tests, Bool-cases, Option-cases, length, get_or, set, take,
  drop, replicate, pop_front, All, All-append, All-mono, length-append, length-set, length-take,
  get_or-set_self, get_or-set_ne, u64_mod, u64_max, inc_u64, sub_u64, Text, codes, text_eq,
  is_empty, any, all, between, is_digit, is_letter, is_alnum, text_eq→≡, text_eq_refl, lt→ltb,
  ltb→lt, leb→le, le→leb, ==_iff,
}
use axe_voice_desktop.Sip.Status.{SipStatus, status_eq}
use axe_voice_desktop.Sip.Observation.{SipRuntimeObservation, sip_proof_is_current}

-- `None` is spelled `no_action`.
pub data NativeCallAction : Type 0 where
  no_action dial answer hangup set_mute set_hold transfer dtmf : NativeCallAction

pub record NativeCallCommand : Type 0 where
  pub action : NativeCallAction
  pub session : ℕ  -- uint64_t
  pub call_id : ℕ  -- uint64_t
  pub destination : Text
  pub desired : Bool

-- src/native_dtmf.h
abbrev pub valid_native_dtmf_key : ℕ → Bool
valid_native_dtmf_key key = is_digit key || key == b'*' || key == b'#'

-- The `size()==1` and the key of a tone.
abbrev pub is_dtmf_text : Text → Bool
is_dtmf_text (c ∷ []) = valid_native_dtmf_key c
is_dtmf_text _ = false

-- The `switch` on the action.
unfoldable pub action_fits : NativeCallCommand → SipRuntimeObservation → Bool
action_fits c s = elim c.action [
  | NativeCallAction.dial ↦ status_eq s.sip SipStatus.registered && s.call_id == 0
  | NativeCallAction.answer ↦ status_eq s.sip SipStatus.ringing && s.call_id != 0
  | NativeCallAction.dtmf ↦
      status_eq s.sip SipStatus.in_call && s.call_id != 0 && is_dtmf_text c.destination
  | NativeCallAction.transfer ↦ status_eq s.sip SipStatus.in_call && s.call_id != 0
  | NativeCallAction.set_mute ↦ status_eq s.sip SipStatus.in_call && s.call_id != 0
  | NativeCallAction.set_hold ↦ status_eq s.sip SipStatus.in_call && s.call_id != 0
  | NativeCallAction.hangup ↦
      s.call_id != 0
      && (status_eq s.sip SipStatus.calling
          || status_eq s.sip SipStatus.ringing
          || status_eq s.sip SipStatus.in_call)
  | NativeCallAction.no_action ↦ false
]

unfoldable pub native_command_is_current : NativeCallCommand → SipRuntimeObservation → Bool
native_command_is_current c s =
    if not (sip_proof_is_current s c.session) || c.call_id != s.call_id
    then false
    else action_fits c s

-- `{action, displayed.session, displayed.call_id, {}}`
abbrev pub command_for : NativeCallAction → ℕ → ℕ → NativeCallCommand
command_for action session call_id = record {
  action = action;
  session = session;
  call_id = call_id;
  destination = [];
  desired = false;
}

abbrev pub is_answer_or_hangup : NativeCallAction → Bool
is_answer_or_hangup NativeCallAction.answer = true
is_answer_or_hangup NativeCallAction.hangup = true
is_answer_or_hangup _ = false

unfoldable pub native_displayed_call_command_current :
    NativeCallAction → SipRuntimeObservation → SipRuntimeObservation → Bool
native_displayed_call_command_current action displayed current =
    let command = command_for action displayed.session displayed.call_id in
    is_answer_or_hangup action
    && native_command_is_current command displayed
    && native_command_is_current command current

-- The last session and call of the answers, the hang-ups and the transfers that were admitted.
pub record NativeCommandAdmission : Type 0 where
  pub answer_session : ℕ  -- uint64_t, as all numbers here
  pub answer_call : ℕ
  pub hangup_session : ℕ
  pub hangup_call : ℕ
  pub transfer_session : ℕ
  pub transfer_call : ℕ

abbrev pub initial_admission : NativeCommandAdmission
initial_admission = record {
  answer_session = 0;
  answer_call = 0;
  hangup_session = 0;
  hangup_call = 0;
  transfer_session = 0;
  transfer_call = 0;
}

unfoldable pub admit :
    NativeCommandAdmission
    → NativeCallCommand
    → SipRuntimeObservation
    → NativeCommandAdmission × Bool
admit a c s = if not (native_command_is_current c s) then (a, false) else elim c.action [
  | NativeCallAction.answer ↦
      if a.answer_session == c.session && a.answer_call == c.call_id
      then (a, false)
      else (record a { answer_session = c.session; answer_call = c.call_id }, true)
  | NativeCallAction.hangup ↦
      if a.hangup_session == c.session && a.hangup_call == c.call_id
      then (a, false)
      else (record a { hangup_session = c.session; hangup_call = c.call_id }, true)
  | NativeCallAction.transfer ↦
      if a.transfer_session == c.session && a.transfer_call == c.call_id
      then (a, false)
      else (record a { transfer_session = c.session; transfer_call = c.call_id }, true)
  | _ ↦ (a, true)
]
