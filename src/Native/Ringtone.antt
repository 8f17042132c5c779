-- ===== src/Native/Ringtone.antt =====
-- src/incoming_ringtone_policy.h, src/preferences_incoming_policy.h: when an incoming call rings.
pub mod Silence
use axe_voice_desktop.Prelude.{
  Bool, true, false, ℕ, zero, suc, ◌+◌, ◌-◌, ◌*◌, ◌/◌, ◌%◌, ◌^◌, ◌≤◌, ◌<◌, ◌≡◌, ◌≢◌, ◌↔◌, ◌⊎◌, ◌∙◌,
  ◌==◌, ◌!=◌, ◌||◌, ◌&&◌, not, if◌then◌else◌, leb, ltb, List, [], ◌∷◌, ◌++◌, map, Option, none,
  some, inl, inr, refl, sym, ap, arith, tests, Bool-cases, Option-cases, length, get_or, set, take,
  drop, replicate, pop_front, All, All-append, All-mono, length-append, length-set, length-take,
  get_or-set_self, get_or-set_ne, u64_mod, u64_max, inc_u64, sub_u64, Text, codes, text_eq,
  is_empty, any, all, between, is_digit, is_letter, is_alnum, text_eq→≡, text_eq_refl, lt→ltb,
  ltb→lt, leb→le, le→leb, ==_iff,
}
use axe_voice_desktop.Sip.Status.{SipStatus, status_eq}
use axe_voice_desktop.Sip.Observation.{SipRuntimeObservation, sip_proof_is_current}

pub record IncomingRingtoneRequest : Type 0 where
  pub session : ℕ  -- uint64_t
  pub call_id : ℕ  -- uint64_t
  pub endpoint_id : Text

abbrev pub no_request : IncomingRingtoneRequest
no_request = record { session = 0; call_id = 0; endpoint_id = [] }

-- `active`
abbrev pub is_requested : IncomingRingtoneRequest → Bool
is_requested r = r.session != 0 && r.call_id != 0

unfoldable pub valid_ringtone_endpoint : Text → Bool
valid_ringtone_endpoint id = leb (length id) 4096 && not (any (λ c. c == 0) id)

unfoldable pub verified_incoming_call : SipRuntimeObservation → Bool
verified_incoming_call call =
    call.call_id != 0
    && status_eq call.sip SipStatus.ringing
    && sip_proof_is_current call call.session

pub record IncomingRingtonePolicy : Type 0 where
  pub silenced_session : ℕ  -- uint64_t
  pub silenced_call : ℕ  -- uint64_t

unfoldable pub request :
    IncomingRingtonePolicy → SipRuntimeObservation → Text → Bool → Bool → IncomingRingtoneRequest
request p call id preview_playing sound_muted =
    if sound_muted
      || preview_playing
      || not (verified_incoming_call call)
      || not (valid_ringtone_endpoint id)
      || (call.session == p.silenced_session && call.call_id == p.silenced_call)
    then no_request
    else record { session = call.session; call_id = call.call_id; endpoint_id = id }

unfoldable pub silence : IncomingRingtonePolicy → SipRuntimeObservation → IncomingRingtonePolicy
silence p call =
    if verified_incoming_call call
    then record { silenced_session = call.session; silenced_call = call.call_id }
    else p

unfoldable pub preferences_incoming_controls_available :
    SipRuntimeObservation → SipRuntimeObservation → Bool
preferences_incoming_controls_available current displayed =
    current.call_id != 0
    && status_eq current.sip SipStatus.ringing
    && status_eq displayed.sip SipStatus.ringing
    && sip_proof_is_current current current.session
    && sip_proof_is_current displayed current.session
    && displayed.session == current.session
    && displayed.call_id == current.call_id
