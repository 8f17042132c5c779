-- ===== src/Audio/Routes.antt =====
-- src/native_audio_routes.h and src/native_audio_command_guard.h: the endpoints that a session is bound
-- to, and the commands that need them.
pub mod Guard
use axe_voice_desktop.Prelude.{
  Bool, true, false, ℕ, zero, suc, ◌+◌, ◌-◌, ◌*◌, ◌/◌, ◌%◌, ◌^◌, ◌≤◌, ◌<◌, ◌≡◌, ◌≢◌, ◌↔◌, ◌⊎◌, ◌∙◌,
  ◌==◌, ◌!=◌, ◌||◌, ◌&&◌, not, if◌then◌else◌, leb, ltb, List, [], ◌∷◌, ◌++◌, map, append_assoc,
  append-nil, Option, none, some, inl, inr, refl, sym, ap, arith, tests, Bool-cases, Option-cases,
  length, get_or, set, take, drop, replicate, pop_front, All, All-append, All-mono, All-take,
  length-append, length-set, length-take, get_or-set_self, get_or-set_ne, u64_mod, u64_max, inc_u64,
  sub_u64, Text, codes, text_eq, is_empty, any, all, between, is_digit, is_letter, is_alnum,
  text_eq→≡, text_eq_refl, Before, newer_session, newer_sequence, NewerFrom, NewerFrom-mono,
  NotAfter, newer, same_or_later, NotAfter-trans, lt→ltb, ltb→lt, leb→le, le→leb, ==_iff,
}
use axe_voice_desktop.Sip.Observation.{SipRuntimeObservation}
use axe_voice_desktop.Native.Control.{
  NativeCallAction, NativeCallCommand, NativeCommandAdmission, admit, native_command_is_current,
}
use axe_voice_desktop.Audio.Devices.{
  AudioEndpoint, AudioInventory, AudioSelectionRefresh, first_from, is_communications, is_named,
  no_failure,
}

pub record NativeAudioRoute : Type 0 where
  pub capture_id : Text
  pub playback_id : Text

pub data NativeAudioRouteStatus : Type 0 where
  is_ready invalid_selection inventory_failed : NativeAudioRouteStatus
  missing_capture missing_playback : NativeAudioRouteStatus

abbrev to_lower : ℕ → ℕ
to_lower c = if between b'A' b'Z' c then c + (b'a' - b'A') else c

abbrev is_reserved_char : ℕ → Bool
is_reserved_char c =
    leb c 32
    || leb 127 c
    || c == b','
    || c == b'"'
    || c == b'#'
    || c == b';'
    || c == b'\\'
    || c == b'\''

unfoldable pub valid_native_audio_id : Text → Bool
valid_native_audio_id id =
    not (ltb 127 (length id))
    && not (text_eq (map to_lower id) (codes "default"))
    && not (any is_reserved_char id)

abbrev pub valid_native_audio_route : NativeAudioRoute → Bool
valid_native_audio_route route =
    valid_native_audio_id route.capture_id && valid_native_audio_id route.playback_id

-- The test of the loop: the default for calls, or the endpoint of that name.
abbrev pub is_fixed : Text → AudioEndpoint → Bool
is_fixed id d = if is_empty id then is_communications d else is_named id d

abbrev pub index_of : Option (ℕ × AudioEndpoint) → Option ℕ
index_of none = none
index_of (some (i, d)) = some i

unfoldable pub fixed_native_audio_selection : List AudioEndpoint → Text → AudioSelectionRefresh
fixed_native_audio_selection devices id = record {
  index = index_of (first_from (is_fixed id) 0 devices);
  selected_id = id;
  replaced_missing_device = false;
}

-- The row of the list; the first one is the default of Windows.
unfoldable pub native_audio_combo_index : List AudioEndpoint → Text → Option ℕ
native_audio_combo_index devices id =
    if is_empty id then some 0 else index_of (first_from (is_named id) 1 devices)

abbrev pub available : AudioSelectionRefresh → Bool
available s = elim s.index [ none ↦ false | some i ↦ true ]

unfoldable pub native_audio_route_status :
    NativeAudioRoute → AudioInventory → NativeAudioRouteStatus
native_audio_route_status route inventory =
    if not (valid_native_audio_route route)
    then NativeAudioRouteStatus.invalid_selection
    else if not (no_failure inventory.error)
    then NativeAudioRouteStatus.inventory_failed
    else if not (available (fixed_native_audio_selection inventory.input_devices route.capture_id))
    then NativeAudioRouteStatus.missing_capture
    else if not
        (available (fixed_native_audio_selection inventory.output_devices route.playback_id))
    then NativeAudioRouteStatus.missing_playback
    else NativeAudioRouteStatus.is_ready

unfoldable pub native_command_needs_audio_preflight : NativeCallCommand → Bool
native_command_needs_audio_preflight command = elim command.action [
  | NativeCallAction.dial ↦ true
  | NativeCallAction.answer ↦ true
  | NativeCallAction.set_hold ↦ not command.desired
  | _ ↦ false
]

pub record NativeAudioCommandDecision : Type 0 where
  pub allowed : Bool
  pub audio : NativeAudioRouteStatus

abbrev pub route_ready : NativeAudioRouteStatus → Bool
route_ready NativeAudioRouteStatus.is_ready = true
route_ready _ = false

unfoldable pub admit_native_audio_command :
    NativeCommandAdmission
    → NativeCallCommand
    → SipRuntimeObservation
    → NativeAudioRoute
    → AudioInventory
    → NativeCommandAdmission × NativeAudioCommandDecision
admit_native_audio_command admission command state route inventory =
    let audio = native_audio_route_status route inventory in
    let (after, ok) = admit admission command state in
    if not (native_command_is_current command state)
    then (admission, record { allowed = false; audio = NativeAudioRouteStatus.is_ready })
    else if native_command_needs_audio_preflight command && not (route_ready audio)
    then (admission, record { allowed = false; audio = audio })
    else (after, record { allowed = ok; audio = NativeAudioRouteStatus.is_ready })
