-- ===== src/Audio/Routes/Guard.antt =====
-- A command that needs the devices is admitted only while they are there.
use axe_voice_desktop.Prelude.{
  Bool, true, false, ℕ, ◌+◌, ◌≡◌, ◌==◌, ◌&&◌, ◌||◌, ◌⊎◌, if◌then◌else◌, not, List, [], ◌∷◌, refl,
  arith, Text,
}
use axe_voice_desktop.Sip.Observation.{SipRuntimeObservation}
use axe_voice_desktop.Native.Control.{
  NativeCallAction, NativeCallCommand, NativeCommandAdmission, admit, native_command_is_current,
}
use axe_voice_desktop.Audio.Devices.{AudioEndpoint, AudioInventory, first_from, no_failure}
use axe_voice_desktop.Audio.Devices.Choice.{some_endpoint}
use axe_voice_desktop.Audio.Routes.{
  NativeAudioRoute, NativeAudioRouteStatus, NativeAudioCommandDecision, is_fixed, available,
  index_of, fixed_native_audio_selection, native_audio_route_status,
  native_command_needs_audio_preflight, admit_native_audio_command, route_ready,
  valid_native_audio_route,
}

-- The names of a route are acceptable, and its devices are in an inventory that was read.
abbrev pub is_present : NativeAudioRoute → AudioInventory → Bool
is_present route inventory =
    valid_native_audio_route route
    && no_failure inventory.error
    && some_endpoint (is_fixed route.capture_id) inventory.input_devices
    && some_endpoint (is_fixed route.playback_id) inventory.output_devices

-- Dialling, answering and resuming begin the sound of a call.
abbrev pub begins_sound : NativeCallAction → Bool → Bool
begins_sound NativeCallAction.dial desired = true
begins_sound NativeCallAction.answer desired = true
begins_sound NativeCallAction.set_hold desired = not desired
begins_sound _ desired = false

-- Answering, hanging up and transferring are for once.
abbrev pub is_once : NativeCallAction → Bool
is_once NativeCallAction.answer = true
is_once NativeCallAction.hangup = true
is_once NativeCallAction.transfer = true
is_once _ = false

-- The last action of the kind that was admitted was for this session and this call.
abbrev pub repeats : NativeCommandAdmission → NativeCallAction → ℕ → ℕ → Bool
repeats a NativeCallAction.answer session call =
    a.answer_session == session && a.answer_call == call
repeats a NativeCallAction.hangup session call =
    a.hangup_session == session && a.hangup_call == call
repeats a NativeCallAction.transfer session call =
    a.transfer_session == session && a.transfer_call == call
repeats a _ session call = false

abbrev repeated : NativeCommandAdmission → NativeCallCommand → Bool
repeated a c = repeats a c.action c.session c.call_id

first_from_available :
    (test : AudioEndpoint → Bool) (ds : List AudioEndpoint) (i : ℕ) (id : Text)
    → available (record {
      index = index_of (first_from test i ds);
      selected_id = id;
      replaced_missing_device = false;
    })
      ≡ some_endpoint test ds
unfolding first_from some_endpoint
first_from_available test [] i id = refl
first_from_available test (d ∷ ds) i id = ground (arith, first_from_available test ds (i + 1) id)

route_ready-is_present :
    (route : NativeAudioRoute) (inventory : AudioInventory)
    → route_ready (native_audio_route_status route inventory) ≡ is_present route inventory
unfolding native_audio_route_status fixed_native_audio_selection
route_ready-is_present route inventory =
    let capture = route.capture_id in
    let playback = route.playback_id in
    ground (
      arith,
      first_from_available (is_fixed capture) inventory.input_devices 0 capture,
      first_from_available (is_fixed playback) inventory.output_devices 0 playback,
    )

route_ready→≡ :
    (r : NativeAudioRouteStatus) → route_ready r ≡ true → r ≡ NativeAudioRouteStatus.is_ready
route_ready→≡ r h = ground (arith, h)

needs-begins_sound :
    (c : NativeCallCommand)
    → native_command_needs_audio_preflight c ≡ begins_sound c.action c.desired
unfolding native_command_needs_audio_preflight
needs-begins_sound c = ground arith

-- What admitting a command comes to, with the admission before and after.
record Admitting (a a' : NativeCommandAdmission) (ok : Bool) (c : NativeCallCommand)
    (s : SipRuntimeObservation) : Type 0 where
  allowed : ok ≡ native_command_is_current c s && not (repeated a c)
  kept : (ok ≡ true) ⊎ (a' ≡ a)
  stored : (ok ≡ false) ⊎ (repeated a' c ≡ is_once c.action)

admit-Admitting :
    (a : NativeCommandAdmission) (c : NativeCallCommand) (s : SipRuntimeObservation)
    → Admitting a (admit a c s).0 (admit a c s).1 c s
unfolding admit
admit-Admitting a c s = ground arith

-- What a look at the devices and the admission comes to.
pub record Decided (admission : NativeCommandAdmission) (command : NativeCallCommand)
    (state : SipRuntimeObservation) (route : NativeAudioRoute) (inventory : AudioInventory)
    (after : NativeCommandAdmission) (decision : NativeAudioCommandDecision) : Type 0 where
  pub allowed :
      decision.allowed
      ≡ native_command_is_current command state
        && (not (begins_sound command.action command.desired) || is_present route inventory)
        && not (repeated admission command)
  pub kept : (decision.allowed ≡ true) ⊎ (after ≡ admission)
  pub stored : (decision.allowed ≡ false) ⊎ (repeated after command ≡ is_once command.action)
  pub reported : decision.audio ≡ (
      if native_command_is_current command state && begins_sound command.action command.desired
      then native_audio_route_status route inventory
      else NativeAudioRouteStatus.is_ready)

-- A command is admitted exactly if it is current; if, to dial, to answer or to resume, the names of the
-- route are acceptable and its devices are in an inventory that was read; and if it does not repeat
-- the last answer, hang-up or transfer that was admitted. An answer, a hang-up or a transfer that is
-- admitted is one that would be a repetition afterwards, and a command that is refused leaves the
-- admission as it was. The status of the route is reported for a current command to dial, to answer or
-- to resume, and else none that stands in the way.
pub admit_native_audio_command_lem :
    (admission : NativeCommandAdmission) (command : NativeCallCommand)
    (state : SipRuntimeObservation) (route : NativeAudioRoute) (inventory : AudioInventory)
    → let (after, decision) = admit_native_audio_command admission command state route inventory in
      Decided admission command state route inventory after decision
unfolding admit_native_audio_command
admit_native_audio_command_lem admission command state route inventory = ground (
  arith,
  admit-Admitting admission command state,
  route_ready-is_present route inventory,
  needs-begins_sound command,
)
