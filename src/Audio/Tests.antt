-- ===== src/Audio/Tests.antt =====
-- The theorems on the audio devices at concrete inputs.
use axe_voice_desktop.Prelude.{true, false, ◌≡◌, List, [], ◌∷◌, some, refl, codes}
use axe_voice_desktop.Sip.Status.{SipStatus}
use axe_voice_desktop.Sip.Observation.{
  RuntimeProcess, SipEvidence, SipRuntimeObservation, initial_observation,
}
use axe_voice_desktop.Audio.Routes.{NativeAudioRoute, admit_native_audio_command}
use axe_voice_desktop.Audio.Routes.Guard.{Decided, admit_native_audio_command_lem}
use axe_voice_desktop.Native.Control.{NativeCallAction, command_for, initial_admission}
use axe_voice_desktop.Audio.Async
use axe_voice_desktop.Audio.Async.{make_async, take_result}
use axe_voice_desktop.Audio.Async.Fresh
use axe_voice_desktop.Audio.Async.Fresh.{first_story, taken_is_fresh}
use axe_voice_desktop.Audio.Changes
use axe_voice_desktop.Audio.Changes.Due
use axe_voice_desktop.Audio.Devices.{
  AudioEndpoint, AudioInventory, AudioInventoryError, empty_inventory, refresh_audio_selection,
  refresh_ringtone_selection,
}
use axe_voice_desktop.Audio.Devices.Choice.{IsChosen, refresh-IsChosen}

abbrev headset : AudioEndpoint
headset = record { id = codes "headset"; default_communications = true; default_multimedia = false }

abbrev speaker : AudioEndpoint
speaker = record { id = codes "speaker"; default_communications = false; default_multimedia = true }

refresh-IsChosen_example :
    IsChosen
      (speaker ∷ headset ∷ [])
      (codes "gone")
      (refresh_audio_selection (speaker ∷ headset ∷ []) (codes "gone"))
    × IsChosen
        (speaker ∷ headset ∷ [])
        (codes "gone")
        (refresh_ringtone_selection (speaker ∷ headset ∷ []) (codes "gone"))
refresh-IsChosen_example = refresh-IsChosen (speaker ∷ headset ∷ []) (codes "gone")

abbrev found : AudioInventory
found = record {
  input_devices = headset ∷ [];
  output_devices = speaker ∷ headset ∷ [];
  error = AudioInventoryError.no_error;
}

-- The inventory is asked for twice; the first worker ends late and is not heeded.
abbrev asked_twice : List Fresh.Op
asked_twice =
    Fresh.Op.requested
    ∷ Fresh.Op.launched true
    ∷ Fresh.Op.requested
    ∷ Fresh.Op.completed empty_inventory
    ∷ Fresh.Op.launched true
    ∷ Fresh.Op.completed found
    ∷ []

is_taken :
    (take_result (Fresh.run make_async (first_story empty_inventory) asked_twice).0).1 ≡ some found
unfolding Fresh.run Fresh.step Fresh.tell Async.request Async.invalidate Async.start_pending
    Async.complete_for take_result
is_taken = refl

taken_is_fresh_example :
    let t = (Fresh.run make_async (first_story empty_inventory) asked_twice).1 in
    (found ≡ t.result) × (t.found ≡ t.now)
taken_is_fresh_example = taken_is_fresh asked_twice found is_taken

-- A change, and then another one from a clock that went back.
abbrev two_changes : List Due.Op
two_changes = Due.Op.entered 1000 ∷ Due.Op.changed_at 1200 ∷ Due.Op.changed_at 1100 ∷ []

abbrev ringing : SipRuntimeObservation
ringing = record initial_observation {
  sip = SipStatus.ringing;
  process = RuntimeProcess.running;
  evidence = SipEvidence.verified_native_api;
  session = 3;
  call_id = 9;
}

-- A route whose playback device is missing.
abbrev gone_route : NativeAudioRoute
gone_route = record { capture_id = []; playback_id = codes "gone" }

admit_native_audio_command_lem_example :
    let result =
      admit_native_audio_command initial_admission
        (command_for NativeCallAction.answer 3 9)
        ringing
        gone_route
        found in
    Decided initial_admission
      (command_for NativeCallAction.answer 3 9)
      ringing
      gone_route
      found
      result.0
      result.1
admit_native_audio_command_lem_example =
    admit_native_audio_command_lem initial_admission (command_for NativeCallAction.answer 3 9)
      ringing gone_route found
