-- ===== src/Native/Ringtone/Silence.antt =====
-- When a call rings.
use axe_voice_desktop.Prelude.{Bool, true, ◌≡◌, ◌≢◌, ◌==◌, ◌&&◌, not, arith, Text}
use axe_voice_desktop.Sip.Observation.{SipRuntimeObservation, sip_proof_is_current}
use axe_voice_desktop.Native.Ringtone.{
  IncomingRingtonePolicy, request, silence, is_requested, verified_incoming_call,
  valid_ringtone_endpoint,
}

incoming_needs :
    (o : SipRuntimeObservation)
    → verified_incoming_call o ≡ true
    → (o.call_id ≢ 0) × (o.session ≢ 0)
unfolding verified_incoming_call sip_proof_is_current
incoming_needs o h = ground arith

-- A call rings exactly if it is a verified incoming one, sound is on, no preview plays, the endpoint is
-- usable, and it is not the last call to have been silenced.
pub silenced_call_rings :
    (p : IncomingRingtonePolicy) (silenced call : SipRuntimeObservation) (id : Text)
    (preview_playing sound_muted : Bool)
    → verified_incoming_call silenced ≡ true
    → is_requested (request (silence p silenced) call id preview_playing sound_muted) ≡ (
        verified_incoming_call call
        && valid_ringtone_endpoint id
        && not preview_playing
        && not sound_muted
        && not (call.session == silenced.session && call.call_id == silenced.call_id))
unfolding request silence
silenced_call_rings p silenced call id preview_playing sound_muted h =
    ground (arith, incoming_needs call)
