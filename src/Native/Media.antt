-- ===== src/Native/Media.antt =====
-- src/native_call_media.h, src/native_dtmf.h: the media state of a call and the keypad mode.
use axe_voice_desktop.Prelude.{Bool, true, false, ℕ, ◌==◌, ◌!=◌, ◌&&◌, not, if◌then◌else◌}
use axe_voice_desktop.Sip.Status.{SipStatus, status_eq}
use axe_voice_desktop.Sip.Observation.{SipRuntimeObservation, sip_proof_is_current}

-- `None` is spelled `no_transfer`.
pub data NativeTransferState : Type 0 where
  no_transfer submitted failed : NativeTransferState

pub record NativeCallMediaState : Type 0 where
  pub session : ℕ  -- uint64_t
  pub call_id : ℕ  -- uint64_t
  pub available : Bool
  pub muted : Bool
  pub local_hold : Bool
  pub hold_request_error : ℕ
  pub transfer : NativeTransferState

unfoldable pub native_media_controls_current : NativeCallMediaState → SipRuntimeObservation → Bool
native_media_controls_current media call =
    media.available
    && media.call_id != 0
    && media.call_id == call.call_id
    && status_eq call.sip SipStatus.in_call
    && sip_proof_is_current call media.session

abbrev is_no_transfer : NativeTransferState → Bool
is_no_transfer NativeTransferState.no_transfer = true
is_no_transfer _ = false

unfoldable pub native_dtmf_controls_current : NativeCallMediaState → SipRuntimeObservation → Bool
native_dtmf_controls_current media call =
    native_media_controls_current media call
    && not media.local_hold
    && is_no_transfer media.transfer

-- `NativeDtmfMode`: the call for which the keypad sends tones.
pub record NativeDtmfMode : Type 0 where
  pub session : ℕ  -- uint64_t
  pub call : ℕ  -- uint64_t

abbrev pub unarmed : NativeDtmfMode
unarmed = record { session = 0; call = 0 }

unfoldable pub armed : NativeDtmfMode → Bool
armed m = m.session != 0 && m.call != 0

unfoldable pub active : NativeDtmfMode → NativeCallMediaState → SipRuntimeObservation → Bool
active m media call =
    armed m
    && m.session == media.session
    && m.call == media.call_id
    && native_dtmf_controls_current media call

unfoldable pub synchronize :
    NativeDtmfMode → NativeCallMediaState → SipRuntimeObservation → NativeDtmfMode
synchronize m media call = if active m media call then m else unarmed

unfoldable pub toggle :
    NativeDtmfMode → NativeCallMediaState → SipRuntimeObservation → NativeDtmfMode × Bool
toggle m media call =
    if active m media call
    then (unarmed, true)
    else if not (native_dtmf_controls_current media call)
    then (unarmed, false)
    else (record { session = media.session; call = media.call_id }, true)
