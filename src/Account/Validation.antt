-- ===== src/Account/Validation.antt =====
-- src/sip_account.h, src/sip_registration_policy.h and src/native_codec_mode.h: the account, and whether
-- it may be registered.
use axe_voice_desktop.Prelude.{
  Bool, true, false, ℕ, ◌==◌, ◌||◌, not, if◌then◌else◌, Text, codes, is_empty, all, is_alnum,
}
use axe_voice_desktop.Call.Address.{valid_sip_host}
use axe_voice_desktop.Sip.Status.{SipStatus}

pub data NativeCodecMode : Type 0 where
  automatic pcma pcmu : NativeCodecMode

abbrev pub valid_native_codec_mode : NativeCodecMode → Bool
valid_native_codec_mode NativeCodecMode.automatic = true
valid_native_codec_mode NativeCodecMode.pcma = true
valid_native_codec_mode NativeCodecMode.pcmu = true

abbrev pub native_audio_codec_list : NativeCodecMode → Text
native_audio_codec_list NativeCodecMode.automatic = codes "PCMU/8000/1,PCMA/8000/1"
native_audio_codec_list NativeCodecMode.pcma = codes "PCMA/8000/1"
native_audio_codec_list NativeCodecMode.pcmu = codes "PCMU/8000/1"

pub record SipAccount : Type 0 where
  pub server : Text
  pub username : Text
  pub port : ℕ  -- unsigned short
  pub use_tls : Bool
  pub codec_mode : NativeCodecMode

pub data AccountError : Type 0 where
  no_error missing_server invalid_server missing_user invalid_user invalid_port : AccountError

abbrev pub is_valid_account : AccountError → Bool
is_valid_account AccountError.no_error = true
is_valid_account _ = false

abbrev pub is_account_char : ℕ → Bool
is_account_char c = is_alnum c || c == b'_' || c == b'.' || c == b'-' || c == b'+'

unfoldable pub validate_account : SipAccount → AccountError
validate_account a =
    if is_empty a.server
    then AccountError.missing_server
    else if is_empty a.username
    then AccountError.missing_user
    else if a.port == 0
    then AccountError.invalid_port
    else if not (valid_sip_host a.server)
    then AccountError.invalid_server
    else if not (all is_account_char a.username)
    then AccountError.invalid_user
    else AccountError.no_error

pub data RegistrationDecision : Type 0 where
  allowed invalid_account engine_unavailable busy already_registered : RegistrationDecision

-- The tests on the status.
abbrev pub decision_in : SipStatus → RegistrationDecision
decision_in SipStatus.unavailable = RegistrationDecision.engine_unavailable
decision_in SipStatus.registering = RegistrationDecision.busy
decision_in SipStatus.calling = RegistrationDecision.busy
decision_in SipStatus.ringing = RegistrationDecision.busy
decision_in SipStatus.in_call = RegistrationDecision.busy
decision_in SipStatus.registered = RegistrationDecision.already_registered
decision_in _ = RegistrationDecision.allowed

unfoldable pub evaluate_registration : SipAccount → SipStatus → RegistrationDecision
evaluate_registration account state =
    if not (is_valid_account (validate_account account))
    then RegistrationDecision.invalid_account
    else decision_in state
