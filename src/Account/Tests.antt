-- ===== src/Account/Tests.antt =====
-- The theorems on the account at concrete inputs.
use axe_voice_desktop.Prelude.{
  true, false, ◌+◌, ◌≡◌, ◌==◌, ◌&&◌, if◌then◌else◌, ltb, [], some, refl, codes, text_eq, is_digit,
}
use axe_voice_desktop.Call.Address
use axe_voice_desktop.Call.Address.{WideClasses}
use axe_voice_desktop.Audio.Routes
use axe_voice_desktop.Cti.Cursor
use axe_voice_desktop.Audio.Routes.{NativeAudioRoute}
use axe_voice_desktop.Account.Validation
use axe_voice_desktop.Account.Validation.{NativeCodecMode, SipAccount}
use axe_voice_desktop.Account.Form.{evaluate_account_form}
use axe_voice_desktop.Account.Form.Port.{
  account_ok, evaluate_account_form_lem, is_valid_kind, port_text_ok,
}
use axe_voice_desktop.Account.Config
use axe_voice_desktop.Account.Config.{
  NativeAccountConfig, aor_of, config_of, is_destination, native_account_config, native_ascii,
  native_call_destination_result, no_route,
}
use axe_voice_desktop.Account.Config.Lines.{lines, native_account_config-lines}
use axe_voice_desktop.Account.Config.Destination.{
  IsRoutable, native_call_destination_result-IsRoutable,
}

evaluate_account_form_lem_example :
    let r = evaluate_account_form (codes "pbx.local") (codes "1001") (codes "05060") in
    (is_valid_kind r.kind
      ≡ (port_text_ok (codes "05060") && account_ok (codes "pbx.local") (codes "1001") 5060))
    × (r.port ≡ (if is_valid_kind r.kind then 5060 else 0))
evaluate_account_form_lem_example =
    evaluate_account_form_lem (codes "pbx.local") (codes "1001") (codes "05060")

abbrev ascii : WideClasses
ascii = record { iswspace = λ c. c == b' '; iswcntrl = λ c. ltb c 32; iswdigit = is_digit }

abbrev account : SipAccount
account = record {
  server = codes "127.0.0.1";
  username = codes "1001";
  port = 5060;
  use_tls = false;
  codec_mode = NativeCodecMode.pcma;
}

abbrev configured : NativeAccountConfig
configured = record { aor = aor_of account; config = config_of account [] no_route }

is_configured_account : native_account_config account [] no_route ≡ some configured
unfolding native_account_config native_ascii Routes.valid_native_audio_id
    Validation.validate_account Address.valid_sip_host
is_configured_account = refl

native_account_config-lines_example :
    (lines (aor_of account) ≡ 0)
    × (lines (config_of account [] no_route)
        ≡ 7 + ((if text_eq (codes "127.0.0.1") (codes "127.0.0.1") then 1 else 0) + 0))
native_account_config-lines_example =
    native_account_config-lines account [] no_route configured is_configured_account

is_called : is_destination (native_call_destination_result ascii (codes "1002") account) ≡ true
unfolding native_call_destination_result native_ascii Address.validate_address
    Address.validate_value Config.is_secure Config.is_plain_sip Config.has_at native_account_config
    Routes.valid_native_audio_id Validation.validate_account Address.valid_sip_host Config.check_uri
    Config.without_scheme Cursor.digits
is_called = refl

native_call_destination_result-IsRoutable_example :
    IsRoutable (native_call_destination_result ascii (codes "1002") account).uri false
native_call_destination_result-IsRoutable_example =
    native_call_destination_result-IsRoutable ascii (codes "1002") account is_called
