-- ===== src/Cti/ContractTests.antt =====
-- The theorem on the requests of local clients at a concrete input.
use axe_voice_desktop.Prelude.{◌≡◌, ◌==◌, ltb, refl, arith, Text, codes, is_digit}
use axe_voice_desktop.Call.Address.{WideClasses}
use axe_voice_desktop.Cti.Contract.{
  accept_destination, parse_axvoice_click_to_call_uri, parse_cti_call_json,
}
use axe_voice_desktop.Cti.Contract.Channels.{call_json, call_link, channels_agree}

abbrev ascii : WideClasses
ascii = record { iswspace = λ c. c == b' '; iswcntrl = λ c. ltb c 32; iswdigit = is_digit }

abbrev extension : Text
extension = codes "1001"

channels_agree_example :
    (parse_cti_call_json ascii (call_json extension) ≡ accept_destination ascii extension)
    × (parse_axvoice_click_to_call_uri ascii (call_link extension)
        ≡ accept_destination ascii extension)
channels_agree_example = channels_agree ascii extension refl (omega arith) (omega arith)
