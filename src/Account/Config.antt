-- ===== src/Account/Config.antt =====
-- src/native_account_config.h, and the end of src/native_transfer.h: what the native engine is given of an
-- account, and the destination of a call.
pub mod Lines
pub mod Destination
use axe_voice_desktop.Prelude.{
  Bool, true, false, ℕ, zero, suc, ◌+◌, ◌-◌, ◌*◌, ◌/◌, ◌%◌, ◌^◌, ◌≤◌, ◌<◌, ◌≡◌, ◌≢◌, ◌↔◌, ◌⊎◌, ◌∙◌,
  ◌==◌, ◌!=◌, ◌||◌, ◌&&◌, not, if◌then◌else◌, leb, ltb, List, [], ◌∷◌, ◌++◌, map, append_assoc,
  append-nil, Option, none, some, inl, inr, refl, sym, ap, arith, tests, Bool-cases, Option-cases,
  length, get_or, set, take, drop, replicate, pop_front, All, All-append, All-mono, All-take,
  length-append, length-set, length-take, get_or-set_self, get_or-set_ne, u64_mod, u64_max, inc_u64,
  sub_u64, Text, codes, text_eq, is_empty, any, all, between, is_digit, is_letter, is_alnum,
  text_eq→≡, text_eq_refl, starts_with, value_from, value_grows, Before, newer_session,
  newer_sequence, NewerFrom, NewerFrom-mono, NotAfter, newer, same_or_later, NotAfter-trans, lt→ltb,
  ltb→lt, leb→le, le→leb, ==_iff,
}
use axe_voice_desktop.Call.Address.{WideClasses, is_accepted, validate_address}
use axe_voice_desktop.Cti.Cursor.{to_string}
use axe_voice_desktop.Account.Validation.{
  SipAccount, is_account_char, is_valid_account, native_audio_codec_list, valid_native_codec_mode,
  validate_account,
}
use axe_voice_desktop.Audio.Routes.{NativeAudioRoute, valid_native_audio_route}
use axe_voice_desktop.Sdk.CallPort.{valid_native_transfer_uri}

-- Both texts of `NativeAccountConfig`; `none` where `valid` is not set.
pub record NativeAccountConfig : Type 0 where
  pub aor : Text
  pub config : Text

abbrev pub is_printable : ℕ → Bool
is_printable c = between 32 126 c

-- Nothing, if a character is not printable.
unfoldable pub native_ascii : Text → Text
native_ascii value = if all is_printable value then value else []

abbrev pub newline : ℕ
newline = 10

abbrev pub is_hash : Text → Bool
is_hash (c ∷ cs) = c == b'#'
is_hash [] = false

-- The certificate file, as it is refused for TLS.
abbrev pub bad_trust : Text → Bool
bad_trust trust =
    is_empty trust || ltb 240 (length trust) || any (λ c. c == b'"') trust || is_hash trust

abbrev pub transport : Bool → Text
transport true = codes "tls"
transport false = codes "udp"

abbrev pub device : Text → Text
device id = if is_empty id then codes "default" else native_ascii id

abbrev pub line : Text → Text → Text
line start value = start ++ (value ++ (newline ∷ []))

unfoldable pub aor_of : SipAccount → Text
aor_of a =
    codes "<sip:"
    ++ (native_ascii a.username
        ++ (codes "@"
            ++ (native_ascii a.server
                ++ (codes ":"
                    ++ (to_string a.port
                        ++ (codes ";transport="
                            ++ (transport a.use_tls
                                ++ (codes ">;regint=0;dtmfmode=info;audio_codecs="
                                    ++ native_audio_codec_list a.codec_mode))))))))

unfoldable pub config_of : SipAccount → Text → NativeAudioRoute → Text
config_of a trust audio =
    line (codes "poll_method select") []
    ++ (line (codes "sip_transports ") (transport a.use_tls)
        ++ (line (codes "sip_verify_server yes") []
            ++ (line (codes "audio_player wasapi,") (device audio.playback_id)
                ++ (line (codes "audio_source wasapi,") (device audio.capture_id)
                    ++ (line (codes "audio_alert wasapi,default") []
                        ++ (line (codes "call_max_calls 1") []
                            ++ ((if text_eq a.server (codes "127.0.0.1")
                                  then line (codes "net_interface 127.0.0.1") []
                                  else [])
                                ++ (if a.use_tls
                                    then line (codes "sip_cafile ") trust
                                    else []))))))))

unfoldable pub native_account_config :
    SipAccount → Text → NativeAudioRoute → Option NativeAccountConfig
native_account_config a ca audio =
    let trust = native_ascii ca in
    if not (valid_native_audio_route audio) || not (valid_native_codec_mode a.codec_mode)
    then none
    else if not (is_valid_account (validate_account a))
        || ltb 253 (length a.server)
        || ltb 128 (length a.username)
    then none
    else if is_empty (native_ascii a.server) || is_empty (native_ascii a.username)
    then none
    else if not (all is_account_char (native_ascii a.username))
    then none
    else if a.use_tls && bad_trust trust
    then none
    else some (record { aor = aor_of a; config = config_of a trust audio })

pub data NativeDestinationError : Type 0 where
  no_error invalid_address transport_mismatch : NativeDestinationError
  unsupported_characters too_long invalid_account : NativeDestinationError

pub record NativeDestinationResult : Type 0 where
  pub error : NativeDestinationError
  pub uri : Text

abbrev pub no_route : NativeAudioRoute
no_route = record { capture_id = []; playback_id = [] }

abbrev pub refused : NativeDestinationError → NativeDestinationResult
refused error = record { error = error; uri = [] }

unfoldable pub is_secure : Text → Bool
is_secure uri = starts_with (codes "sips:") uri

unfoldable pub is_plain_sip : Text → Bool
is_plain_sip uri = starts_with (codes "sip:") uri

-- The text behind the scheme.
unfoldable pub without_scheme : Text → Text
without_scheme uri =
    if is_secure uri then drop 5 uri else if is_plain_sip uri then drop 4 uri else uri

unfoldable pub has_at : Text → Bool
has_at uri = any (λ c. c == b'@') uri

-- The route of the account, for an extension.
abbrev pub routed : Text → SipAccount → Text
routed uri a =
    (if a.use_tls then codes "sips:" else codes "sip:")
    ++ (without_scheme uri
        ++ (codes "@"
            ++ (native_ascii a.server
                ++ (codes ":"
                    ++ (to_string a.port
                        ++ (if a.use_tls
                            then codes ";transport=tls"
                            else codes ";transport=udp"))))))

abbrev pub is_call_user_char : ℕ → Bool
is_call_user_char c = is_account_char c || c == b'*' || c == b'#'

-- The characters up to the `@`.
abbrev pub user_of : Text → Text
user_of [] = []
user_of (c ∷ cs) = if c == b'@' then [] else c ∷ user_of cs

-- The last checks, on a text with an `@`.
unfoldable pub check_uri : Text → NativeDestinationResult
check_uri uri =
    let start = if is_secure uri then 5 else 4 in
    let user = user_of (drop start uri) in
    if ltb 512 (length uri)
    then refused NativeDestinationError.too_long
    else if not (has_at uri) || has_at (take start uri) || is_empty user
    then refused NativeDestinationError.invalid_address
    else if not (all is_call_user_char user)
    then refused NativeDestinationError.unsupported_characters
    else record { error = NativeDestinationError.no_error; uri = uri }

abbrev pub is_configured : Option NativeAccountConfig → Bool
is_configured none = false
is_configured (some c) = true

unfoldable pub native_call_destination_result :
    WideClasses → Text → SipAccount → NativeDestinationResult
native_call_destination_result w typed a =
    let parsed = validate_address w typed in
    let uri = native_ascii parsed.normalized in
    let ca = if a.use_tls then codes "validated-ca" else [] in
    if ltb 512 (length typed)
    then refused NativeDestinationError.too_long
    else if not (is_accepted parsed.error)
    then refused NativeDestinationError.invalid_address
    else if is_empty uri
    then refused NativeDestinationError.unsupported_characters
    else if (is_secure uri && not a.use_tls) || (is_plain_sip uri && a.use_tls)
    then refused NativeDestinationError.transport_mismatch
    else if has_at uri
    then check_uri uri
    else if not (is_configured (native_account_config a ca no_route))
    then refused NativeDestinationError.invalid_account
    else check_uri (routed uri a)

abbrev pub is_destination : NativeDestinationResult → Bool
is_destination r = elim r.error [
  | NativeDestinationError.no_error ↦ not (is_empty r.uri)
  | _ ↦ false
]

unfoldable pub native_transfer_destination_result :
    WideClasses → Text → SipAccount → NativeDestinationResult
native_transfer_destination_result w typed a =
    let result = native_call_destination_result w typed a in
    if not (is_destination result) || valid_native_transfer_uri w result.uri
    then result
    else refused NativeDestinationError.invalid_address
