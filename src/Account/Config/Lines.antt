-- ===== src/Account/Config/Lines.antt =====
-- The lines of the configuration, and the destinations of calls.
use axe_voice_desktop.Prelude.{
  Bool, true, false, ℕ, zero, suc, ◌+◌, ◌/◌, ◌%◌, ◌≡◌, ◌==◌, if◌then◌else◌, [], ◌∷◌, ◌++◌, some,
  inl, inr, refl, arith, Bool-cases, Text, codes, text_eq, all,
}
use axe_voice_desktop.Cti.Cursor.{digits, to_string}
use axe_voice_desktop.Account.Validation.{NativeCodecMode, SipAccount, native_audio_codec_list}
use axe_voice_desktop.Audio.Routes.{NativeAudioRoute}
use axe_voice_desktop.Account.Config.{
  NativeAccountConfig, is_printable, native_ascii, newline, transport, device, line, aor_of,
  config_of, native_account_config,
}

-- How often a line ends.
abbrev pub lines : Text → ℕ
lines [] = 0
lines (c ∷ cs) = (if c == newline then 1 else 0) + lines cs

lines-append : (xs ys : Text) → lines (xs ++ ys) ≡ lines xs + lines ys
lines-append [] ys = omega arith
lines-append (c ∷ cs) ys = omega (arith, lines-append cs ys)

printable-lines : (cs : Text) → all is_printable cs ≡ true → lines cs ≡ 0
printable-lines [] h = refl
printable-lines (c ∷ cs) h = ground (arith, h, printable-lines cs)

native_ascii-lines : (cs : Text) → lines (native_ascii cs) ≡ 0
unfolding native_ascii
native_ascii-lines cs = ground (arith, printable-lines cs)

device-lines : (id : Text) → lines (device id) ≡ 0
device-lines [] = refl
device-lines (c ∷ cs) = native_ascii-lines (c ∷ cs)

transport-lines : (tls : Bool) → lines (transport tls) ≡ 0
transport-lines true = refl
transport-lines false = refl

codec-lines : (mode : NativeCodecMode) → lines (native_audio_codec_list mode) ≡ 0
codec-lines NativeCodecMode.automatic = refl
codec-lines NativeCodecMode.pcma = refl
codec-lines NativeCodecMode.pcmu = refl

digits-lines : (fuel n : ℕ) (after : Text) → lines (digits fuel n after) ≡ lines after
unfolding digits
digits-lines zero n after = refl
digits-lines (suc fuel) n after =
    ground (arith, digits-lines fuel (n / 10) ((b'0' + n % 10) ∷ after))

-- A line of its own.
line-lines :
    (start value : Text)
    → all is_printable start ≡ true
    → lines value ≡ 0
    → lines (line start value) ≡ 1
line-lines start value h k = omega (
  arith,
  lines-append start (value ++ (newline ∷ [])),
  lines-append value (newline ∷ []),
  printable-lines start h,
  k,
  one,
)
  where
    one : lines (newline ∷ []) ≡ 1
    one = refl

-- A line before others.
before-lines :
    (start value rest : Text)
    → all is_printable start ≡ true
    → lines value ≡ 0
    → lines (line start value ++ rest) ≡ 1 + lines rest
before-lines start value rest h k =
    omega (arith, lines-append (line start value) rest, line-lines start value h k)

config-lines :
    (a : SipAccount) (trust : Text) (audio : NativeAudioRoute)
    → lines trust ≡ 0
    → lines (config_of a trust audio)
      ≡ 7 + ((if text_eq a.server (codes "127.0.0.1") then 1 else 0) + (if a.use_tls then 1 else 0))
unfolding config_of
config-lines a trust audio h =
    let loop =
      if text_eq a.server (codes "127.0.0.1")
      then line (codes "net_interface 127.0.0.1") []
      else [] in
    let cafile = if a.use_tls then line (codes "sip_cafile ") trust else [] in
    let r7 = loop ++ cafile in
    let r6 = line (codes "call_max_calls 1") [] ++ r7 in
    let r5 = line (codes "audio_alert wasapi,default") [] ++ r6 in
    let r4 = line (codes "audio_source wasapi,") (device audio.capture_id) ++ r5 in
    let r3 = line (codes "audio_player wasapi,") (device audio.playback_id) ++ r4 in
    let r2 = line (codes "sip_verify_server yes") [] ++ r3 in
    let r1 = line (codes "sip_transports ") (transport a.use_tls) ++ r2 in
    let loop_lines : lines loop ≡ (if text_eq a.server (codes "127.0.0.1") then 1 else 0) =
      elim (Bool-cases (text_eq a.server (codes "127.0.0.1"))) [
        | inl e ↦ rw e (line-lines (codes "net_interface 127.0.0.1") [] refl refl)
        | inr e ↦ rw e refl
      ] in
    let cafile_lines : lines cafile ≡ (if a.use_tls then 1 else 0) = elim (Bool-cases a.use_tls) [
      | inl e ↦ rw e (line-lines (codes "sip_cafile ") trust refl h)
      | inr e ↦ rw e refl
    ] in
    omega (
      arith,
      before-lines (codes "poll_method select") [] r1 refl refl,
      before-lines (codes "sip_transports ") (transport a.use_tls) r2 refl
          (transport-lines a.use_tls),
      before-lines (codes "sip_verify_server yes") [] r3 refl refl,
      before-lines (codes "audio_player wasapi,") (device audio.playback_id) r4 refl
          (device-lines audio.playback_id),
      before-lines (codes "audio_source wasapi,") (device audio.capture_id) r5 refl
          (device-lines audio.capture_id),
      before-lines (codes "audio_alert wasapi,default") [] r6 refl refl,
      before-lines (codes "call_max_calls 1") [] r7 refl refl,
      lines-append loop cafile,
      loop_lines,
      cafile_lines,
    )

none-lines : (xs ys : Text) → lines xs ≡ 0 → lines ys ≡ 0 → lines (xs ++ ys) ≡ 0
none-lines xs ys h k = omega (arith, lines-append xs ys, h, k)

aor-lines : (a : SipAccount) → lines (aor_of a) ≡ 0
unfolding aor_of
aor-lines a =
    let list = native_audio_codec_list a.codec_mode in
    let r7 = codes ">;regint=0;dtmfmode=info;audio_codecs=" ++ list in
    let r6 = transport a.use_tls ++ r7 in
    let r5 = codes ";transport=" ++ r6 in
    let r4 = to_string a.port ++ r5 in
    let r3 = codes ":" ++ r4 in
    let r2 = native_ascii a.server ++ r3 in
    let r1 = codes "@" ++ r2 in
    let l7 =
      none-lines (codes ">;regint=0;dtmfmode=info;audio_codecs=") list refl
        (codec-lines a.codec_mode) in
    let l6 = none-lines (transport a.use_tls) r7 (transport-lines a.use_tls) l7 in
    let l5 = none-lines (codes ";transport=") r6 refl l6 in
    let l4 = none-lines (to_string a.port) r5 (digits-lines 20 a.port []) l5 in
    let l3 = none-lines (codes ":") r4 refl l4 in
    let l2 = none-lines (native_ascii a.server) r3 (native_ascii-lines a.server) l3 in
    let l1 = none-lines (codes "@") r2 refl l2 in
    none-lines (codes "<sip:") (native_ascii a.username ++ r1) refl
      (none-lines (native_ascii a.username) r1 (native_ascii-lines a.username) l1)

-- No account, certificate file or device adds a line to the configuration of the native engine: it has
-- the lines that are its own, and the address of the account has none.
pub native_account_config-lines :
    (a : SipAccount) (ca : Text) (audio : NativeAudioRoute) (c : NativeAccountConfig)
    → native_account_config a ca audio ≡ some c
    → (lines c.aor ≡ 0)
      × (lines c.config
          ≡ 7
            + ((if text_eq a.server (codes "127.0.0.1") then 1 else 0)
                + (if a.use_tls then 1 else 0)))
unfolding native_account_config
native_account_config-lines a ca audio c h =
    let trust = native_ascii ca in
    ground (arith, h, aor-lines a, config-lines a trust audio (native_ascii-lines ca))
