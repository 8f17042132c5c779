-- ===== src/Cti/Contract/Channels.antt =====
-- Both channels take a destination that is written for them.
use axe_voice_desktop.Prelude.{
  Bool, true, false, ℕ, ◌+◌, ◌-◌, ◌*◌, ◌/◌, ◌%◌, ◌≤◌, ◌<◌, ◌≡◌, ◌!=◌, ◌&&◌, if◌then◌else◌, leb, ltb,
  [], ◌∷◌, ◌++◌, some, refl, arith, length, length-append, Text, codes, all, between,
}
use axe_voice_desktop.Call.Address.{WideClasses}
use axe_voice_desktop.Cti.Contract.{
  accept_destination, consume, consume_key, close_object, hex, link_prefix,
  parse_axvoice_click_to_call_uri, parse_cti_call_json, read_link, read_value, skip,
}

-- Characters that a destination may be written with: they are visible, and neither a quotation mark nor
-- a backslash.
abbrev is_plain_char : ℕ → Bool
is_plain_char c = between 33 126 c && c != b'"' && c != b'\\'

-- A body as a client writes it.
abbrev pub call_json : Text → Text
call_json destination = codes "{\"destination\":\"" ++ (destination ++ codes "\"}")

-- The digits of a byte.
abbrev hex_digit : ℕ → ℕ
hex_digit n = if ltb n 10 then b'0' + n else b'A' + (n - 10)

abbrev pub percent_encoded : Text → Text
percent_encoded [] = []
percent_encoded (c ∷ cs) = b'%' ∷ hex_digit (c / 16) ∷ hex_digit (c % 16) ∷ percent_encoded cs

-- A link as a page writes it.
abbrev pub call_link : Text → Text
call_link destination = link_prefix ++ percent_encoded destination

hex-hex_digit : (n : ℕ) → n < 16 → hex (hex_digit n) ≡ some n
unfolding hex
hex-hex_digit n h = ground (arith, h)

read_link-percent_encoded :
    (cs : Text) (size : ℕ)
    → all is_plain_char cs ≡ true
    → size + length cs ≤ 128
    → read_link size (percent_encoded cs) ≡ some cs
unfolding read_link
read_link-percent_encoded [] size h l = refl
read_link-percent_encoded (c ∷ cs) size h l =
    let low : c % 16 < 16 = omega arith in
    let byte : (c / 16) * 16 + c % 16 ≡ c = omega arith in
    ground (
      arith,
      h,
      l,
      byte,
      hex-hex_digit (c / 16),
      hex-hex_digit (c % 16) low,
      read_link-percent_encoded cs (size + 1),
    )

read_value-all :
    (cs : Text) (size : ℕ) (rest : Text)
    → all is_plain_char cs ≡ true
    → size + length cs ≤ 128
    → read_value size (cs ++ (b'"' ∷ rest)) ≡ some (cs, b'"' ∷ rest)
unfolding read_value
read_value-all [] size rest h l = refl
read_value-all (c ∷ cs) size rest h l = ground (arith, h, l, read_value-all cs (size + 1) rest)

percent_encoded-length : (cs : Text) → length (percent_encoded cs) ≡ 3 * length cs
percent_encoded-length [] = omega arith
percent_encoded-length (c ∷ cs) = omega (arith, percent_encoded-length cs)

consume_key-append : (key text : Text) → consume_key key (key ++ text) ≡ some text
unfolding consume_key
consume_key-append [] text = refl
consume_key-append (c ∷ key) text = ground (arith, consume_key-append key text)

parse_cti_call_json-call_json :
    (w : WideClasses) (destination : Text)
    → all is_plain_char destination ≡ true
    → length destination ≤ 128
    → parse_cti_call_json w (call_json destination) ≡ accept_destination w destination
unfolding parse_cti_call_json consume skip consume_key close_object
parse_cti_call_json-call_json w destination h l =
    let end = codes "\"}" in
    let size : ltb 512 (length (call_json destination)) ≡ false = ground (
      arith,
      length-append (codes "{\"destination\":\"") (destination ++ end),
      length-append destination end,
      l,
    ) in
    rw (size, read_value-all destination 0 (codes "}") h (omega (arith, l))) refl

parse_link-call_link :
    (w : WideClasses) (destination : Text)
    → all is_plain_char destination ≡ true
    → 1 ≤ length destination
    → length destination ≤ 128
    → parse_axvoice_click_to_call_uri w (call_link destination) ≡ accept_destination w destination
unfolding parse_axvoice_click_to_call_uri
parse_link-call_link w destination h s l =
    let text = percent_encoded destination in
    let full = length-append link_prefix text in
    let count = percent_encoded-length destination in
    let long : leb (length (call_link destination)) (length link_prefix) ≡ false =
      ground (arith, full, count, s) in
    let short : ltb 512 (length (call_link destination)) ≡ false = ground (arith, full, count, l) in
    rw
      (
        long,
        short,
        consume_key-append link_prefix text,
        read_link-percent_encoded destination 0 h (omega (arith, l)),
      )
      refl

-- A destination of 1 to 128 visible characters, without a quotation mark or a backslash, is
-- understood alike as the body of a request and, in percent encoding, as a link of the browser:
-- both take it exactly as the check of addresses does, as long as the normalized form has at most
-- 128 characters, and both refuse it otherwise.
pub channels_agree :
    (w : WideClasses) (destination : Text)
    → all is_plain_char destination ≡ true
    → 1 ≤ length destination
    → length destination ≤ 128
    → (parse_cti_call_json w (call_json destination) ≡ accept_destination w destination)
      × (parse_axvoice_click_to_call_uri w (call_link destination)
          ≡ accept_destination w destination)
channels_agree w destination h s l =
    (parse_cti_call_json-call_json w destination h l, parse_link-call_link w destination h s l)
