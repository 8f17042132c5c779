-- ===== src/Contacts/Backup/Strings.antt =====
-- A text that is quoted is read back.
use axe_voice_desktop.Prelude.{
  append_assoc, Bool, true, false, ℕ, zero, suc, ◌+◌, ◌-◌, ◌/◌, ◌%◌, ◌≤◌, ◌<◌, ◌≡◌, ◌≢◌, ◌⊎◌, ◌∙◌,
  ◌&&◌, not, leb, ltb, [], ◌∷◌, ◌++◌, Option, none, some, inl, inr, refl, ap, arith, Bool-cases,
  Text, between,
}
use axe_voice_desktop.Contacts.Draft.{read_unit, is_high, is_low, joined, width}
use axe_voice_desktop.Contacts.Backup.{utf8, escaped, escape_from}
use axe_voice_desktop.Contacts.Backup.Parser.{
  codepoint, read_char, string_from, first_is, units_of, is_refused, put_before,
}

-- A character that stands for itself.
abbrev pub is_scalar : ℕ → Bool
is_scalar cp = leb cp 0x10ffff && not (between 0xd800 0xdfff cp)

one_byte : (cp : ℕ) (s : Text) → cp < 0x80 → codepoint (utf8 cp ++ s) ≡ some (cp, s)
unfolding utf8 codepoint
one_byte cp s h = ground arith

two_bytes : (cp : ℕ) (s : Text) → 0x80 ≤ cp → cp < 0x800 → codepoint (utf8 cp ++ s) ≡ some (cp, s)
unfolding utf8 codepoint
two_bytes cp s h k = ground arith

three_bytes :
    (cp : ℕ) (s : Text)
    → 0x800 ≤ cp
    → cp < 0x10000
    → not (between 0xd800 0xdfff cp) ≡ true
    → codepoint (utf8 cp ++ s) ≡ some (cp, s)
unfolding utf8 codepoint
three_bytes cp s h k l = ground arith

four_bytes :
    (cp : ℕ) (s : Text) → 0x10000 ≤ cp → cp ≤ 0x10ffff → codepoint (utf8 cp ++ s) ≡ some (cp, s)
unfolding utf8 codepoint
four_bytes cp s h k = ground arith

codepoint-utf8 : (cp : ℕ) (s : Text) → is_scalar cp ≡ true → codepoint (utf8 cp ++ s) ≡ some (cp, s)
codepoint-utf8 cp s h =
    ground (arith, one_byte cp s, two_bytes cp s, three_bytes cp s, four_bytes cp s)

utf8_is_no_quote : (cp : ℕ) (s : Text) → cp ≢ b'"' → first_is b'"' (utf8 cp ++ s) ≡ none
unfolding utf8
utf8_is_no_quote cp s h = ground arith

read-utf8 : (cp : ℕ) (s : Text) → cp ≢ b'\\' → read_char (utf8 cp ++ s) ≡ codepoint (utf8 cp ++ s)
unfolding utf8 read_char
read-utf8 cp s h = ground arith

escaped_is_no_quote : (cp : ℕ) (s : Text) → first_is b'"' (escaped cp ++ s) ≡ none
unfolding escaped
escaped_is_no_quote cp s = ground (arith, utf8_is_no_quote cp s)

read_slash :
    (cp : ℕ) (s : Text)
    → (cp ≡ b'"') ⊎ (cp ≡ b'\\')
    → read_char ((b'\\' ∷ utf8 cp) ++ s) ≡ some (cp, s)
unfolding utf8 read_char
read_slash cp s h = ground arith

-- A character that was escaped is read back.
read-escaped :
    (cp : ℕ) (s : Text) → is_scalar cp ≡ true → read_char (escaped cp ++ s) ≡ some (cp, s)
unfolding escaped
read-escaped cp s h = ground (arith, read_slash cp s, read-utf8 cp s, codepoint-utf8 cp s h)

-- One round of the loop of `string`.
string-escaped :
    (fuel limit units cp : ℕ) (ascii : Bool) (s : Text)
    → is_scalar cp ≡ true
    → is_refused ascii cp ≡ false
    → units + width cp ≤ limit
    → string_from none (suc fuel) limit ascii units (escaped cp ++ s)
      ≡ put_before (units_of cp) (string_from none fuel limit ascii (units + width cp) s)
unfolding string_from
string-escaped fuel limit units cp ascii s h refused small =
    ground (arith, escaped_is_no_quote cp s, read-escaped cp s h)

-- What may be quoted so that a string with this limit is read back: units of 16 bits in proper pairs, whose
-- characters are not refused, and not too many of them.
unfoldable pub fits : ℕ → Bool → Option ℕ → ℕ → Text → Bool
fits limit ascii none units [] = true
fits limit ascii (some high) units [] = false
fits limit ascii p units (c ∷ cs) = elim (read_unit p c) [
  | none ↦ false
  | some (p', none) ↦ ltb c 0x10000 && fits limit ascii p' units cs
  | some (p', some cp) ↦
      let rest = fits limit ascii p' (units + width cp) cs in
      ltb c 0x10000 && not (is_refused ascii cp) && leb (units + width cp) limit && rest
]

-- The half of a pair that was read last is the first half.
abbrev Pending : Option ℕ → Type 0
Pending none = Unit {0}
Pending (some high) = is_high high ≡ true

abbrev halves : Option ℕ → Text
halves none = []
halves (some high) = high ∷ []

joined_scalar :
    (high low : ℕ)
    → is_high high ≡ true
    → is_low low ≡ true
    → (is_scalar (joined high low) ≡ true) × (units_of (joined high low) ≡ high ∷ low ∷ [])
joined_scalar high low h l =
    let cp = joined high low in
    let least : 0x10000 ≤ cp = ground arith in
    let most : cp ≤ 0x10ffff = ground arith in
    let upper : 0xd800 + (cp - 0x10000) / 1024 ≡ high = ground arith in
    let lower : 0xdc00 + (cp - 0x10000) % 1024 ≡ low = ground arith in
    ground (arith, least, most, upper, lower)

single_scalar :
    (c : ℕ)
    → ltb c 0x10000 ≡ true
    → is_high c ≡ false
    → is_low c ≡ false
    → (is_scalar c ≡ true) × (units_of c ≡ c ∷ [])
single_scalar c k h l = ground arith

fits_pair :
    (limit units high c : ℕ) (ascii : Bool) (cs : Text)
    → fits limit ascii (some high) units (c ∷ cs) ≡ true
    → (is_low c ≡ true)
      × (is_refused ascii (joined high c) ≡ false)
      × (units + width (joined high c) ≤ limit)
      × (fits limit ascii none (units + width (joined high c)) cs ≡ true)
unfolding fits
fits_pair limit units high c ascii cs f = elim (Bool-cases (is_low c)) [
  | inl e ↦ ground arith
  | inr e ↦ ground arith
]

width_counts : (cp : ℕ) → 1 ≤ width cp
width_counts cp = ground arith

string_from_end :
    (fuel limit units : ℕ) (ascii : Bool) (s : Text)
    → string_from none (suc fuel) limit ascii units (b'"' ∷ s) ≡ some ([], s)
unfolding string_from
string_from_end fuel limit units ascii s = refl

pub string_from-escape_from :
    (t : Text) (p : Option ℕ) (fuel limit units : ℕ) (ascii : Bool) (s : Text)
    → Pending p
    → fits limit ascii p units t ≡ true
    → units ≤ limit
    → limit < fuel + units
    → string_from none fuel limit ascii units (escape_from p t ++ (b'"' ∷ s))
      ≡ some (halves p ++ t, s)
unfolding fits escape_from
string_from-escape_from t p zero limit units ascii s pending f small enough = ground arith
string_from-escape_from [] none (suc fuel) limit units ascii s pending f small enough =
    string_from_end fuel limit units ascii s
string_from-escape_from [] (some high) (suc fuel) limit units ascii s pending f small enough =
    ground arith
string_from-escape_from (c ∷ cs) none (suc fuel) limit units ascii s pending f small enough =
    elim (Bool-cases (is_high c)) [
      | inl e ↦
          let rest = string_from-escape_from cs (some c) (suc fuel) limit units ascii s e in
          ground (arith, rest)
      | inr e ↦
          let after = b'"' ∷ s in
          let rest = string_from-escape_from cs none fuel limit (units + width c) ascii s tt in
          let round = string-escaped fuel limit units c ascii (escape_from none cs ++ after) in
          ground (
            arith,
            rest,
            round,
            single_scalar c,
            append_assoc (escaped c) (escape_from none cs) after,
          )
    ]
string_from-escape_from (c ∷ cs) (some high) (suc fuel) limit units ascii s pending f small enough =
    let cp = joined high c in
    let after = b'"' ∷ s in
    let fit = fits_pair limit units high c ascii cs f in
    let scalar = joined_scalar high c pending fit.0 in
    ap (string_from none (suc fuel) limit ascii units)
      (append_assoc (escaped cp) (escape_from none cs) after)
    ∙ string-escaped fuel limit units cp ascii (escape_from none cs ++ after) scalar.0 fit.1 fit.2
    ∙ ap (put_before (units_of cp)) (
        string_from-escape_from cs none fuel limit (units + width cp) ascii s tt fit.3 fit.2
          (omega (arith, enough, width_counts cp)))
    ∙ ap (λ u. some (u ++ cs, s)) scalar.1
