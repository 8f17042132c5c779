-- ===== src/Contacts/Backup/Parser.antt =====
-- src/contact_backup.cpp, `Parser`: what remains of the input is a text; `none` is a failure. A `take` that
-- fails skips spaces, which whatever follows would skip as well.
use axe_voice_desktop.Prelude.{
  Bool, ℕ, zero, suc, ◌+◌, ◌-◌, ◌*◌, ◌/◌, ◌%◌, ◌==◌, ◌||◌, ◌&&◌, not, if◌then◌else◌, leb, ltb, [],
  ◌∷◌, ◌++◌, Option, none, some, Text, codes, between, is_digit,
}
use axe_voice_desktop.Contacts.Draft.{is_high, is_low, joined, width}

abbrev is_space : ℕ → Bool
is_space c = c == 32 || c == 13 || c == 10 || c == 9

abbrev pub space : Text → Text
space [] = []
space (c ∷ cs) = let rest = space cs in if is_space c then rest else c ∷ cs

-- The character, if it is the first one.
abbrev pub first_is : ℕ → Text → Option Text
first_is c [] = none
first_is c (x ∷ xs) = if x == c then some xs else none

-- `take`
abbrev pub token : ℕ → Text → Option Text
token c s = first_is c (space s)

abbrev pub prefix : Text → Text → Option Text
prefix [] s = some s
prefix (c ∷ cs) [] = none
prefix (c ∷ cs) (x ∷ xs) = if x == c then prefix cs xs else none

abbrev pub literal : Text → Text → Option Text
literal t s = prefix t (space s)

-- The value of a hexadecimal digit, or 16.
abbrev pub hex_value : ℕ → ℕ
hex_value c =
    if is_digit c
    then c - b'0'
    else if between b'a' b'f' c
    then c - b'a' + 10
    else if between b'A' b'F' c
    then c - b'A' + 10
    else 16

-- `n` more hexadecimal digits.
abbrev pub hex_from : ℕ → ℕ → Text → Option (ℕ × Text)
hex_from zero cp s = some (cp, s)
hex_from (suc n) cp [] = none
hex_from (suc n) cp (c ∷ cs) =
    let rest = hex_from n (cp * 16 + hex_value c) cs in if hex_value c == 16 then none else rest

-- `count` more bytes of a character.
abbrev pub more_bytes : ℕ → ℕ → Text → Option (ℕ × Text)
more_bytes zero cp s = some (cp, s)
more_bytes (suc count) cp [] = none
more_bytes (suc count) cp (c ∷ cs) =
    let rest = more_bytes count (cp * 64 + c % 64) cs in if c / 64 == 2 then rest else none

-- A character that is in its range and no half of a pair.
abbrev pub checked : ℕ → Option (ℕ × Text) → Option (ℕ × Text)
checked minimum none = none
checked minimum (some (cp, s)) =
    if leb minimum cp && leb cp 0x10ffff && not (between 0xd800 0xdfff cp)
    then some (cp, s)
    else none

unfoldable pub codepoint : Text → Option (ℕ × Text)
codepoint [] = none
codepoint (c ∷ cs) =
    if ltb c 0x80
    then some (c, cs)
    else if between 0xc2 0xdf c
    then checked 0x80 (more_bytes 1 (c % 32) cs)
    else if between 0xe0 0xef c
    then checked 0x800 (more_bytes 2 (c % 16) cs)
    else if between 0xf0 0xf4 c
    then checked 0x10000 (more_bytes 3 (c % 8) cs)
    else none

-- The second half of a pair behind `\u`.
abbrev low_of : ℕ → Option (ℕ × Text) → Option (ℕ × Text)
low_of high none = none
low_of high (some (low, s)) = if is_low low then some (joined high low, s) else none

abbrev low_half : ℕ → Option Text → Option (ℕ × Text)
low_half high none = none
low_half high (some s) = low_of high (hex_from 4 0 s)

abbrev unicode : Option (ℕ × Text) → Option (ℕ × Text)
unicode none = none
unicode (some (cp, s)) =
    if is_high cp
    then low_half cp (prefix (codes "\\u") s)
    else if is_low cp
    then none
    else some (cp, s)

-- Behind a backslash.
abbrev pub escape : Text → Option (ℕ × Text)
escape [] = none
escape (c ∷ cs) =
    if c == b'"' || c == b'\\' || c == b'/'
    then some (c, cs)
    else if c == b'u'
    then unicode (hex_from 4 0 cs)
    else none

unfoldable pub read_char : Text → Option (ℕ × Text)
read_char [] = none
read_char (c ∷ cs) = if c == b'\\' then escape cs else codepoint (c ∷ cs)

-- The units of a character.
abbrev pub units_of : ℕ → Text
units_of cp =
    if ltb 0xffff cp
    then (0xd800 + (cp - 0x10000) / 1024) ∷ (0xdc00 + (cp - 0x10000) % 1024) ∷ []
    else cp ∷ []

abbrev pub is_refused : Bool → ℕ → Bool
is_refused ascii cp = ltb cp 0x20 || between 0x7f 0x9f cp || (ascii && leb 0x7f cp)

abbrev pub put_before : Text → Option (Text × Text) → Option (Text × Text)
put_before t none = none
put_before t (some (out, s)) = some (t ++ out, s)

-- The loop of `string`, with what it is if its rounds run out first. Every character counts at least one
-- unit, so that one more round than the limit is enough.
unfoldable pub string_from : Option (Text × Text) → ℕ → ℕ → Bool → ℕ → Text → Option (Text × Text)
string_from late zero limit ascii units s = late
string_from late (suc fuel) limit ascii units s = elim (first_is b'"' s) [
  | some rest ↦ some ([], rest)
  | none ↦ elim (read_char s) [
    | none ↦ none
    | some (cp, rest) ↦
        let tail = string_from late fuel limit ascii (units + width cp) rest in
        if is_refused ascii cp || ltb limit (units + width cp)
        then none
        else put_before (units_of cp) tail
  ]
]

abbrev pub string : ℕ → Bool → Text → Option (Text × Text)
string limit ascii s = elim (token b'"' s) [
  | none ↦ none
  | some rest ↦ string_from none (limit + 1) limit ascii 0 rest
]
