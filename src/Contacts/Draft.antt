-- ===== src/Contacts/Draft.antt =====
-- src/contact_book.cpp: which names and destinations a contact may have. `wchar_t` has 16 bits, as on
-- Windows; a failed allocation is not modelled.
use axe_voice_desktop.Prelude.{
  Bool, true, false, ℕ, ◌+◌, ◌-◌, ◌*◌, ◌^◌, ◌==◌, ◌||◌, ◌&&◌, not, if◌then◌else◌, leb, ltb, [], ◌∷◌,
  Option, none, some, length, take, drop, Text, codes, text_eq, is_empty, all, between, is_digit,
  is_letter,
}
use axe_voice_desktop.Call.Address.{WideClasses, validate_address, is_accepted, split_first}

pub record ContactDraft : Type 0 where
  pub name : Text
  pub destination : Text
  pub favorite : Bool

abbrev pub is_high : ℕ → Bool
is_high c = between 0xd800 0xdbff c

abbrev pub is_low : ℕ → Bool
is_low c = between 0xdc00 0xdfff c

-- The character of a pair.
abbrev pub joined : ℕ → ℕ → ℕ
joined high low = 0x10000 + (high - 0xd800) * 2 ^ 10 + low - 0xdc00

-- The units of a character.
abbrev pub width : ℕ → ℕ
width cp = if ltb 0xffff cp then 2 else 1

-- The controls and the characters that format text without being seen.
abbrev pub is_hidden : ℕ → Bool
is_hidden cp =
    ltb cp 0x20
    || between 0x7f 0x9f cp
    || cp == 0x061c
    || between 0x200b 0x200f cp
    || between 0x2028 0x202e cp
    || between 0x2060 0x206f cp
    || cp == 0xfeff

abbrev pub is_visible : ℕ → Bool
is_visible cp = not (
    cp == 0x20
    || cp == 0xa0
    || cp == 0x1680
    || between 0x2000 0x200a cp
    || cp == 0x202f
    || cp == 0x205f
    || cp == 0x3000)

-- A unit read: the first half of a pair, a character, or neither; `high` is the half before it.
abbrev pub read_unit : Option ℕ → ℕ → Option (Option ℕ × Option ℕ)
read_unit (some high) c = if is_low c then some (none, some (joined high c)) else none
read_unit none c =
    if is_high c then some (some c, none) else if is_low c then none else some (none, some c)

-- The loop of `valid_name`; `high` is the first half of a pair that was read last.
unfoldable pub name_from : Option ℕ → ℕ → Bool → Text → Bool
name_from (some high) units visible [] = false
name_from none units visible [] = visible
name_from high units visible (c ∷ cs) = elim (read_unit high c) [
  | none ↦ false
  | some (pending, none) ↦ name_from pending units visible cs
  | some (pending, some cp) ↦
      let rest = name_from pending (units + width cp) (visible || is_visible cp) cs in
      if ltb 64 (units + width cp) || is_hidden cp then false else rest
]

unfoldable pub valid_name : Text → Bool
valid_name name = if is_empty name then false else name_from none 0 false name

abbrev pub is_user_char : ℕ → Bool
is_user_char c =
    is_letter c
    || is_digit c
    || c == b'_'
    || c == b'.'
    || c == b'-'
    || c == b'+'
    || c == b'*'
    || c == b'#'

-- The part behind `sips:` or `sip:`.
abbrev pub without_scheme : Text → Text
without_scheme t =
    if text_eq (take 5 t) (codes "sips:")
    then drop 5 t
    else if text_eq (take 4 t) (codes "sip:")
    then drop 4 t
    else t

-- The user in front of the `@`, if there is one.
abbrev valid_user : Text → Bool
valid_user destination = elim (split_first b'@' (without_scheme destination)) [
  | none ↦ true
  | some (user, host) ↦ all is_user_char user
]

module _ (w : WideClasses) where
  unfoldable pub valid_draft : ContactDraft → Bool
  valid_draft draft =
      valid_name draft.name
      && not (is_empty draft.destination)
      && leb (length draft.destination) 128
      && all (λ c. ltb 32 c && ltb c 127) draft.destination
      && is_accepted (validate_address w draft.destination).error
      && valid_user draft.destination
