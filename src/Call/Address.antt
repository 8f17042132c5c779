-- ===== src/Call/Address.antt =====
-- src/sip_host.h, src/sip_address.cpp: the syntax of a destination. Texts are lists of character codes.
use axe_voice_desktop.Prelude.{
  ◌++◌, any, is_digit, is_alnum, codes, Bool, true, false, ℕ, ◌+◌, ◌-◌, ◌*◌, ◌==◌, ◌!=◌, ◌||◌, ◌&&◌,
  not, if◌then◌else◌, leb, ltb, [], ◌∷◌, Option, none, some, length, Text, text_eq, is_empty,
}

-- The wide character classes of the C library, which depend on its locale.
pub record WideClasses : Type 0 where
  pub iswspace : ℕ → Bool
  pub iswcntrl : ℕ → Bool
  pub iswdigit : ℕ → Bool

pub data AddressError : Type 0 where
  no_error empty whitespace invalid_scheme invalid_user invalid_host invalid_port : AddressError

pub record AddressResult : Type 0 where
  pub error : AddressError
  pub normalized : Text

-- `operator bool`
abbrev pub is_accepted : AddressError → Bool
is_accepted AddressError.no_error = true
is_accepted _ = false

-- The text before the first such character, and the text behind it.
abbrev pub split_first : ℕ → Text → Option (Text × Text)
split_first x [] = none
split_first x (c ∷ cs) =
    let rest = split_first x cs in
    if c == x
    then some ([], cs)
    else elim rest [ none ↦ none | some (before, after) ↦ some (c ∷ before, after) ]

-- The loop, with `label` and `last_alnum`.
abbrev host_from : ℕ → Bool → Text → Bool
host_from label last_alnum [] = label != 0 && last_alnum
host_from label last_alnum (c ∷ cs) =
    let dot = host_from 0 false cs in
    let next = host_from (label + 1) (is_alnum c) cs in
    if c == b'.'
    then if label == 0 || not last_alnum then false else dot
    else if not (is_alnum c) && (c != b'-' || label == 0)
    then false
    else if ltb 63 (label + 1)
    then false
    else next

unfoldable pub valid_sip_host : Text → Bool
valid_sip_host host =
    if is_empty host || ltb 253 (length host) then false else host_from 0 false host

abbrev failed : AddressError → AddressResult
failed e = record { error = e; normalized = [] }

-- The number of the port, `none` where a character is no digit.
abbrev port_from : ℕ → Text → Option ℕ
port_from number [] = some number
port_from number (c ∷ cs) =
    let rest = port_from (number * 10 + (c - b'0')) cs in if is_digit c then rest else none

unfoldable pub valid_port : Text → Bool
valid_port port =
    if is_empty port || ltb 5 (length port)
    then false
    else elim (port_from 0 port) [ none ↦ false | some number ↦ number != 0 && leb number 65535 ]

abbrev pub is_scheme : Text → Bool
is_scheme s = text_eq s (codes "sip") || text_eq s (codes "sips")

abbrev is_forbidden : ℕ → Bool
is_forbidden c = c == b'<' || c == b'>' || c == b'\\' || c == b'"' || c == b'?' || c == b';'

abbrev is_dial_char : WideClasses → ℕ → Bool
is_dial_char w c = w.iswdigit c || c == b'+' || c == b'*' || c == b'#'

abbrev pub has_colon : Text → Bool
has_colon t = any (λ c. c == b':') t

-- `input` as it is, or `sip:` before the value.
abbrev pub accepted_uri : Text → Text → AddressResult
accepted_uri input value = record {
  error = AddressError.no_error;
  normalized = if has_colon input then input else codes "sip:" ++ value;
}

-- The part behind the `@`.
unfoldable pub validate_host : Text → Text → Text → AddressResult
validate_host input value host = elim (split_first b':' host) [
  | none ↦
      if valid_sip_host host then accepted_uri input value else failed AddressError.invalid_host
  | some (name, port) ↦
      if not (valid_sip_host name)
      then failed AddressError.invalid_host
      else if valid_port port
      then accepted_uri input value
      else failed AddressError.invalid_port
]

-- The value behind the scheme.
unfoldable pub validate_value : WideClasses → Text → Text → AddressResult
validate_value w input value =
    if is_empty value || any is_forbidden value
    then failed AddressError.invalid_user
    else elim (split_first b'@' value) [
      | none ↦
          if any (λ c. not (is_dial_char w c)) value
          then failed AddressError.invalid_user
          else record {
            error = AddressError.no_error;
            normalized = if has_colon input then input else value;
          }
      | some (user, host) ↦
          if is_empty user || is_empty host || any (λ c. c == b'@') host
          then failed AddressError.invalid_host
          else validate_host input value host
    ]

unfoldable pub validate_address : WideClasses → Text → AddressResult
validate_address w input =
    if is_empty input
    then failed AddressError.empty
    else if any (λ c. w.iswspace c || w.iswcntrl c) input
    then failed AddressError.whitespace
    else elim (split_first b':' input) [
      | none ↦ validate_value w input input
      | some (scheme, value) ↦
          if is_scheme scheme
          then validate_value w input value
          else failed AddressError.invalid_scheme
    ]
