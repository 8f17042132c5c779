-- ===== src/Cti/Contract.antt =====
-- src/local_cti_contract.h: what the local server takes as a request, and the links of the browser. Texts
-- are codes of bytes.
pub mod Channels
use axe_voice_desktop.Prelude.{
  Bool, true, false, ℕ, zero, suc, ◌+◌, ◌-◌, ◌*◌, ◌/◌, ◌%◌, ◌^◌, ◌≤◌, ◌<◌, ◌≡◌, ◌≢◌, ◌↔◌, ◌⊎◌, ◌∙◌,
  ◌==◌, ◌!=◌, ◌||◌, ◌&&◌, not, if◌then◌else◌, leb, ltb, List, [], ◌∷◌, ◌++◌, map, append_assoc,
  append-nil, Option, none, some, inl, inr, refl, sym, ap, arith, tests, Bool-cases, Option-cases,
  length, get_or, set, take, drop, replicate, pop_front, All, All-append, All-mono, All-take,
  length-append, length-set, length-take, get_or-set_self, get_or-set_ne, u64_mod, u64_max, inc_u64,
  sub_u64, Text, codes, text_eq, is_empty, any, all, between, is_digit, is_letter, is_alnum,
  text_eq→≡, text_eq_refl, starts_with, value_from, value_grows, Before, newer_session,
  newer_sequence, NewerFrom, NewerFrom-mono, NotAfter, newer, same_or_later, NotAfter-trans, lt→ltb,
  ltb→lt, leb→le, le→leb, ==_iff,
}
use axe_voice_desktop.Call.Address.{WideClasses, is_accepted, validate_address}

infixl 5 ◌>>=◌
-- `none` ends a parser.
abbrev pub ◌>>=◌ {ℓ κ} : {A : Type ℓ} {B : Type κ} → Option A → (A → Option B) → Option B
◌>>=◌ none f = none
◌>>=◌ (some a) f = f a

abbrev is_blank : ℕ → Bool
is_blank c = c == b' ' || c == 9 || c == 13 || c == 10

unfoldable pub skip : Text → Text
skip [] = []
skip (c ∷ cs) = let rest = skip cs in if is_blank c then rest else c ∷ cs

abbrev pub first_of : ℕ → Text → Option Text
first_of c [] = none
first_of c (x ∷ xs) = if x == c then some xs else none

-- What is left, if the text goes on with the character.
unfoldable pub consume : ℕ → Text → Option Text
consume c text = first_of c (skip text)

-- What is left behind a key.
unfoldable pub consume_key : Text → Text → Option Text
consume_key [] text = some text
consume_key (c ∷ cs) [] = none
consume_key (c ∷ cs) (x ∷ xs) = let rest = consume_key cs xs in if x == c then rest else none

abbrev pub is_refused_byte : ℕ → Bool
is_refused_byte ch = leb ch 32 || leb 127 ch || ch == b'\\'

abbrev pub with_char : ℕ → Option (Text × Text) → Option (Text × Text)
with_char c none = none
with_char c (some (value, rest)) = some (c ∷ value, rest)

-- The loop over the value, `size` being the number of characters read.
unfoldable pub read_value : ℕ → Text → Option (Text × Text)
read_value size [] = some ([], [])
read_value size (c ∷ cs) =
    let rest = read_value (size + 1) cs in
    if c == b'"'
    then some ([], c ∷ cs)
    else if is_refused_byte c || leb 128 size
    then none
    else with_char c rest

-- The end of both parsers.
unfoldable pub accept_destination : WideClasses → Text → Option Text
accept_destination w destination =
    let result = validate_address w destination in
    if not (is_accepted result.error) || ltb 128 (length result.normalized)
    then none
    else some result.normalized

-- The text behind the value.
unfoldable pub close_object : WideClasses → Text → Text → Option Text
close_object w destination text = do
  after ← consume b'"' text
  rest ← consume b'}' after
  if is_empty (skip rest) then accept_destination w destination else none

unfoldable pub parse_cti_call_json : WideClasses → Text → Option Text
parse_cti_call_json w body = if is_empty body || ltb 512 (length body) then none else (do
  opened ← consume b'{' body
  quoted ← consume b'"' opened
  named ← consume_key (codes "destination") quoted
  ended ← consume b'"' named
  colon ← consume b':' ended
  value ← consume b'"' colon
  (destination, rest) ← read_value 0 value
  close_object w destination rest)

abbrev pub link_prefix : Text
link_prefix = codes "axvoice://call?destination="

-- `none` where the source has -1.
unfoldable pub hex : ℕ → Option ℕ
hex c =
    if is_digit c
    then some (c - b'0')
    else if between b'a' b'f' c
    then some (c - b'a' + 10)
    else if between b'A' b'F' c
    then some (c - b'A' + 10)
    else none

abbrev pub is_link_mark : ℕ → Bool
is_link_mark c = c == b'?' || c == b'&' || c == b'#' || c == b'\\'

abbrev pub is_refused_link : ℕ → Bool
is_refused_link ch = ltb ch 33 || ltb 126 ch || ch == b'\\'

abbrev pub before : ℕ → Option Text → Option Text
before c none = none
before c (some value) = some (c ∷ value)

-- A character of the value, if it is allowed.
abbrev pub pushed : ℕ → ℕ → Option Text → Option Text
pushed size ch rest = if is_refused_link ch || leb 128 size then none else before ch rest

-- The loop over the value of a link.
unfoldable pub read_link : ℕ → Text → Option Text
read_link size [] = some []
read_link size (c ∷ []) = if c == b'%' || is_link_mark c then none else pushed size c (some [])
read_link size (c ∷ x ∷ []) =
    let rest = read_link (size + 1) (x ∷ []) in
    if c == b'%' || is_link_mark c then none else pushed size c rest
read_link size (c ∷ x ∷ y ∷ cs) =
    let decoded = read_link (size + 1) cs in
    let rest = read_link (size + 1) (x ∷ y ∷ cs) in
    if c == b'%'
    then (do hi ← hex x; lo ← hex y; pushed size (hi * 16 + lo) decoded)
    else if is_link_mark c
    then none
    else pushed size c rest

unfoldable pub parse_axvoice_click_to_call_uri : WideClasses → Text → Option Text
parse_axvoice_click_to_call_uri w uri =
    if leb (length uri) (length link_prefix) || ltb 512 (length uri) then none else (do
      text ← consume_key link_prefix uri
      value ← read_link 0 text
      accept_destination w value)

abbrev is_key_char : ℕ → Bool
is_key_char c = is_alnum c || c == b'-' || c == b'_'

unfoldable pub valid_cti_idempotency_key : Text → Bool
valid_cti_idempotency_key key = between 16 64 (length key) && all is_key_char key

unfoldable pub valid_cti_api_token : Text → Bool
valid_cti_api_token token = between 32 128 (length token) && all is_key_char token

unfoldable pub valid_cti_json_type : Text → Bool
valid_cti_json_type value =
    text_eq value (codes "application/json")
    || text_eq value (codes "application/json; charset=utf-8")
