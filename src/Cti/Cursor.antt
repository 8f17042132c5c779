-- ===== src/Cti/Cursor.antt =====
-- src/local_cti_events.h, `parse_cti_event_cursor`, and the numbers of its JSON texts.
pub mod Decimal
use axe_voice_desktop.Prelude.{
  Bool, true, false, ℕ, zero, suc, ◌+◌, ◌-◌, ◌*◌, ◌/◌, ◌%◌, ◌^◌, ◌≤◌, ◌<◌, ◌≡◌, ◌≢◌, ◌↔◌, ◌⊎◌, ◌∙◌,
  ◌==◌, ◌!=◌, ◌||◌, ◌&&◌, not, if◌then◌else◌, leb, ltb, List, [], ◌∷◌, ◌++◌, map, Option, none,
  some, inl, inr, refl, sym, ap, arith, tests, Bool-cases, Option-cases, length, get_or, set, take,
  drop, replicate, pop_front, All, All-append, All-mono, All-take, length-append, length-set,
  length-take, get_or-set_self, get_or-set_ne, u64_mod, u64_max, inc_u64, sub_u64, Text, codes,
  text_eq, is_empty, any, all, between, is_digit, is_letter, is_alnum, text_eq→≡, text_eq_refl,
  Before, newer_session, newer_sequence, NewerFrom, NewerFrom-mono, NotAfter, newer, same_or_later,
  NotAfter-trans, lt→ltb, ltb→lt, leb→le, le→leb, ==_iff,
}

-- The loop: `none` for a character that is no digit, and for a value beyond 64 bits.
unfoldable pub cursor_from : ℕ → Text → Option ℕ
cursor_from value [] = some value
cursor_from value (c ∷ cs) =
    let d = c - b'0' in
    let rest = cursor_from (value * 10 + d) cs in
    if not (is_digit c) then none else if ltb ((u64_max - d) / 10) value then none else rest

unfoldable pub parse_cti_event_cursor : Text → Option ℕ
parse_cti_event_cursor text =
    if is_empty text || ltb 20 (length text) then none else cursor_from 0 text

-- The decimal digits of a number, in front of a text; `fuel` bounds their count.
unfoldable pub digits : ℕ → ℕ → Text → Text
digits zero n after = after
digits (suc fuel) n after =
    let c = b'0' + n % 10 in
    let rest = digits fuel (n / 10) (c ∷ after) in if ltb n 10 then c ∷ after else rest

-- `std::to_string` of a `std::uint64_t`, which has at most 20 digits.
abbrev pub to_string : ℕ → Text
to_string n = digits 20 n []
