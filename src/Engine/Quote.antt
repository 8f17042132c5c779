-- ===== src/Engine/Quote.antt =====
-- src/windows_argument_quote.h: an argument of a command line, quoted for the C runtime of Windows.
pub mod RoundTrip
use axe_voice_desktop.Prelude.{
  Bool, true, false, ℕ, zero, suc, ◌+◌, ◌-◌, ◌*◌, ◌/◌, ◌%◌, ◌^◌, ◌≤◌, ◌<◌, ◌≡◌, ◌≢◌, ◌↔◌, ◌⊎◌, ◌∙◌,
  ◌==◌, ◌!=◌, ◌||◌, ◌&&◌, not, if◌then◌else◌, leb, ltb, List, [], ◌∷◌, ◌++◌, map, append_assoc,
  append-nil, Option, none, some, inl, inr, refl, sym, ap, arith, tests, Bool-cases, Option-cases,
  length, get_or, set, take, drop, replicate, pop_front, All, All-append, All-mono, All-take,
  length-append, length-set, length-take, get_or-set_self, get_or-set_ne, u64_mod, u64_max, inc_u64,
  sub_u64, Text, codes, text_eq, is_empty, any, all, between, is_digit, is_letter, is_alnum,
  text_eq→≡, text_eq_refl, Before, newer_session, newer_sequence, NewerFrom, NewerFrom-mono,
  NotAfter, newer, same_or_later, NotAfter-trans, lt→ltb, ltb→lt, leb→le, le→leb, ==_iff,
}

abbrev pub backslash : ℕ
backslash = b'\\'

abbrev pub quote_mark : ℕ
quote_mark = b'"'

-- The loop, with the number of backslashes that wait.
unfoldable pub quoted_from : ℕ → Text → Text
quoted_from slashes [] = replicate (slashes * 2) backslash ++ (quote_mark ∷ [])
quoted_from slashes (c ∷ cs) =
    let waiting = quoted_from (slashes + 1) cs in
    let rest = quoted_from 0 cs in
    if c == backslash
    then waiting
    else replicate (if c == quote_mark then slashes * 2 + 1 else slashes) backslash ++ (c ∷ rest)

abbrev pub quote_windows_argument : Text → Text
quote_windows_argument value = quote_mark ∷ quoted_from 0 value
