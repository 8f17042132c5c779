-- ===== src/Contacts/Backup.antt =====
-- src/contact_backup.cpp: the backup of the contacts as a text in UTF-8. Bytes are numbers below 256. A
-- failed allocation is not modelled.
pub mod Parser
pub mod Contacts
pub mod Strings
pub mod Fields
pub mod Written
pub mod RoundTrip
pub mod Fuel
use axe_voice_desktop.Prelude.{
  Bool, true, false, ℕ, zero, suc, ◌+◌, ◌-◌, ◌*◌, ◌/◌, ◌%◌, ◌^◌, ◌≤◌, ◌<◌, ◌≡◌, ◌≢◌, ◌↔◌, ◌⊎◌, ◌∙◌,
  ◌==◌, ◌!=◌, ◌||◌, ◌&&◌, not, if◌then◌else◌, leb, ltb, List, [], ◌∷◌, ◌++◌, map, Option, none,
  some, inl, inr, refl, sym, ap, arith, tests, Bool-cases, Option-cases, length, get_or, set, take,
  drop, replicate, pop_front, All, All-append, All-mono, All-take, length-append, length-set,
  length-take, get_or-set_self, get_or-set_ne, u64_mod, u64_max, inc_u64, sub_u64, Text, codes,
  text_eq, is_empty, any, all, between, is_digit, is_letter, is_alnum, text_eq→≡, text_eq_refl,
  Before, newer_session, newer_sequence, NewerFrom, NewerFrom-mono, NotAfter, newer, same_or_later,
  NotAfter-trans, lt→ltb, ltb→lt, leb→le, le→leb, ==_iff,
}
use axe_voice_desktop.Call.Address.{WideClasses}
use axe_voice_desktop.Contacts.Draft.{ContactDraft, is_high, joined, valid_draft}
use axe_voice_desktop.Contacts.Book
use axe_voice_desktop.Contacts.Book.{Contact, ContactBook}

abbrev pub contact_backup_limit : ℕ
contact_backup_limit = 512 * 1024

-- The bits that are joined by `|` do not overlap, so their numbers are added.
unfoldable pub utf8 : ℕ → Text
utf8 cp =
    if ltb cp 0x80
    then cp ∷ []
    else if ltb cp 0x800
    then (0xc0 + cp / 64) ∷ (0x80 + cp % 64) ∷ []
    else if ltb cp 0x10000
    then (0xe0 + cp / 4096) ∷ (0x80 + cp / 64 % 64) ∷ (0x80 + cp % 64) ∷ []
    else (0xf0 + cp / 262144)
      ∷ (0x80 + cp / 4096 % 64)
      ∷ (0x80 + cp / 64 % 64)
      ∷ (0x80 + cp % 64)
      ∷ []

-- A character, with a backslash where it needs one.
unfoldable pub escaped : ℕ → Text
escaped cp = if cp == b'"' || cp == b'\\' then b'\\' ∷ utf8 cp else utf8 cp

-- The loop of `quoted`; `high` is the first half of a pair that was read last. Behind the last unit stands a
-- null.
unfoldable pub escape_from : Option ℕ → Text → Text
escape_from none [] = []
escape_from (some high) [] = escaped (joined high 0)
escape_from none (c ∷ cs) =
    let pair = escape_from (some c) cs in
    let rest = escape_from none cs in if is_high c then pair else escaped c ++ rest
escape_from (some high) (c ∷ cs) = escaped (joined high c) ++ escape_from none cs

abbrev pub quoted : Text → Text
quoted value = codes "\"" ++ (escape_from none value ++ codes "\"")

abbrev pub favorite_text : Bool → Text
favorite_text true = codes ",\"favorite\":true}"
favorite_text false = codes ",\"favorite\":false}"

unfoldable pub contact_text : Contact → Text
contact_text c =
    codes "{\"name\":"
    ++ (quoted c.name
        ++ (codes ",\"destination\":" ++ (quoted c.destination ++ favorite_text c.favorite)))

abbrev pub draft_of : Contact → ContactDraft
draft_of c = record { name = c.name; destination = c.destination; favorite = c.favorite }

module _ (w : WideClasses) where
  -- The loop over the contacts; `out` is what has been written.
  unfoldable pub encode_from : Text → Bool → List Contact → Option Text
  encode_from out first [] = some out
  encode_from out first (c ∷ cs) =
      let next = (if first then out else out ++ codes ",") ++ contact_text c in
      let rest = encode_from next false cs in
      if not (valid_draft w (draft_of c))
      then none
      else if ltb contact_backup_limit (length next)
      then none
      else rest

  -- The brackets behind the contacts.
  abbrev pub close : Option Text → Option Text
  close none = none
  close (some out) =
      if ltb contact_backup_limit (length (out ++ codes "]}"))
      then none
      else some (out ++ codes "]}")

  unfoldable pub encode_contact_backup : ContactBook → Option Text
  encode_contact_backup book =
      if ltb Book.capacity (length book.items)
      then none
      else close (encode_from (codes "{\"version\":1,\"contacts\":[") true book.items)
