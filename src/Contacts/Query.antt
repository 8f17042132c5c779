-- ===== src/Contacts/Query.antt =====
-- src/contact_query.cpp: the contacts that a search finds, in their order. `std::sort` is a parameter; the
-- indices that it sorts are the contacts here.
pub mod Order
use axe_voice_desktop.Prelude.{
  Bool, true, false, ℕ, zero, suc, ◌+◌, ◌-◌, ◌*◌, ◌/◌, ◌%◌, ◌^◌, ◌≤◌, ◌<◌, ◌≡◌, ◌≢◌, ◌↔◌, ◌⊎◌, ◌∙◌,
  ◌==◌, ◌!=◌, ◌||◌, ◌&&◌, not, if◌then◌else◌, leb, ltb, List, [], ◌∷◌, ◌++◌, map, append_assoc,
  append-nil, Option, none, some, inl, inr, refl, sym, ap, arith, tests, Bool-cases, Option-cases,
  length, get_or, set, take, drop, replicate, pop_front, All, All-append, All-mono, All-take,
  length-append, length-set, length-take, get_or-set_self, get_or-set_ne, u64_mod, u64_max, inc_u64,
  sub_u64, Text, codes, text_eq, is_empty, any, all, between, is_digit, is_letter, is_alnum,
  text_eq→≡, text_eq_refl, starts_with, value_from, value_grows, Before, newer_session,
  newer_sequence, NewerFrom, NewerFrom-mono, NotAfter, newer, same_or_later, NotAfter-trans, lt→ltb,
  ltb→lt, leb→le, le→leb, ==_iff,
}
use axe_voice_desktop.Contacts.Book.{Contact, ContactBook}

-- Upper case letters of ASCII and of Latin-1.
unfoldable pub fold : ℕ → ℕ
fold c = if between b'A' b'Z' c || between 192 214 c || between 216 222 c then c + 32 else c

-- The inner loop of `contains`.
unfoldable pub matches_at : Text → Text → Bool
matches_at text [] = true
matches_at [] (q ∷ qs) = false
matches_at (c ∷ cs) (q ∷ qs) =
    let rest = matches_at cs qs in if fold c == fold q then rest else false

-- The outer loop, over the starts where the query still fits.
unfoldable pub contains_from : Text → Text → Bool
contains_from [] query = matches_at [] query
contains_from (c ∷ cs) query =
    let rest = contains_from cs query in if matches_at (c ∷ cs) query then true else rest

unfoldable pub contains : Text → Text → Bool
contains text query = if ltb (length text) (length query) then false else contains_from text query

-- -1, 0 and 1.
pub data Ordering : Type 0 where
  less equal greater : Ordering

unfoldable pub compare : Text → Text → Ordering
compare [] [] = Ordering.equal
compare [] (b ∷ bs) = Ordering.less
compare (a ∷ as') [] = Ordering.greater
compare (a ∷ as') (b ∷ bs) =
    let rest = compare as' bs in
    if ltb (fold a) (fold b)
    then Ordering.less
    else if ltb (fold b) (fold a)
    then Ordering.greater
    else rest

-- A comparison, or what decides if it finds no difference.
abbrev pub or_by : Ordering → Bool → Bool
or_by Ordering.less other = true
or_by Ordering.equal other = other
or_by Ordering.greater other = false

abbrev pub by_flag : Bool → Bool → Ordering
by_flag true false = Ordering.less
by_flag false true = Ordering.greater
by_flag _ _ = Ordering.equal

-- The comparison that is handed to `std::sort`.
unfoldable pub comes_before : Contact → Contact → Bool
comes_before a b =
    or_by (by_flag a.favorite b.favorite)
      (or_by (compare a.name b.name) (or_by (compare a.destination b.destination) (ltb a.id b.id)))

unfoldable pub is_match : Text → Bool → Contact → Bool
is_match query favorites_only contact =
    if favorites_only && not contact.favorite
    then false
    else contains contact.name query || contains contact.destination query

unfoldable pub matches : Text → Bool → List Contact → List Contact
matches query favorites_only [] = []
matches query favorites_only (c ∷ cs) =
    let rest = matches query favorites_only cs in
    if is_match query favorites_only c then c ∷ rest else rest

abbrev pub id_of : Contact → ℕ
id_of c = c.id

unfoldable pub find_contacts :
    ((Contact → Contact → Bool) → List Contact → List Contact) → ContactBook → Text → Bool → List ℕ
find_contacts sort book query favorites_only =
    if ltb 128 (length query)
    then []
    else map id_of (sort comes_before (matches query favorites_only book.items))
