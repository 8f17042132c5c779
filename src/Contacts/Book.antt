-- ===== src/Contacts/Book.antt =====
-- src/contact_book.h, src/contact_book.cpp, src/contact_favorites.cpp: the book of contacts. A failed
-- allocation is not modelled.
pub mod Items
pub mod Inv
pub mod Refine
use axe_voice_desktop.Prelude.{
  Bool, true, false, ℕ, zero, suc, ◌+◌, ◌-◌, ◌*◌, ◌/◌, ◌%◌, ◌^◌, ◌≤◌, ◌<◌, ◌≡◌, ◌≢◌, ◌↔◌, ◌⊎◌, ◌∙◌,
  ◌==◌, ◌!=◌, ◌||◌, ◌&&◌, not, if◌then◌else◌, leb, ltb, List, [], ◌∷◌, ◌++◌, map, Option, none,
  some, inl, inr, refl, sym, ap, arith, tests, Bool-cases, Option-cases, length, get_or, set, take,
  drop, replicate, pop_front, All, All-append, All-mono, length-append, length-set, length-take,
  get_or-set_self, get_or-set_ne, u64_mod, u64_max, inc_u64, sub_u64, Text, codes, text_eq,
  is_empty, any, all, between, is_digit, is_letter, is_alnum, text_eq→≡, text_eq_refl, Before,
  newer_session, newer_sequence, NewerFrom, NewerFrom-mono, NotAfter, newer, same_or_later,
  NotAfter-trans, lt→ltb, ltb→lt, leb→le, le→leb, ==_iff,
}
use axe_voice_desktop.Call.Address.{WideClasses}
use axe_voice_desktop.Contacts.Draft.{ContactDraft, valid_draft}

pub record Contact : Type 0 where
  pub id : ℕ  -- uint64_t
  pub name : Text
  pub destination : Text
  pub favorite : Bool

pub data ContactResult : Type 0 where
  ok invalid duplicate full not_found error : ContactResult

abbrev pub capacity : ℕ
capacity = 500

pub record ContactBook : Type 0 where
  pub items : List Contact
  pub next_id : ℕ  -- uint64_t; 0 marks exhaustion

abbrev pub initial_book : ContactBook
initial_book = record { items = []; next_id = 1 }

abbrev pub contact_of : ℕ → ContactDraft → Contact
contact_of id draft = record {
  id = id;
  name = draft.name;
  destination = draft.destination;
  favorite = draft.favorite;
}

-- The first contact with the identifier.
unfoldable pub find_item : List Contact → ℕ → Option Contact
find_item [] id = none
find_item (c ∷ cs) id = if c.id == id then some c else find_item cs id

unfoldable pub find : ContactBook → ℕ → Option Contact
find book id = find_item book.items id

-- The first contact with the identifier, changed.
unfoldable pub change_item : (Contact → Contact) → ℕ → List Contact → List Contact
change_item f id [] = []
change_item f id (c ∷ cs) =
    let rest = change_item f id cs in if c.id == id then f c ∷ cs else c ∷ rest

-- The contacts without the first one with the identifier.
unfoldable pub erase_item : ℕ → List Contact → List Contact
erase_item id [] = []
erase_item id (c ∷ cs) = let rest = erase_item id cs in if c.id == id then cs else c ∷ rest

-- Another contact than `id` has the destination.
unfoldable pub has_destination : ℕ → Text → List Contact → Bool
has_destination id destination [] = false
has_destination id destination (c ∷ cs) =
    (c.id != id && text_eq c.destination destination) || has_destination id destination cs

unfoldable pub takes_destination : Text → List Contact → Bool
takes_destination destination [] = false
takes_destination destination (c ∷ cs) =
    text_eq c.destination destination || takes_destination destination cs

module _ (w : WideClasses) where
  unfoldable pub add : ContactBook → ContactDraft → ContactBook × ContactResult
  add book draft =
      if not (valid_draft w draft)
      then (book, ContactResult.invalid)
      else if takes_destination draft.destination book.items
      then (book, ContactResult.duplicate)
      else if leb capacity (length book.items)
      then (book, ContactResult.full)
      else if book.next_id == 0
      then (book, ContactResult.error)
      else (
        record {
          items = book.items ++ (contact_of book.next_id draft ∷ []);
          next_id = inc_u64 book.next_id;
        },
        ContactResult.ok,
      )

  unfoldable pub update : ContactBook → ℕ → ContactDraft → ContactBook × ContactResult
  update book id draft = elim (find_item book.items id) [
    | none ↦ (book, ContactResult.not_found)
    | some target ↦
        if not (valid_draft w draft)
        then (book, ContactResult.invalid)
        else if has_destination id draft.destination book.items
        then (book, ContactResult.duplicate)
        else (
          record book {
            items =
                change_item
                  (λ c. record c {
                    name = draft.name;
                    destination = draft.destination;
                    favorite = draft.favorite;
                  })
                  id book.items;
          },
          ContactResult.ok,
        )
  ]

unfoldable pub remove : ContactBook → ℕ → ContactBook × ContactResult
remove book id = elim (find_item book.items id) [
  | none ↦ (book, ContactResult.not_found)
  | some target ↦ (record book { items = erase_item id book.items }, ContactResult.ok)
]

unfoldable pub set_favorite : ContactBook → ℕ → Bool → ContactBook × ContactResult
set_favorite book id favorite = elim (find_item book.items id) [
  | none ↦ (book, ContactResult.not_found)
  | some target ↦ (
    record book { items = change_item (λ c. record c { favorite = favorite }) id book.items },
    ContactResult.ok,
  )
]

-- src/contact_favorites.cpp
unfoldable pub toggle_contact_favorite : ContactBook → ℕ → ContactBook × ContactResult
toggle_contact_favorite book id = elim (find book id) [
  | none ↦ (book, ContactResult.not_found)
  | some contact ↦ set_favorite book id (not contact.favorite)
]

abbrev favorites : List Contact → ℕ
favorites [] = 0
favorites (c ∷ cs) = (if c.favorite then 1 else 0) + favorites cs

abbrev pub favorite_contact_count : ContactBook → ℕ
favorite_contact_count book = favorites book.items

-- The calls that change a book.
pub data Change : Type 0 where
  adds : ContactDraft → Change
  updates : ℕ → ContactDraft → Change
  removes toggles : ℕ → Change
  sets_favorite : ℕ → Bool → Change

abbrev pub step : WideClasses → ContactBook → Change → ContactBook × ContactResult
step w book (Change.adds draft) = add w book draft
step w book (Change.updates id draft) = update w book id draft
step w book (Change.removes id) = remove book id
step w book (Change.toggles id) = toggle_contact_favorite book id
step w book (Change.sets_favorite id favorite) = set_favorite book id favorite
