-- ===== src/Contacts/Backup/Contacts.antt =====
-- src/contact_backup.cpp, `Parser`: the objects and the array. A loop over the fields of an object ends at a
-- field that it has seen, so that its fuel, one more than the fields, is enough.
use axe_voice_desktop.Prelude.{
  Bool, true, false, ℕ, zero, suc, ◌+◌, ◌==◌, ◌||◌, ◌&&◌, if◌then◌else◌, ltb, List, [], ◌∷◌, ◌++◌,
  Option, none, some, length, Text, codes, text_eq, is_empty,
}
use axe_voice_desktop.Call.Address.{WideClasses}
use axe_voice_desktop.Contacts.Draft.{ContactDraft, valid_draft}
use axe_voice_desktop.Contacts.Book
use axe_voice_desktop.Contacts.Backup.{contact_backup_limit}
use axe_voice_desktop.Contacts.Backup.Parser.{space, token, literal, string}

-- The bits of the fields seen.
pub record Fields : Type 0 where
  pub name : Bool
  pub destination : Bool
  pub favorite : Bool

abbrev pub no_fields : Fields
no_fields = record { name = false; destination = false; favorite = false }

abbrev pub blank_draft : ContactDraft
blank_draft = record { name = []; destination = []; favorite = false }

-- What the loop over the fields has read.
pub record Reading : Type 0 where
  pub fields : Fields
  pub draft : ContactDraft

abbrev pub nothing_read : Reading
nothing_read = record { fields = no_fields; draft = blank_draft }

unfoldable pub read_name : Reading → Option (Text × Text) → Option (Reading × Text)
read_name r none = none
read_name r (some (t, s)) = some (
  record { fields = record (r.fields) { name = true }; draft = record (r.draft) { name = t } },
  s,
)

unfoldable pub read_destination : Reading → Option (Text × Text) → Option (Reading × Text)
read_destination r none = none
read_destination r (some (t, s)) = some (
  record {
    fields = record (r.fields) { destination = true };
    draft = record (r.draft) { destination = t };
  },
  s,
)

abbrev read_favorite : Reading → Bool → Text → Reading × Text
read_favorite r favorite s = (
  record {
    fields = record (r.fields) { favorite = true };
    draft = record (r.draft) { favorite = favorite };
  },
  s,
)

unfoldable pub read_flag : Reading → Text → Option (Reading × Text)
read_flag r s = elim (literal (codes "true") s) [
  | some rest ↦ some (read_favorite r true rest)
  | none ↦ elim (literal (codes "false") s) [
    | some rest ↦ some (read_favorite r false rest)
    | none ↦ none
  ]
]

-- The value of a field that has not been seen.
unfoldable pub read_value : Reading → Text → Text → Option (Reading × Text)
read_value r key s =
    if text_eq key (codes "name")
    then if r.fields.name then none else read_name r (string 64 false s)
    else if text_eq key (codes "destination")
    then if r.fields.destination then none else read_destination r (string 128 true s)
    else if text_eq key (codes "favorite")
    then if r.fields.favorite then none else read_flag r s
    else none

-- A key, its colon and its value.
unfoldable pub read_field : Reading → Text → Option (Reading × Text)
read_field r s = elim (string 11 true s) [
  | none ↦ none
  | some (key, rest) ↦ elim (token b':' rest) [ none ↦ none | some rest' ↦ read_value r key rest' ]
]

-- The loop, with what it is if its rounds run out first.
unfoldable pub read_fields : Option (Reading × Text) → ℕ → Reading → Text → Option (Reading × Text)
read_fields late zero r s = late
read_fields late (suc fuel) r s = elim (read_field r s) [
  | none ↦ none
  | some (r', rest) ↦ elim (token b',' rest) [
    | none ↦ some (r', rest)
    | some rest' ↦ read_fields late fuel r' rest'
  ]
]

abbrev has_all : Fields → Bool
has_all f = f.name && f.destination && f.favorite

-- A contact read before has the destination.
abbrev pub has_draft : Text → List ContactDraft → Bool
has_draft destination [] = false
has_draft destination (d ∷ ds) = text_eq d.destination destination || has_draft destination ds

module _ (w : WideClasses) where
  -- The closing brace, and the checks of the draft.
  abbrev pub end_contact : Option (Reading × Text) → Option (ContactDraft × Text)
  end_contact none = none
  end_contact (some (r, s)) = elim (token b'}' s) [
    | none ↦ none
    | some rest ↦ if has_all r.fields && valid_draft w r.draft then some (r.draft, rest) else none
  ]

  unfoldable pub contact : Text → Option (ContactDraft × Text)
  contact s = elim (token b'{' s) [
    | none ↦ none
    | some rest ↦ end_contact (read_fields none 4 nothing_read rest)
  ]

  -- The loop over the contacts, with what it is if its rounds run out first; it ends at the capacity of
  -- the book.
  unfoldable pub contacts_from :
      Option (List ContactDraft × Text)
      → ℕ
      → List ContactDraft
      → Text
      → Option (List ContactDraft × Text)
  contacts_from late zero out s = late
  contacts_from late (suc fuel) out s =
      if length out == Book.capacity then none else elim (contact s) [
        | none ↦ none
        | some (draft, rest) ↦
            if has_draft draft.destination out then none else elim (token b',' rest) [
              | some rest' ↦ contacts_from late fuel (out ++ (draft ∷ [])) rest'
              | none ↦ elim (token b']' rest) [
                | none ↦ none
                | some rest' ↦ some (out ++ (draft ∷ []), rest')
              ]
            ]
      ]

  unfoldable pub contacts : Text → Option (List ContactDraft × Text)
  contacts s = elim (token b'[' s) [
    | none ↦ none
    | some rest ↦ elim (token b']' rest) [
      | some rest' ↦ some ([], rest')
      | none ↦ contacts_from none (Book.capacity + 1) [] rest
    ]
  ]

  -- The fields of the whole text: whether the version was seen, and the contacts if they were.
  unfoldable pub read_part :
      Bool × Option (List ContactDraft)
      → Text
      → Text
      → Option ((Bool × Option (List ContactDraft)) × Text)
  read_part (version, out) key s =
      if text_eq key (codes "version")
      then if version
        then none
        else elim (literal (codes "1") s) [ none ↦ none | some rest ↦ some ((true, out), rest) ]
      else if text_eq key (codes "contacts")
      then elim out [
        | some seen ↦ none
        | none ↦ elim (contacts s) [
          | none ↦ none
          | some (ds, rest) ↦ some ((version, some ds), rest)
        ]
      ]
      else none

  -- The loop, with what it is if its rounds run out first.
  unfoldable pub read_parts :
      Option ((Bool × Option (List ContactDraft)) × Text)
      → ℕ
      → Bool × Option (List ContactDraft)
      → Text
      → Option ((Bool × Option (List ContactDraft)) × Text)
  read_parts late zero r s = late
  read_parts late (suc fuel) r s = elim (string 8 true s) [
    | none ↦ none
    | some (key, rest) ↦ elim (token b':' rest) [
      | none ↦ none
      | some rest' ↦ elim (read_part r key rest') [
        | none ↦ none
        | some (r', rest'') ↦ elim (token b',' rest'') [
          | none ↦ some (r', rest'')
          | some next ↦ read_parts late fuel r' next
        ]
      ]
    ]
  ]

  -- Nothing but spaces may follow.
  abbrev pub end_text : Bool × Option (List ContactDraft) → Text → Option (List ContactDraft)
  end_text (true, some ds) s = elim (token b'}' s) [
    | none ↦ none
    | some rest ↦ if is_empty (space rest) then some ds else none
  ]
  end_text _ s = none

  unfoldable pub parse : Text → Option (List ContactDraft)
  parse s = elim (token b'{' s) [
    | none ↦ none
    | some rest ↦ elim (read_parts none 3 (false, none) rest) [
      | none ↦ none
      | some (r, rest') ↦ end_text r rest'
    ]
  ]

  unfoldable pub decode_contact_backup : Text → Option (List ContactDraft)
  decode_contact_backup bytes =
      if ltb contact_backup_limit (length bytes) then none else parse bytes
