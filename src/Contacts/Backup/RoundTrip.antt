-- ===== src/Contacts/Backup/RoundTrip.antt =====
-- A backup that was written is read back.
use axe_voice_desktop.Prelude.{
  true, false, ℕ, ◌+◌, ◌≤◌, ◌≡◌, ◌≢◌, ◌∙◌, ◌||◌, List, [], ◌∷◌, ◌++◌, map, none, some, inl, inr,
  refl, ap, arith, Bool-cases, length, All, Text, codes, text_eq, text_eq→≡,
}
use axe_voice_desktop.Call.Address.{WideClasses}
use axe_voice_desktop.Contacts.Draft.{ContactDraft}
use axe_voice_desktop.Contacts.Book
use axe_voice_desktop.Contacts.Book.{Contact, ContactBook}
use axe_voice_desktop.Contacts.Book.Inv.{IsValid, IsKept}
use axe_voice_desktop.Contacts.Book.Items.{Apart, Precedes}
use axe_voice_desktop.Contacts.Backup.{contact_text, draft_of, encode_contact_backup}
use axe_voice_desktop.Contacts.Backup.Parser.{string_from, string, read_char, codepoint, token}
use axe_voice_desktop.Contacts.Backup.Fields.{is_wide}
use axe_voice_desktop.Contacts.Backup.Written.{
  start, items_text, tail_text, encoded, IsNew, IsWritten, contacts_from-tail_text,
}
use axe_voice_desktop.Contacts.Backup.Contacts.{
  contacts, has_draft, read_parts, read_part, parse, decode_contact_backup,
}

contact_starts : (c : Contact) (s : Text) → token b']' (contact_text c ++ s) ≡ none
unfolding contact_text
contact_starts c s = refl

contacts-items_text :
    (w : WideClasses) (cs : List Contact)
    → All (IsWritten w) cs
    → IsNew [] cs
    → length cs ≤ Book.capacity
    → contacts w (b'[' ∷ items_text cs (codes "]}")) ≡ some (map draft_of cs, codes "}")
unfolding contacts
contacts-items_text w [] h new room = refl
contacts-items_text w (c ∷ cs) h new room =
    let all =
      contacts_from-tail_text w cs c (Book.capacity + 1) [] (codes "}") h new (omega (arith, room))
        (omega (arith, room)) in
    ground (arith, contact_starts c (tail_text cs (codes "]}")), all)

version_key :
    (s : Text) → string 8 true (codes "\"version\":" ++ s) ≡ some (codes "version", b':' ∷ s)
unfolding string_from read_char codepoint
version_key s = refl

contacts_key :
    (s : Text) → string 8 true (codes "\"contacts\":" ++ s) ≡ some (codes "contacts", b':' ∷ s)
unfolding string_from read_char codepoint
contacts_key s = refl

-- The two fields, and the end.
parse_start :
    (w : WideClasses) (ds : List ContactDraft) (s : Text)
    → contacts w (b'[' ∷ s) ≡ some (ds, codes "}")
    → parse w (start ++ s) ≡ some ds
unfolding parse read_parts read_part
parse_start w ds s h =
    ground (arith, version_key (codes "1,\"contacts\":[" ++ s), contacts_key (b'[' ∷ s), h)

has_draft-append :
    (d : Text) (out : List ContactDraft) (x : ContactDraft)
    → has_draft d (out ++ (x ∷ [])) ≡ (has_draft d out || text_eq x.destination d)
has_draft-append d [] x = ground arith
has_draft-append d (y ∷ ys) x = ground (arith, has_draft-append d ys x)

text_neq : (s t : Text) → s ≢ t → text_eq s t ≡ false
text_neq s t h = elim (Bool-cases (text_eq s t)) [
  | inl e ↦ absurd (h (text_eq→≡ s t e))
  | inr e ↦ e
]

new_behind :
    (out : List ContactDraft) (c : Contact) (cs : List Contact)
    → All (Precedes c) cs
    → All (λ x. has_draft x.destination out ≡ false) cs
    → All (λ x. has_draft x.destination (out ++ (draft_of c ∷ [])) ≡ false) cs
new_behind out c [] a h = tt
new_behind out c (x ∷ xs) a h = (
  ground (
    arith,
    has_draft-append x.destination out (draft_of c),
    h.0,
    text_neq c.destination x.destination a.0.1,
  ),
  new_behind out c xs a.1 h.1,
)

Apart-IsNew :
    (cs : List Contact) (out : List ContactDraft)
    → Apart cs
    → All (λ x. has_draft x.destination out ≡ false) cs
    → IsNew out cs
Apart-IsNew [] out a h = tt
Apart-IsNew (c ∷ cs) out a h =
    (h.0, Apart-IsNew cs (out ++ (draft_of c ∷ [])) a.1 (new_behind out c cs a.0 h.1))

none_before : (cs : List Contact) → All (λ x. has_draft x.destination [] ≡ false) cs
none_before [] = tt
none_before (c ∷ cs) = (refl, none_before cs)

written :
    (w : WideClasses) (next : ℕ) (cs : List Contact)
    → All (IsKept w next) cs
    → All (λ c. is_wide c.name ≡ true) cs
    → All (IsWritten w) cs
unfolding IsKept
written w next [] h k = tt
written w next (c ∷ cs) h k = ((h.0.2, k.0), written w next cs h.1 k.1)

-- The backup of a valid book, whose names are made of units of 16 bits, is read back as the drafts of all
-- its contacts, in their order.
pub decode_contact_backup-encode_contact_backup :
    (w : WideClasses) (b : ContactBook) (bytes : Text)
    → IsValid w b
    → All (λ c. is_wide c.name ≡ true) b.items
    → encode_contact_backup w b ≡ some bytes
    → decode_contact_backup w bytes ≡ some (map draft_of b.items)
unfolding decode_contact_backup
decode_contact_backup-encode_contact_backup w b bytes v wide h =
    let text = encoded w b bytes h in
    let read =
      contacts-items_text w b.items (written w b.next_id b.items v.kept wide)
        (Apart-IsNew b.items [] v.apart (none_before b.items)) v.small in
    let parsed : parse w bytes ≡ some (map draft_of b.items) =
      ap (parse w) text.0
      ∙ parse_start w (map draft_of b.items) (items_text b.items (codes "]}")) read in
    ground (arith, parsed, text.1)
