-- ===== src/Contacts/Backup/Written.antt =====
-- The contacts of a backup that was written are read back.
use axe_voice_desktop.Prelude.{
  append-nil, true, false, ℕ, zero, suc, ◌+◌, ◌≤◌, ◌<◌, ◌≡◌, ◌∙◌, List, [], ◌∷◌, ◌++◌, map,
  append_assoc, none, some, inl, inr, refl, sym, ap, arith, Option-cases, length, All,
  length-append, Text, codes,
}
use axe_voice_desktop.Call.Address.{WideClasses}
use axe_voice_desktop.Contacts.Draft.{ContactDraft, valid_draft}
use axe_voice_desktop.Contacts.Book
use axe_voice_desktop.Contacts.Book.{Contact, ContactBook}
use axe_voice_desktop.Contacts.Backup.{
  contact_backup_limit, contact_text, draft_of, encode_from, encode_contact_backup,
}
use axe_voice_desktop.Contacts.Backup.Fields.{is_wide, contact-contact_text}
use axe_voice_desktop.Contacts.Backup.Contacts.{contacts_from, has_draft}

-- The contacts behind the first one, and what follows them.
abbrev pub tail_text : List Contact → Text → Text
tail_text [] z = z
tail_text (c ∷ cs) z = b',' ∷ (contact_text c ++ tail_text cs z)

tail_text-append : (cs : List Contact) (y z : Text) → tail_text cs y ++ z ≡ tail_text cs (y ++ z)
tail_text-append [] y z = refl
tail_text-append (c ∷ cs) y z =
    ap (λ t. b',' ∷ t)
      (append_assoc (contact_text c) (tail_text cs y) z
        ∙ ap (λ t. contact_text c ++ t) (tail_text-append cs y z))

-- What a contact needs to be written and read back.
abbrev pub IsWritten : WideClasses → Contact → Type 0
IsWritten w c = (valid_draft w (draft_of c) ≡ true) × (is_wide c.name ≡ true)

-- No contact calls a destination that is read before it.
abbrev pub IsNew : List ContactDraft → List Contact → Type 0
IsNew out [] = Unit {0}
IsNew out (c ∷ cs) = (has_draft c.destination out ≡ false) × IsNew (out ++ (draft_of c ∷ [])) cs

pub contacts_from-tail_text :
    (w : WideClasses) (cs : List Contact) (c : Contact) (fuel : ℕ) (out : List ContactDraft)
    (s : Text)
    → All (IsWritten w) (c ∷ cs)
    → IsNew out (c ∷ cs)
    → length out + suc (length cs) ≤ Book.capacity
    → length cs < fuel
    → contacts_from w none fuel out (contact_text c ++ tail_text cs (b']' ∷ s))
      ≡ some (out ++ map draft_of (c ∷ cs), s)
unfolding contacts_from
contacts_from-tail_text w cs c zero out s h new room enough = ground arith
contacts_from-tail_text w [] c (suc fuel) out s h new room enough =
    let read = contact-contact_text w c (b']' ∷ s) h.0.0 h.0.1 in ground (arith, read, new.0)
contacts_from-tail_text w (c' ∷ cs) c (suc fuel) out s h new room enough =
    let read = contact-contact_text w c (tail_text (c' ∷ cs) (b']' ∷ s)) h.0.0 h.0.1 in
    let rest = contacts_from-tail_text w cs c' fuel (out ++ (draft_of c ∷ [])) s h.1 new.1 in
    ground (
      arith,
      read,
      new.0,
      rest,
      length-append out (draft_of c ∷ []),
      append_assoc out (draft_of c ∷ []) (map draft_of (c' ∷ cs)),
    )

-- What the encoder has written when it ends.
encode_tail :
    (w : WideClasses) (cs : List Contact) (out bytes : Text)
    → encode_from w out false cs ≡ some bytes
    → bytes ≡ out ++ tail_text cs []
unfolding encode_from
encode_tail w [] out bytes h =
    let same : out ≡ bytes = ground arith in sym same ∙ sym (append-nil out)
encode_tail w (c ∷ cs) out bytes h =
    let comma = out ++ codes "," in
    let rest : encode_from w (comma ++ contact_text c) false cs ≡ some bytes = ground arith in
    encode_tail w cs (comma ++ contact_text c) bytes rest
    ∙ append_assoc comma (contact_text c) (tail_text cs [])
    ∙ append_assoc out (codes ",") (contact_text c ++ tail_text cs [])

-- The contacts from the first one, and what follows them.
abbrev pub items_text : List Contact → Text → Text
items_text [] z = z
items_text (c ∷ cs) z = contact_text c ++ tail_text cs z

encode_items :
    (w : WideClasses) (cs : List Contact) (out bytes : Text)
    → encode_from w out true cs ≡ some bytes
    → bytes ≡ out ++ items_text cs []
unfolding encode_from
encode_items w [] out bytes h =
    let same : out ≡ bytes = ground arith in sym same ∙ sym (append-nil out)
encode_items w (c ∷ cs) out bytes h =
    let rest : encode_from w (out ++ contact_text c) false cs ≡ some bytes = ground arith in
    encode_tail w cs (out ++ contact_text c) bytes rest
    ∙ append_assoc out (contact_text c) (tail_text cs [])

items_text-append : (cs : List Contact) (y z : Text) → items_text cs y ++ z ≡ items_text cs (y ++ z)
items_text-append [] y z = refl
items_text-append (c ∷ cs) y z =
    append_assoc (contact_text c) (tail_text cs y) z
    ∙ ap (λ t. contact_text c ++ t) (tail_text-append cs y z)

abbrev pub start : Text
start = codes "{\"version\":1,\"contacts\":["

-- The whole text.
pub encoded :
    (w : WideClasses) (b : ContactBook) (bytes : Text)
    → encode_contact_backup w b ≡ some bytes
    → (bytes ≡ start ++ items_text b.items (codes "]}"))
      × (length bytes ≤ contact_backup_limit)
      × (length b.items ≤ Book.capacity)
unfolding encode_contact_backup
encoded w b bytes h = elim (Option-cases (encode_from w start true b.items)) [
  | inl e ↦ ground (arith, e)
  | inr (out, e) ↦
      let items = encode_items w b.items start out e in
      let closed : bytes ≡ out ++ codes "]}" = ground (arith, e) in
      (
        closed
            ∙ ap (λ t. t ++ codes "]}") items
            ∙ append_assoc start (items_text b.items []) (codes "]}")
            ∙ ap (λ t. start ++ t) (items_text-append b.items [] (codes "]}")),
        ground (arith, e),
        ground arith,
      )
]
