-- ===== src/Contacts/Backup/Fields.antt =====
-- A contact that was written is read back.
use axe_voice_desktop.Prelude.{
  Bool, true, false, ℕ, suc, ◌+◌, ◌≤◌, ◌≡◌, ◌∙◌, ◌||◌, ◌&&◌, ltb, [], ◌∷◌, ◌++◌, append_assoc,
  Option, none, some, refl, ap, arith, length, drop, Text, codes, all,
}
use axe_voice_desktop.Call.Address.{WideClasses}
use axe_voice_desktop.Contacts.Draft
use axe_voice_desktop.Contacts.Draft.{
  ContactDraft, name_from, valid_name, valid_draft, is_high, is_low, joined, width, read_unit,
}
use axe_voice_desktop.Contacts.Book.{Contact}
use axe_voice_desktop.Contacts.Backup.{escape_from, quoted, contact_text, favorite_text, draft_of}
use axe_voice_desktop.Contacts.Backup.Parser.{string_from, string, read_char, codepoint}
use axe_voice_desktop.Contacts.Backup.Strings.{fits, string_from-escape_from}
use axe_voice_desktop.Contacts.Backup.Contacts.{
  Reading, nothing_read, read_field, read_value, read_name, read_destination, read_flag,
  read_fields, contact, end_contact,
}

-- The units of a text are words of 16 bits.
abbrev pub is_wide : Text → Bool
is_wide t = all (λ c. ltb c 0x10000) t

fits-name :
    (t : Text) (p : Option ℕ) (units : ℕ) (visible : Bool)
    → name_from p units visible t ≡ true
    → is_wide t ≡ true
    → fits 64 false p units t ≡ true
unfolding fits name_from
fits-name [] none units visible h k = refl
fits-name [] (some high) units visible h k = ground arith
fits-name (c ∷ cs) none units visible h k = ground (
  arith,
  fits-name cs (some c) units visible,
  fits-name cs none (units + width c) (visible || Draft.is_visible c),
)
fits-name (c ∷ cs) (some high) units visible h k = ground (
  arith,
  fits-name cs none (units + width (joined high c)) (visible || Draft.is_visible (joined high c)),
)

fits-destination :
    (t : Text) (units : ℕ)
    → all (λ c. ltb 32 c && ltb c 127) t ≡ true
    → units + length t ≤ 128
    → fits 128 true none units t ≡ true
unfolding fits
fits-destination [] units h k = refl
fits-destination (c ∷ cs) units h k = ground (arith, fits-destination cs (units + width c))

string-quoted :
    (limit : ℕ) (ascii : Bool) (t s : Text)
    → fits limit ascii none 0 t ≡ true
    → string limit ascii (quoted t ++ s) ≡ some (t, s)
string-quoted limit ascii t s f =
    ap (string_from none (limit + 1) limit ascii 0)
      (append_assoc (escape_from none t) (b'"' ∷ []) s)
    ∙ string_from-escape_from t none (limit + 1) limit 0 ascii s tt f (omega arith) (omega arith)

name_key : (s : Text) → string 11 true (codes "\"name\":" ++ s) ≡ some (codes "name", b':' ∷ s)
unfolding string_from read_char codepoint
name_key s = refl

destination_key :
    (s : Text)
    → string 11 true (codes "\"destination\":" ++ s) ≡ some (codes "destination", b':' ∷ s)
unfolding string_from read_char codepoint
destination_key s = refl

favorite_key :
    (s : Text) → string 11 true (codes "\"favorite\":" ++ s) ≡ some (codes "favorite", b':' ∷ s)
unfolding string_from read_char codepoint
favorite_key s = refl

-- The readings of the three fields in their order.
abbrev with_name : Text → Reading
with_name name = record nothing_read {
  fields = record (nothing_read.fields) { name = true };
  draft = record (nothing_read.draft) { name = name };
}

abbrev with_destination : Text → Text → Reading
with_destination name destination = record {
  fields = record { name = true; destination = true; favorite = false };
  draft = record { name = name; destination = destination; favorite = false };
}

abbrev with_favorite : ContactDraft → Reading
with_favorite d = record {
  fields = record { name = true; destination = true; favorite = true };
  draft = d;
}

name_field :
    (t s : Text)
    → fits 64 false none 0 t ≡ true
    → read_field nothing_read (codes "\"name\":" ++ (quoted t ++ s)) ≡ some (with_name t, s)
unfolding read_field read_value read_name read_destination read_flag
name_field t s f = ground (arith, name_key (quoted t ++ s), string-quoted 64 false t s f)

destination_field :
    (n t s : Text)
    → fits 128 true none 0 t ≡ true
    → read_field (with_name n) (codes "\"destination\":" ++ (quoted t ++ s))
      ≡ some (with_destination n t, s)
unfolding read_field read_value read_name read_destination read_flag
destination_field n t s f =
    ground (arith, destination_key (quoted t ++ s), string-quoted 128 true t s f)

true_field :
    (n t s : Text)
    → read_field (with_destination n t) (codes "\"favorite\":true}" ++ s)
      ≡ some (with_favorite (record { name = n; destination = t; favorite = true }), b'}' ∷ s)
unfolding read_field read_value read_name read_destination read_flag
true_field n t s = ground (arith, favorite_key (codes "true}" ++ s))

false_field :
    (n t s : Text)
    → read_field (with_destination n t) (codes "\"favorite\":false}" ++ s)
      ≡ some (with_favorite (record { name = n; destination = t; favorite = false }), b'}' ∷ s)
unfolding read_field read_value read_name read_destination read_flag
false_field n t s = ground (arith, favorite_key (codes "false}" ++ s))

-- A field with a comma behind it, and one with a brace.
next_field :
    (fuel : ℕ) (r r' : Reading) (s s' : Text)
    → read_field r s ≡ some (r', b',' ∷ s')
    → read_fields none (suc fuel) r s ≡ read_fields none fuel r' s'
unfolding read_fields
next_field fuel r r' s s' h = ground (arith, h)

last_field :
    (fuel : ℕ) (r r' : Reading) (s s' : Text)
    → read_field r s ≡ some (r', b'}' ∷ s')
    → read_fields none (suc fuel) r s ≡ some (r', b'}' ∷ s')
unfolding read_fields
last_field fuel r r' s s' h = ground (arith, h)

valid_draft_needs :
    (w : WideClasses) (d : ContactDraft)
    → valid_draft w d ≡ true
    → (valid_name d.name ≡ true)
      × (all (λ c. ltb 32 c && ltb c 127) d.destination ≡ true)
      × (length d.destination ≤ 128)
unfolding valid_draft
valid_draft_needs w d v = ground arith

valid_name_from : (t : Text) → valid_name t ≡ true → name_from none 0 false t ≡ true
unfolding valid_name
valid_name_from t v = ground arith

valid_draft_fits :
    (w : WideClasses) (d : ContactDraft)
    → valid_draft w d ≡ true
    → is_wide d.name ≡ true
    → (fits 64 false none 0 d.name ≡ true) × (fits 128 true none 0 d.destination ≡ true)
valid_draft_fits w d v wide =
    let needs = valid_draft_needs w d v in
    (
      fits-name d.name none 0 false (valid_name_from d.name needs.0) wide,
      fits-destination d.destination 0 needs.1 (omega (arith, needs.2)),
    )

abbrev flag : Bool → Text
flag true = codes "true}"
flag false = codes "false}"

favorite_text-flag :
    (favorite : Bool) → favorite_text favorite ≡ b',' ∷ (codes "\"favorite\":" ++ flag favorite)
favorite_text-flag true = refl
favorite_text-flag false = refl

read_flag_last :
    (n t s : Text) (favorite : Bool)
    → read_fields none 2 (with_destination n t) (codes "\"favorite\":" ++ (flag favorite ++ s))
      ≡ some (with_favorite (record { name = n; destination = t; favorite = favorite }), b'}' ∷ s)
read_flag_last n t s true =
    last_field 1 (with_destination n t)
      (with_favorite (record { name = n; destination = t; favorite = true }))
      (codes "\"favorite\":true}" ++ s) s (true_field n t s)
read_flag_last n t s false =
    last_field 1 (with_destination n t)
      (with_favorite (record { name = n; destination = t; favorite = false }))
      (codes "\"favorite\":false}" ++ s) s (false_field n t s)

-- The text of a contact, and what follows.
abbrev contact_before : Contact → Text → Text
contact_before c s =
    b'{'
    ∷ (codes "\"name\":"
        ++ (quoted c.name
            ++ (b','
                ∷ (codes "\"destination\":"
                    ++ (quoted c.destination
                        ++ (b',' ∷ (codes "\"favorite\":" ++ (flag c.favorite ++ s))))))))

contact_text_before : (c : Contact) (s : Text) → contact_text c ++ s ≡ contact_before c s
unfolding contact_text
contact_text_before c s = simp (append_assoc, favorite_text-flag)

contact_fields :
    (c : Contact) (s : Text)
    → fits 64 false none 0 c.name ≡ true
    → fits 128 true none 0 c.destination ≡ true
    → read_fields none 4 nothing_read (drop 1 (contact_before c s))
      ≡ some (with_favorite (draft_of c), b'}' ∷ s)
contact_fields c s f g =
    let flags = b',' ∷ (codes "\"favorite\":" ++ (flag c.favorite ++ s)) in
    let rest = b',' ∷ (codes "\"destination\":" ++ (quoted c.destination ++ flags)) in
    next_field 3 nothing_read (with_name c.name) (codes "\"name\":" ++ (quoted c.name ++ rest))
      (codes "\"destination\":" ++ (quoted c.destination ++ flags)) (name_field c.name rest f)
    ∙ next_field 2 (with_name c.name) (with_destination c.name c.destination)
        (codes "\"destination\":" ++ (quoted c.destination ++ flags))
        (codes "\"favorite\":" ++ (flag c.favorite ++ s))
        (destination_field c.name c.destination flags g)
    ∙ read_flag_last c.name c.destination s c.favorite

end_valid :
    (w : WideClasses) (d : ContactDraft) (s : Text)
    → valid_draft w d ≡ true
    → end_contact w (some (with_favorite d, b'}' ∷ s)) ≡ some (d, s)
end_valid w d s v = ground (arith, v)

-- What is written of a valid contact is read back, whatever follows it.
pub contact-contact_text :
    (w : WideClasses) (c : Contact) (s : Text)
    → valid_draft w (draft_of c) ≡ true
    → is_wide c.name ≡ true
    → contact w (contact_text c ++ s) ≡ some (draft_of c, s)
unfolding contact
contact-contact_text w c s v wide =
    let f = valid_draft_fits w (draft_of c) v wide in
    ap (contact w) (contact_text_before c s)
    ∙ ap (end_contact w) (contact_fields c s f.0 f.1)
    ∙ end_valid w (draft_of c) s v
