-- ===== src/Contacts/Backup/Fuel.antt =====
-- The loops of the parser end before their fuel does.
use axe_voice_desktop.Prelude.{
  Bool, true, false, ℕ, zero, suc, ◌+◌, ◌≤◌, ◌<◌, ◌≡◌, ◌∙◌, if◌then◌else◌, ltb, List, [], ◌∷◌, ◌++◌,
  Option, none, some, inl, inr, refl, sym, ap, arith, Option-cases, length, length-append, Text,
  codes, ltb→lt,
}
use axe_voice_desktop.Call.Address.{WideClasses}
use axe_voice_desktop.Contacts.Draft.{ContactDraft, width}
use axe_voice_desktop.Contacts.Book
use axe_voice_desktop.Contacts.Backup.Parser.{string_from, string, read_char, token, literal}
use axe_voice_desktop.Contacts.Backup.Contacts.{
  Reading, read_field, read_fields, contact, contacts, contacts_from, read_part, read_parts,
  nothing_read, read_value, read_name, read_destination, read_flag,
}

-- If both have more rounds than units are left, two runs read the same, whatever stands for running out.
string_from_same :
    (late late' : Option (Text × Text)) (fuel fuel' limit units : ℕ) (ascii : Bool) (s : Text)
    → units ≤ limit
    → limit < fuel + units
    → limit < fuel' + units
    → string_from late fuel limit ascii units s ≡ string_from late' fuel' limit ascii units s
unfolding string_from
string_from_same late late' zero fuel' limit units ascii s small enough enough' = ground arith
string_from_same late late' (suc fuel) zero limit units ascii s small enough enough' = ground arith
string_from_same late late' (suc fuel) (suc fuel') limit units ascii s small enough enough' =
    elim (Option-cases (read_char s)) [
      | inl e ↦ ground (arith, e)
      | inr ((cp, rest), e) ↦
          let tail = string_from_same late late' fuel fuel' limit (units + width cp) ascii rest in
          let counts : 1 ≤ width cp = ground arith in ground (arith, e, tail, counts)
    ]

-- The fields that have not been seen.
abbrev unseen : Reading → ℕ
unseen r =
    (if r.fields.name then 0 else 1)
    + (if r.fields.destination then 0 else 1)
    + (if r.fields.favorite then 0 else 1)

-- Whether a field has been seen, if it could be read.
unfoldable counts : Reading → Option (Reading × Text) → Bool
counts r none = true
counts r (some (r', rest)) = ltb (unseen r') (unseen r)

name_counts :
    (r : Reading) (o : Option (Text × Text))
    → r.fields.name ≡ false
    → counts r (read_name r o) ≡ true
unfolding counts read_name
name_counts r o h = ground arith

destination_counts :
    (r : Reading) (o : Option (Text × Text))
    → r.fields.destination ≡ false
    → counts r (read_destination r o) ≡ true
unfolding counts read_destination
destination_counts r o h = ground arith

flag_counts : (r : Reading) (s : Text) → r.fields.favorite ≡ false → counts r (read_flag r s) ≡ true
unfolding counts read_flag
flag_counts r s h = elim (Option-cases (literal (codes "true") s)) [
  | inr (rest, e) ↦ ground (arith, e)
  | inl e ↦ elim (Option-cases (literal (codes "false") s)) [
    | inr (rest, e') ↦ ground (arith, e, e')
    | inl e' ↦ ground (arith, e, e')
  ]
]

none_counts : (r : Reading) → counts r none ≡ true
unfolding counts
none_counts r = refl

value_counts : (r : Reading) (key s : Text) → counts r (read_value r key s) ≡ true
unfolding read_value
value_counts r key s = ground (
  arith,
  none_counts r,
  name_counts r (string 64 false s),
  destination_counts r (string 128 true s),
  flag_counts r s,
)

read_value-unseen :
    (r r' : Reading) (key s rest : Text)
    → read_value r key s ≡ some (r', rest)
    → unseen r' < unseen r
unfolding counts
read_value-unseen r r' key s rest h =
    let counted : counts r (some (r', rest)) ≡ true =
      ap (counts r) (sym h) ∙ value_counts r key s in
    ltb→lt (unseen r') (unseen r) counted

contacts_from_same :
    (w : WideClasses) (late late' : Option (List ContactDraft × Text)) (fuel fuel' : ℕ)
    (out : List ContactDraft) (s : Text)
    → length out ≤ Book.capacity
    → Book.capacity < fuel + length out
    → Book.capacity < fuel' + length out
    → contacts_from w late fuel out s ≡ contacts_from w late' fuel' out s
unfolding contacts_from
contacts_from_same w late late' zero fuel' out s small enough enough' = ground arith
contacts_from_same w late late' (suc fuel) zero out s small enough enough' = ground arith
contacts_from_same w late late' (suc fuel) (suc fuel') out s small enough enough' =
    elim (Option-cases (contact w s)) [
      | inl e ↦ ground (arith, e)
      | inr ((draft, rest), e) ↦ elim (Option-cases (token b',' rest)) [
        | inl e' ↦ ground (arith, e, e')
        | inr (rest', e') ↦
            let tail = contacts_from_same w late late' fuel fuel' (out ++ (draft ∷ [])) rest' in
            ground (arith, e, e', tail, length-append out (draft ∷ []))
      ]
    ]

read_field-unseen :
    (r r' : Reading) (s rest : Text) → read_field r s ≡ some (r', rest) → unseen r' < unseen r
unfolding read_field
read_field-unseen r r' s rest h = elim (Option-cases (string 11 true s)) [
  | inl e ↦ ground (arith, e)
  | inr ((key, after), e) ↦ elim (Option-cases (token b':' after)) [
    | inl e' ↦ ground (arith, e, e')
    | inr (value, e') ↦
        let read : read_value r key value ≡ some (r', rest) = ground (arith, e, e') in
        read_value-unseen r r' key value rest read
  ]
]

read_fields_same :
    (late late' : Option (Reading × Text)) (fuel fuel' : ℕ) (r : Reading) (s : Text)
    → unseen r < fuel
    → unseen r < fuel'
    → read_fields late fuel r s ≡ read_fields late' fuel' r s
unfolding read_fields
read_fields_same late late' zero fuel' r s enough enough' = ground arith
read_fields_same late late' (suc fuel) zero r s enough enough' = ground arith
read_fields_same late late' (suc fuel) (suc fuel') r s enough enough' =
    elim (Option-cases (read_field r s)) [
      | inl e ↦ ground (arith, e)
      | inr ((r', rest), e) ↦ elim (Option-cases (token b',' rest)) [
        | inl e' ↦ ground (arith, e, e')
        | inr (next, e') ↦
            let fewer = read_field-unseen r r' s rest e in
            let tail =
              read_fields_same late late' fuel fuel' r' next (omega (arith, fewer, enough))
                (omega (arith, fewer, enough')) in
            ground (arith, e, e', tail)
      ]
    ]

abbrev Parts : Type 0
Parts = Bool × Option (List ContactDraft)

-- The fields of the whole text that have not been seen.
unfoldable unseen_parts : Parts → ℕ
unseen_parts (version, none) = (if version then 0 else 1) + 1
unseen_parts (version, some ds) = if version then 0 else 1

read_part-unseen :
    (w : WideClasses) (r r' : Parts) (key s rest : Text)
    → read_part w r key s ≡ some (r', rest)
    → unseen_parts r' < unseen_parts r
unfolding read_part unseen_parts
read_part-unseen w (version, none) r' key s rest h = elim (Option-cases (literal (codes "1") s)) [
  | inl e ↦ elim (Option-cases (contacts w s)) [
    | inl e' ↦ ground (arith, h, e, e')
    | inr ((ds, after), e') ↦ ground (arith, h, e, e')
  ]
  | inr (after', e) ↦ elim (Option-cases (contacts w s)) [
    | inl e' ↦ ground (arith, h, e, e')
    | inr ((ds, after), e') ↦ ground (arith, h, e, e')
  ]
]
read_part-unseen w (version, some seen) r' key s rest h =
    elim (Option-cases (literal (codes "1") s)) [
      | inl e ↦ ground (arith, h, e)
      | inr (after, e) ↦ ground (arith, h, e)
    ]

read_parts_same :
    (w : WideClasses) (late late' : Option (Parts × Text)) (fuel fuel' : ℕ) (r : Parts) (s : Text)
    → unseen_parts r < fuel
    → unseen_parts r < fuel'
    → read_parts w late fuel r s ≡ read_parts w late' fuel' r s
unfolding read_parts
read_parts_same w late late' zero fuel' r s enough enough' = ground arith
read_parts_same w late late' (suc fuel) zero r s enough enough' = ground arith
read_parts_same w late late' (suc fuel) (suc fuel') r s enough enough' =
    elim (Option-cases (string 8 true s)) [
      | inl e ↦ ground (arith, e)
      | inr ((key, s'), e) ↦ elim (Option-cases (token b':' s')) [
        | inl e' ↦ ground (arith, e, e')
        | inr (s'', e') ↦ elim (Option-cases (read_part w r key s'')) [
          | inl e'' ↦ ground (arith, e, e', e'')
          | inr ((r', rest), e'') ↦ elim (Option-cases (token b',' rest)) [
            | inl f ↦ ground (arith, e, e', e'', f)
            | inr (next, f) ↦
                let fewer = read_part-unseen w r r' key s'' rest e'' in
                let tail =
                  read_parts_same w late late' fuel fuel' r' next (omega (arith, fewer, enough))
                    (omega (arith, fewer, enough')) in
                ground (arith, e, e', e'', f, tail)
          ]
        ]
      ]
    ]

two_parts : unseen_parts (false, none) ≡ 2
unfolding unseen_parts
two_parts = refl

-- The loops of the parser, given `more` rounds more and anything to be if their rounds run out, read what
-- they read with the rounds that the parser gives them.
pub record Suffices (w : WideClasses) (more : ℕ) (s : Text) : Type 0 where
  string :
      (late : Option (Text × Text)) (limit : ℕ) (ascii : Bool)
      → string_from late (limit + 1 + more) limit ascii 0 s
        ≡ string_from none (limit + 1) limit ascii 0 s
  fields :
      (late : Option (Reading × Text))
      → read_fields late (4 + more) nothing_read s ≡ read_fields none 4 nothing_read s
  contacts :
      (late : Option (List ContactDraft × Text))
      → contacts_from w late (Book.capacity + 1 + more) [] s
        ≡ contacts_from w none (Book.capacity + 1) [] s
  parts :
      (late : Option (Parts × Text))
      → read_parts w late (3 + more) (false, none) s ≡ read_parts w none 3 (false, none) s

-- Every loop of the parser ends by itself within the rounds that it is given: the characters of a string
-- within one more than its limit, the fields of a contact within 4, the contacts within 501, the
-- fields of the whole text within 3. Its result is the same whatever stands for having run out of
-- rounds, and whatever number of rounds is added.
pub loops_end : (w : WideClasses) (more : ℕ) (s : Text) → Suffices w more s
loops_end w more s = record {
  string = λ late limit ascii.
      string_from_same late none (limit + 1 + more) (limit + 1) limit 0 ascii s (omega arith)
        (omega arith) (omega arith);
  fields =
      λ late. read_fields_same late none (4 + more) 4 nothing_read s (omega arith) (omega arith);
  contacts = λ late.
      contacts_from_same w late none (Book.capacity + 1 + more) (Book.capacity + 1) [] s
        (omega arith) (omega arith) (omega arith);
  parts = λ late.
      read_parts_same w late none (3 + more) 3 (false, none) s (omega (arith, two_parts))
        (omega (arith, two_parts));
}
