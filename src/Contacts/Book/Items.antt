-- ===== src/Contacts/Book/Items.antt =====
-- Lists of contacts with growing identifiers and different destinations.
use axe_voice_desktop.Prelude.{
  false, ℕ, ◌≤◌, ◌<◌, ◌≡◌, ◌≢◌, ◌==◌, List, [], ◌∷◌, ◌++◌, inl, inr, refl, ap, arith, Bool-cases,
  length, All, All-append, All-mono, Text, text_eq, text_eq_refl,
}
use axe_voice_desktop.Contacts.Book.{
  Contact, change_item, erase_item, has_destination, takes_destination,
}

-- The first contact is older than the second and calls another destination.
abbrev pub Precedes : Contact → Contact → Type 0
Precedes x y = (x.id < y.id) × (x.destination ≢ y.destination)

abbrev pub Apart : List Contact → Type 0
Apart [] = Unit {0}
Apart (c ∷ cs) = All (Precedes c) cs × Apart cs

pub Apart-append :
    (xs : List Contact) (c : Contact)
    → All (λ x. Precedes x c) xs
    → Apart xs
    → Apart (xs ++ (c ∷ []))
Apart-append [] c h a = (tt, tt)
Apart-append (x ∷ xs) c h a =
    (All-append (Precedes x) xs (c ∷ []) a.0 (h.0, tt), Apart-append xs c h.1 a.1)

pub length-change :
    (f : Contact → Contact) (id : ℕ) (xs : List Contact) → length (change_item f id xs) ≡ length xs
unfolding change_item
length-change f id [] = refl
length-change f id (x ∷ xs) = ground (arith, length-change f id xs)

pub length-erase : (id : ℕ) (xs : List Contact) → length (erase_item id xs) ≤ length xs
unfolding erase_item
length-erase id [] = omega arith
length-erase id (x ∷ xs) = ground (arith, length-erase id xs)

pub All-change :
    (P Q : Contact → Type 0) (f : Contact → Contact) (id : ℕ)
    → ((c : Contact) → P c → c.id ≡ id → Q (f c))
    → ((c : Contact) → P c → Q c)
    → (xs : List Contact) → All P xs
    → All Q (change_item f id xs)
unfolding change_item
All-change P Q f id changed kept [] h = tt
All-change P Q f id changed kept (x ∷ xs) h = elim (Bool-cases (x.id == id)) [
  | inl e ↦ rw e (changed x h.0 (ground arith), All-mono P Q kept xs h.1)
  | inr e ↦ rw e (kept x h.0, All-change P Q f id changed kept xs h.1)
]

pub All-erase :
    (P : Contact → Type 0) (id : ℕ) (xs : List Contact) → All P xs → All P (erase_item id xs)
unfolding erase_item
All-erase P id [] h = tt
All-erase P id (x ∷ xs) h = elim (Bool-cases (x.id == id)) [
  | inl e ↦ rw e h.1
  | inr e ↦ rw e (h.0, All-erase P id xs h.1)
]

pub Apart-erase : (id : ℕ) (xs : List Contact) → Apart xs → Apart (erase_item id xs)
unfolding erase_item
Apart-erase id [] a = tt
Apart-erase id (x ∷ xs) a = elim (Bool-cases (x.id == id)) [
  | inl e ↦ rw e a.1
  | inr e ↦ rw e (All-erase (Precedes x) id xs a.0, Apart-erase id xs a.1)
]

-- A contact that keeps its identifier may call any destination that no other contact calls.
pub Apart-change :
    (f : Contact → Contact) (id : ℕ) (P : Contact → Type 0)
    → ((x y : Contact) → P x → Precedes x y → y.id ≡ id → Precedes x (f y))
    → ((x y : Contact) → P y → Precedes x y → x.id ≡ id → Precedes (f x) y)
    → (xs : List Contact) → All P xs
    → Apart xs
    → Apart (change_item f id xs)
unfolding change_item
Apart-change f id P before after [] h a = tt
Apart-change f id P before after (x ∷ xs) h a = elim (Bool-cases (x.id == id)) [
  | inl e ↦ rw e (after_all f id P after x (ground arith) xs h.1 a.0, a.1)
  | inr e ↦ rw e (
    All-change (Precedes x) (Precedes x) f id (λ y p e'. before x y h.0 p e') (λ y p. p) xs a.0,
    Apart-change f id P before after xs h.1 a.1,
  )
]
  where
    after_all :
        (f : Contact → Contact) (id : ℕ) (P : Contact → Type 0)
        → ((x y : Contact) → P y → Precedes x y → x.id ≡ id → Precedes (f x) y)
        → (x : Contact) → x.id ≡ id
        → (ys : List Contact) → All P ys
        → All (Precedes x) ys
        → All (Precedes (f x)) ys
    after_all f id P after x e [] h a = tt
    after_all f id P after x e (y ∷ ys) h a =
        (after x y h.0 a.0 e, after_all f id P after x e ys h.1 a.1)

text_neq : (s t : Text) → text_eq s t ≡ false → s ≢ t
text_neq s t h e =
    let same : text_eq s s ≡ text_eq s t = ap (λ u. text_eq s u) e in
    ground (arith, same, text_eq_refl s)

pub takes_none :
    (d : Text) (xs : List Contact)
    → takes_destination d xs ≡ false
    → All (λ c. c.destination ≢ d) xs
unfolding takes_destination
takes_none d [] h = tt
takes_none d (x ∷ xs) h = (text_neq x.destination d (ground arith), takes_none d xs (ground arith))

pub has_none :
    (id : ℕ) (d : Text) (xs : List Contact)
    → has_destination id d xs ≡ false
    → All (λ c. (c.id ≢ id → c.destination ≢ d)) xs
unfolding has_destination
has_none id d [] h = tt
has_none id d (x ∷ xs) h =
    (λ e. text_neq x.destination d (ground arith), has_none id d xs (ground arith))
