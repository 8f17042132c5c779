-- ===== src/Contacts/Book/Inv.antt =====
-- The invariant of the book of contacts.
use axe_voice_desktop.Prelude.{
  Bool, true, false, ℕ, ◌+◌, ◌≤◌, ◌<◌, ◌≡◌, ◌≢◌, ◌∙◌, ◌==◌, if◌then◌else◌, List, [], ◌∷◌, ◌++◌,
  refl, sym, arith, length, All, All-append, All-mono, length-append, u64_mod, inc_u64,
}
use axe_voice_desktop.Call.Address.{WideClasses}
use axe_voice_desktop.Contacts.Draft.{ContactDraft, valid_draft}
use axe_voice_desktop.Contacts.Book.{
  Contact, ContactBook, Change, capacity, contact_of, change_item, erase_item, add, update, remove,
  set_favorite, toggle_contact_favorite, step, has_destination, takes_destination,
}
use axe_voice_desktop.Contacts.Book.Items.{
  Apart, Precedes, Apart-append, Apart-change, Apart-erase, All-change, All-erase, length-change,
  length-erase, takes_none, has_none,
}

-- The identifiers issued are below this bound.
abbrev pub issued_bound : ℕ → ℕ
issued_bound next = if next == 0 then u64_mod else next

abbrev pub draft_of : Contact → ContactDraft
draft_of c = record { name = c.name; destination = c.destination; favorite = c.favorite }

-- What holds of every contact.
unfoldable pub IsKept : WideClasses → ℕ → Contact → Type 0
IsKept w next c = (0 < c.id) × (c.id < issued_bound next) × (valid_draft w (draft_of c) ≡ true)

-- At most 500 valid contacts with growing identifiers that were issued, and different destinations.
pub record IsValid (w : WideClasses) (b : ContactBook) : Type 0 where
  pub small : length b.items ≤ capacity
  pub apart : Apart b.items
  pub kept : All (IsKept w b.next_id) b.items
  pub word : b.next_id < u64_mod

-- Validity does not depend on the mark of a favorite.
valid_favorite :
    (w : WideClasses) (d : ContactDraft) (favorite : Bool)
    → valid_draft w (record d { favorite = favorite }) ≡ valid_draft w d
unfolding valid_draft
valid_favorite w d favorite = refl

-- A change of a contact that keeps its identifier and leaves the contacts apart.
change-IsValid :
    (w : WideClasses) (b : ContactBook) (f : Contact → Contact) (id : ℕ) (P : Contact → Type 0)
    → ((c : Contact) → (f c).id ≡ c.id)
    → ((c : Contact) → IsKept w b.next_id c → c.id ≡ id → valid_draft w (draft_of (f c)) ≡ true)
    → ((x y : Contact) → P x → Precedes x y → y.id ≡ id → Precedes x (f y))
    → ((x y : Contact) → P y → Precedes x y → x.id ≡ id → Precedes (f x) y)
    → All P b.items
    → IsValid w b
    → IsValid w (record b { items = change_item f id b.items })
unfolding IsKept
change-IsValid w b f id P same drafts before after h v = record {
  small = omega (arith, length-change f id b.items, v.small);
  apart = Apart-change f id P before after b.items h v.apart;
  kept =
      All-change (IsKept w b.next_id) (IsKept w b.next_id) f id
        (λ c k e. (omega (arith, same c, k.0), omega (arith, same c, k.1), drafts c k e)) (λ c k. k)
        b.items v.kept;
  word = v.word;
}

bound_grows : (next : ℕ) → next ≢ 0 → next < u64_mod → issued_bound (inc_u64 next) ≡ next + 1
bound_grows next h k = ground arith

append-IsValid :
    (w : WideClasses) (b : ContactBook) (d : ContactDraft)
    → valid_draft w d ≡ true
    → takes_destination d.destination b.items ≡ false
    → length b.items < capacity
    → b.next_id ≢ 0
    → IsValid w b
    → IsValid w
        (record { items = b.items ++ (contact_of b.next_id d ∷ []); next_id = inc_u64 b.next_id })
unfolding IsKept
append-IsValid w b d ok new room some' v =
    let grows = bound_grows b.next_id some' v.word in
    let c = contact_of b.next_id d in
    record {
      small = omega (arith, length-append b.items (c ∷ []));
      apart =
          Apart-append b.items c (precede b.items (takes_none d.destination b.items new) v.kept)
            v.apart;
      kept =
          All-append (IsKept w (inc_u64 b.next_id)) b.items (c ∷ [])
            (All-mono (IsKept w b.next_id) (IsKept w (inc_u64 b.next_id))
              (λ x k. (k.0, ground (arith, k.1, grows), k.2)) b.items v.kept)
            ((omega arith, omega (arith, grows), ok), tt);
      word = omega arith;
    }
  where
    precede :
        (xs : List Contact)
        → All (λ x. x.destination ≢ d.destination) xs
        → All (IsKept w b.next_id) xs
        → All (λ x. Precedes x (contact_of b.next_id d)) xs
    precede [] h k = tt
    precede (x ∷ xs) h k = ((ground (arith, k.0.1), h.0), precede xs h.1 k.1)

add-IsValid :
    (w : WideClasses) (b : ContactBook) (d : ContactDraft) → IsValid w b → IsValid w (add w b d).0
unfolding add
add-IsValid w b d v = ground (arith, append-IsValid w b d)

update-IsValid :
    (w : WideClasses) (b : ContactBook) (id : ℕ) (d : ContactDraft)
    → IsValid w b
    → IsValid w (update w b id d).0
unfolding update
update-IsValid w b id d v = ground (arith, changed)
  where
    changed :
        valid_draft w d ≡ true
        → has_destination id d.destination b.items ≡ false
        → IsValid w (record b {
          items =
              change_item
                (λ c. record c {
                  name = d.name;
                  destination = d.destination;
                  favorite = d.favorite;
                })
                id
                b.items;
        })
    changed ok free =
        change-IsValid w b
          (λ c. record c { name = d.name; destination = d.destination; favorite = d.favorite }) id
          (λ c. (c.id ≢ id → c.destination ≢ d.destination)) (λ c. refl) (λ c k e. ok)
          (λ x y h p e. (p.0, h (ground (arith, p.0))))
          (λ x y h p e. (p.0, λ same. h (ground (arith, p.0)) (sym same)))
          (has_none id d.destination b.items free) v

remove-IsValid :
    (w : WideClasses) (b : ContactBook) (id : ℕ) → IsValid w b → IsValid w (remove b id).0
unfolding remove
remove-IsValid w b id v =
    let erased : IsValid w (record b { items = erase_item id b.items }) = record {
      small = omega (arith, length-erase id b.items, v.small);
      apart = Apart-erase id b.items v.apart;
      kept = All-erase (IsKept w b.next_id) id b.items v.kept;
      word = v.word;
    } in
    ground (arith, erased)

units : (xs : List Contact) → All (λ c. Unit {0}) xs
units [] = tt
units (x ∷ xs) = (tt, units xs)

set_favorite-IsValid :
    (w : WideClasses) (b : ContactBook) (id : ℕ) (favorite : Bool)
    → IsValid w b
    → IsValid w (set_favorite b id favorite).0
unfolding set_favorite IsKept
set_favorite-IsValid w b id favorite v =
    let changed =
      change-IsValid w b (λ c. record c { favorite = favorite }) id (λ c. Unit {0}) (λ c. refl)
        (λ c k e. valid_favorite w (draft_of c) favorite ∙ k.2) (λ x y h p e. p) (λ x y h p e. p)
        (units b.items) v in
    ground (arith, changed)

toggle-IsValid :
    (w : WideClasses) (b : ContactBook) (id : ℕ)
    → IsValid w b
    → IsValid w (toggle_contact_favorite b id).0
unfolding toggle_contact_favorite
toggle-IsValid w b id v =
    ground (arith, set_favorite-IsValid w b id true v, set_favorite-IsValid w b id false v)

-- Every call keeps the book of contacts valid: at most 500 contacts, each with an acceptable name and
-- destination, their identifiers growing and below the next one, no destination twice.
pub step_contacts-IsValid :
    (w : WideClasses) (b : ContactBook) (change : Change)
    → IsValid w b
    → IsValid w (step w b change).0
step_contacts-IsValid w b (Change.adds draft) v = add-IsValid w b draft v
step_contacts-IsValid w b (Change.updates id draft) v = update-IsValid w b id draft v
step_contacts-IsValid w b (Change.removes id) v = remove-IsValid w b id v
step_contacts-IsValid w b (Change.toggles id) v = toggle-IsValid w b id v
step_contacts-IsValid w b (Change.sets_favorite id favorite) v =
    set_favorite-IsValid w b id favorite v
