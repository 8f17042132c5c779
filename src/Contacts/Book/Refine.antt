-- ===== src/Contacts/Book/Refine.antt =====
-- The book of contacts as a map from identifiers.
use axe_voice_desktop.Prelude.{
  Bool, true, false, ℕ, ◌≡◌, ◌≢◌, ◌⊎◌, ◌==◌, not, if◌then◌else◌, List, [], ◌∷◌, ◌++◌, Option, none,
  some, inl, refl, arith, All,
}
use axe_voice_desktop.Call.Address.{WideClasses}
use axe_voice_desktop.Contacts.Draft.{ContactDraft}
use axe_voice_desktop.Contacts.Book.{
  Contact, ContactBook, ContactResult, Change, contact_of, find_item, change_item, erase_item, add,
  update, remove, set_favorite, toggle_contact_favorite, step, find,
}
use axe_voice_desktop.Contacts.Book.Items.{Apart, Precedes}
use axe_voice_desktop.Contacts.Book.Inv.{IsValid, IsKept}

-- A contact of the map with its mark changed.
abbrev pub marked : (Bool → Bool) → Option Contact → Option Contact
marked f none = none
marked f (some c) = some (record c { favorite = f c.favorite })

-- What a call that succeeds does to the map.
abbrev pub specified : ℕ → Change → (ℕ → Option Contact) → ℕ → Option Contact
specified next (Change.adds draft) m k = if next == k then some (contact_of next draft) else m k
specified next (Change.updates id draft) m k = if id == k then some (contact_of id draft) else m k
specified next (Change.removes id) m k = if id == k then none else m k
specified next (Change.toggles id) m k = if id == k then marked not (m k) else m k
specified next (Change.sets_favorite id favorite) m k =
    if id == k then marked (λ b. favorite) (m k) else m k

find-append :
    (xs : List Contact) (c : Contact) (k : ℕ)
    → find_item (xs ++ (c ∷ [])) k
      ≡ elim (find_item xs k) [ some x ↦ some x | none ↦ if c.id == k then some c else none ]
unfolding find_item
find-append [] c k = refl
find-append (x ∷ xs) c k = ground (arith, find-append xs c k)

find-change :
    (f : Contact → Contact) (id : ℕ) (xs : List Contact) (k : ℕ)
    → ((c : Contact) → (f c).id ≡ c.id)
    → find_item (change_item f id xs) k ≡ (
        if id == k
        then elim (find_item xs k) [ none ↦ none | some x ↦ some (f x) ]
        else find_item xs k)
unfolding find_item change_item
find-change f id [] k same = ground arith
find-change f id (x ∷ xs) k same = ground (arith, find-change f id xs k same, same x)

-- No contact behind an identifier that is smaller than all has it.
find_none : (x : Contact) (xs : List Contact) → All (Precedes x) xs → find_item xs x.id ≡ none
unfolding find_item
find_none x [] h = refl
find_none x (y ∷ ys) h = ground (arith, find_none x ys h.1, h.0.0)

find-erase :
    (id : ℕ) (xs : List Contact) (k : ℕ)
    → Apart xs
    → find_item (erase_item id xs) k ≡ (if id == k then none else find_item xs k)
unfolding find_item erase_item
find-erase id [] k a = ground arith
find-erase id (x ∷ xs) k a = ground (arith, find-erase id xs k a.1, find_none x xs a.0)

found_has_id :
    (id : ℕ) (xs : List Contact)
    → (find_item xs id ≡ none) ⊎ ((c : Contact) × (find_item xs id ≡ some c) × (c.id ≡ id))
unfolding find_item
found_has_id id [] = inl refl
found_has_id id (x ∷ xs) = ground (arith, found_has_id id xs)

-- The next identifier is not in use.
find_fresh :
    (w : WideClasses) (next : ℕ) (xs : List Contact)
    → next ≢ 0
    → All (IsKept w next) xs
    → find_item xs next ≡ none
unfolding find_item IsKept
find_fresh w next [] some' h = refl
find_fresh w next (x ∷ xs) some' h = ground (arith, find_fresh w next xs some' h.1, h.0.1)

-- A call that fails changes nothing; one that succeeds changes the map as it says.
abbrev pub Outcome : Change → ContactBook → ContactBook × ContactResult → ℕ → Type 0
Outcome change b (b', r) k =
    ((r ≢ ContactResult.ok) × (b' ≡ b))
    ⊎ ((r ≡ ContactResult.ok) × (find b' k ≡ specified b.next_id change (find b) k))

add-Outcome :
    (w : WideClasses) (b : ContactBook) (d : ContactDraft) (k : ℕ)
    → IsValid w b
    → Outcome (Change.adds d) b (add w b d) k
unfolding add find
add-Outcome w b d k v =
    let fresh : b.next_id ≢ 0 → find_item b.items b.next_id ≡ none =
      λ h. find_fresh w b.next_id b.items h v.kept in
    ground (arith, find-append b.items (contact_of b.next_id d) k, fresh)

update-Outcome :
    (w : WideClasses) (b : ContactBook) (id : ℕ) (d : ContactDraft) (k : ℕ)
    → Outcome (Change.updates id d) b (update w b id d) k
unfolding update find
update-Outcome w b id d k =
    let f = λ (c : Contact). record c {
      name = d.name;
      destination = d.destination;
      favorite = d.favorite;
    } in
    ground (
      arith,
      find-change f id b.items k (λ c. refl),
      found_has_id id b.items,
      found_has_id k b.items,
    )

remove-Outcome :
    (w : WideClasses) (b : ContactBook) (id k : ℕ)
    → IsValid w b
    → Outcome (Change.removes id) b (remove b id) k
unfolding remove find
remove-Outcome w b id k v = ground (arith, find-erase id b.items k v.apart)

set_favorite-Outcome :
    (b : ContactBook) (id : ℕ) (favorite : Bool) (k : ℕ)
    → Outcome (Change.sets_favorite id favorite) b (set_favorite b id favorite) k
unfolding set_favorite find
set_favorite-Outcome b id favorite k =
    let f = λ (c : Contact). record c { favorite = favorite } in
    ground (arith, find-change f id b.items k (λ c. refl))

toggle-Outcome :
    (b : ContactBook) (id k : ℕ) → Outcome (Change.toggles id) b (toggle_contact_favorite b id) k
unfolding toggle_contact_favorite
toggle-Outcome b id k =
    ground (arith, set_favorite-Outcome b id true k, set_favorite-Outcome b id false k)

-- A valid book is a map from identifiers to contacts: a call that does not succeed changes nothing, and
-- one that succeeds changes the contact that it names, or the one with the next identifier, as it
-- says, and no other.
pub step_refines :
    (w : WideClasses) (b : ContactBook) (change : Change) (k : ℕ)
    → IsValid w b
    → Outcome change b (step w b change) k
step_refines w b (Change.adds draft) k v = add-Outcome w b draft k v
step_refines w b (Change.updates id draft) k v = update-Outcome w b id draft k
step_refines w b (Change.removes id) k v = remove-Outcome w b id k v
step_refines w b (Change.toggles id) k v = toggle-Outcome b id k
step_refines w b (Change.sets_favorite id favorite) k v = set_favorite-Outcome b id favorite k
