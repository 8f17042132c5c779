-- ===== src/Contacts/Recent/Mru.antt =====
-- The destinations are those dialled last, without repetition.
use axe_voice_desktop.Prelude.{
  Bool, true, false, ℕ, zero, suc, ◌-◌, ◌≤◌, ◌<◌, ◌≡◌, ◌∙◌, if◌then◌else◌, List, [], ◌∷◌, none,
  some, inl, inr, refl, sym, ap, arith, Bool-cases, Option-cases, length, take, All, All-mono,
  u64_mod, Text, text_eq, text_eq→≡,
}
use axe_voice_desktop.Sip.Observation.{SipRuntimeObservation}
use axe_voice_desktop.Call.Address.{WideClasses}
use axe_voice_desktop.Contacts.Recent.{
  RecentDestination, RecentDestinations, capacity, synchronize, taken_out, to_front, remember,
}

-- All entries of another destination.
unfoldable pub others : Text → List RecentDestination → List RecentDestination
others destination [] = []
others destination (e ∷ es) =
    let rest = others destination es in if text_eq e.destination destination then rest else e ∷ rest

-- The list that is kept: the new entry, and the latest others.
abbrev pub mru : RecentDestination → List RecentDestination → List RecentDestination
mru next entries = next ∷ take (capacity - 1) (others next.destination entries)

-- No two entries have the same destination, and the later ones have the higher tokens.
abbrev pub Follows : RecentDestination → RecentDestination → Type 0
Follows x y = (y.token < x.token) × (text_eq y.destination x.destination ≡ false)

abbrev pub Apart : List RecentDestination → Type 0
Apart [] = Unit {0}
Apart (e ∷ es) = All (Follows e) es × Apart es

abbrev pub IsIssued : ℕ → RecentDestination → Type 0
IsIssued next e = (0 < e.token) × (e.token < next)

-- At most ten entries, with different destinations and falling tokens that were issued; the next token
-- can be counted.
pub record IsValid (r : RecentDestinations) : Type 0 where
  pub small : length r.entries ≤ capacity
  pub apart : Apart r.entries
  pub issued : All (IsIssued r.next_token) r.entries
  pub word : (0 < r.next_token) × (r.next_token < u64_mod)

pub others_same :
    (d : Text) (xs : List RecentDestination)
    → All (λ y. text_eq y.destination d ≡ false) xs
    → others d xs ≡ xs
unfolding others
others_same d [] h = refl
others_same d (x ∷ xs) h = ground (arith, others_same d xs h.1, h.0)

taken_none : (d : Text) (xs : List RecentDestination) → taken_out d xs ≡ none → others d xs ≡ xs
unfolding taken_out others
taken_none d [] h = refl
taken_none d (x ∷ xs) h = ground (arith, taken_none d xs)

same_as_head :
    (d : Text) (x : RecentDestination) (xs : List RecentDestination)
    → text_eq x.destination d ≡ true
    → All (Follows x) xs
    → All (λ y. text_eq y.destination d ≡ false) xs
same_as_head d x xs e h =
    All-mono (Follows x) (λ y. text_eq y.destination d ≡ false)
      (λ y f. ap (text_eq y.destination) (sym (text_eq→≡ x.destination d e)) ∙ f.1) xs h

taken_some :
    (d : Text) (xs ys : List RecentDestination)
    → Apart xs
    → taken_out d xs ≡ some ys
    → (others d xs ≡ ys) × (length xs ≡ suc (length ys))
unfolding taken_out others
taken_some d [] ys a h = ground arith
taken_some d (x ∷ xs) ys a h = elim (Bool-cases (text_eq x.destination d)) [
  | inl e ↦ ground (arith, others_same d xs (same_as_head d x xs e a.0))
  | inr e ↦ elim (Option-cases (taken_out d xs)) [
    | inl none' ↦ ground arith
    | inr (zs, some') ↦ ground (arith, taken_some d xs zs a.1 some')
  ]
]

take_all : (n : ℕ) (xs : List RecentDestination) → length xs ≤ n → take n xs ≡ xs
take_all zero [] h = refl
take_all (suc n) [] h = refl
take_all (suc n) (x ∷ xs) h = ap (λ ys. x ∷ ys) (take_all n xs (omega arith))
take_all zero (x ∷ xs) h = ground arith

pub to_front-mru :
    (e : RecentDestination) (xs : List RecentDestination)
    → Apart xs
    → length xs ≤ capacity
    → to_front e xs ≡ mru e xs
unfolding to_front
to_front-mru e xs a h = elim (Option-cases (taken_out e.destination xs)) [
  | inl none' ↦ ground (arith, taken_none e.destination xs none')
  | inr (ys, some') ↦
      let t = taken_some e.destination xs ys a some' in
      ground (arith, t, take_all (capacity - 1) ys (omega (arith, t.1, h)))
]

pub All-others :
    (P : RecentDestination → Type 0) (d : Text) (xs : List RecentDestination)
    → All P xs
    → All (λ y. P y × (text_eq y.destination d ≡ false)) (others d xs)
unfolding others
All-others P d [] h = tt
All-others P d (x ∷ xs) h = elim (Bool-cases (text_eq x.destination d)) [
  | inl e ↦ rw e (All-others P d xs h.1)
  | inr e ↦ rw e ((h.0, e), All-others P d xs h.1)
]

pub synchronize-IsValid :
    (r : RecentDestinations) (o : SipRuntimeObservation) → IsValid r → IsValid (synchronize r o)
unfolding synchronize
synchronize-IsValid r o v =
    let blank : (s : ℕ) → IsValid (record r { entries = []; session = s }) =
      λ s. record { small = omega arith; apart = tt; issued = tt; word = v.word } in
    ground (arith, blank 0, blank o.session)

pub synchronize_token :
    (r : RecentDestinations) (o : SipRuntimeObservation)
    → (synchronize r o).next_token ≡ r.next_token
unfolding synchronize
synchronize_token r o = ground arith

-- A destination that is remembered becomes the first one; behind it are the latest nine others of the
-- session, in their order.
pub remember_is_mru :
    (w : WideClasses) (r : RecentDestinations) (o : SipRuntimeObservation) (destination : Text)
    (accepted : Bool)
    → IsValid r
    → (remember w r o destination accepted).1 ≡ true
    → (remember w r o destination accepted).0.entries
      ≡ mru (record { token = r.next_token; destination = destination }) (synchronize r o).entries
unfolding remember
remember_is_mru w r o destination accepted v h =
    let s = synchronize r o in
    let v' = synchronize-IsValid r o v in
    let e : RecentDestination = record { token = s.next_token; destination = destination } in
    ground (arith, synchronize_token r o, to_front-mru e s.entries v'.apart v'.small)
