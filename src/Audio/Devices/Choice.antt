-- ===== src/Audio/Devices/Choice.antt =====
-- The endpoint that is chosen is one of the inventory, and the one that was chosen before if that is
-- there.
use axe_voice_desktop.Prelude.{
  Bool, true, false, ℕ, ◌+◌, ◌-◌, ◌≤◌, ◌<◌, ◌≡◌, ◌≢◌, ◌||◌, List, [], ◌∷◌, Option, none, some, inl,
  inr, refl, ap, arith, Bool-cases, Option-cases, length, get_or, Text, text_eq, is_empty,
  text_eq→≡,
}
use axe_voice_desktop.Audio.Devices.{
  AudioEndpoint, AudioSelectionRefresh, first_from, is_communications, is_multimedia, is_named,
  or_else, first_endpoint, previous_endpoint, preferred_audio_endpoint_index, selected_of,
  refresh_audio_selection, refresh_ringtone_selection,
}

abbrev pub blank_endpoint : AudioEndpoint
blank_endpoint = record { id = []; default_communications = false; default_multimedia = false }

-- The endpoint at a place of the list.
abbrev pub Stands : List AudioEndpoint → ℕ × AudioEndpoint → Type 0
Stands devices (i, d) = (i < length devices) × (get_or devices i blank_endpoint ≡ d)

-- Some endpoint of the list passes the test.
unfoldable pub some_endpoint : (AudioEndpoint → Bool) → List AudioEndpoint → Bool
some_endpoint test [] = false
some_endpoint test (d ∷ ds) = let rest = some_endpoint test ds in test d || rest

-- The list holds an endpoint of that name.
abbrev pub holds : Text → List AudioEndpoint → Bool
holds id ds = some_endpoint (is_named id) ds

pub first_from_finds :
    (test : AudioEndpoint → Bool) (ds : List AudioEndpoint) (k i : ℕ) (d : AudioEndpoint)
    → first_from test k ds ≡ some (i, d)
    → (k ≤ i) × (test d ≡ true) × Stands ds (i - k, d)
unfolding first_from
first_from_finds test [] k i d h = ground arith
first_from_finds test (x ∷ ds) k i d h = elim (Bool-cases (test x)) [
  | inl e ↦ ground (arith, e, h)
  | inr e ↦ ground (arith, e, h, first_from_finds test ds (k + 1) i d)
]

first_from-some :
    (test : AudioEndpoint → Bool) (ds : List AudioEndpoint) (k : ℕ)
    → some_endpoint test ds ≡ true
    → first_from test k ds ≢ none
unfolding first_from some_endpoint
first_from-some test [] k h e = ground arith
first_from-some test (x ∷ ds) k h e = elim (Bool-cases (test x)) [
  | inl t ↦ ground (arith, t, e)
  | inr t ↦ ground (arith, t, e, h, first_from-some test ds (k + 1))
]

pub first_from-none :
    (test : AudioEndpoint → Bool) (ds : List AudioEndpoint) (k : ℕ)
    → some_endpoint test ds ≡ false
    → first_from test k ds ≡ none
unfolding first_from some_endpoint
first_from-none test [] k h = refl
first_from-none test (x ∷ ds) k h = ground (arith, h, first_from-none test ds (k + 1))

-- What was found stands at its index.
abbrev Placed : List AudioEndpoint → Option (ℕ × AudioEndpoint) → Type 0
Placed ds none = Unit {0}
Placed ds (some c) = Stands ds c

first_from-Placed :
    (test : AudioEndpoint → Bool) (ds : List AudioEndpoint) → Placed ds (first_from test 0 ds)
first_from-Placed test ds = elim (Option-cases (first_from test 0 ds)) [
  | inl e ↦ rw e tt
  | inr ((i, d), e) ↦ rw e (ground (arith, first_from_finds test ds 0 i d e))
]

or_else-Placed :
    (ds : List AudioEndpoint) (x y : Option (ℕ × AudioEndpoint))
    → Placed ds x
    → Placed ds y
    → Placed ds (or_else x y)
or_else-Placed ds none y v w = w
or_else-Placed ds (some c) y v w = v

first_endpoint-Placed : (ds : List AudioEndpoint) → Placed ds (first_endpoint ds)
first_endpoint-Placed [] = tt
first_endpoint-Placed (d ∷ ds) = (omega arith, refl)

previous_endpoint-Placed :
    (ds : List AudioEndpoint) (id : Text) → Placed ds (previous_endpoint ds id)
unfolding previous_endpoint
previous_endpoint-Placed ds [] = tt
previous_endpoint-Placed ds (c ∷ id) = first_from-Placed (is_named (c ∷ id)) ds

preferred-Placed :
    (ds : List AudioEndpoint) (id : Text) → Placed ds (preferred_audio_endpoint_index ds id)
unfolding preferred_audio_endpoint_index
preferred-Placed ds id =
    or_else-Placed ds (previous_endpoint ds id)
      (or_else (first_from is_communications 0 ds) (first_endpoint ds))
      (previous_endpoint-Placed ds id)
      (or_else-Placed ds (first_from is_communications 0 ds) (first_endpoint ds)
        (first_from-Placed is_communications ds) (first_endpoint-Placed ds))

or_else-none : (x y : Option (ℕ × AudioEndpoint)) → or_else x y ≡ none → y ≡ none
or_else-none none y h = h
or_else-none (some c) y h = ground (arith, h)

-- What a refreshed choice promises: an endpoint is chosen if there is one; it stands in the list at its
-- index; the one that was chosen before is kept if it is still there, and then the flag of a missing
-- device is not set.
pub record IsChosen (ds : List AudioEndpoint) (id : Text) (r : AudioSelectionRefresh) : Type 0 where
  pub chosen : r.index ≡ none → ds ≡ []
  pub stands :
      (i : ℕ)
      → r.index ≡ some i
      → (i < length ds) × ((get_or ds i blank_endpoint).id ≡ r.selected_id)
  pub kept :
      is_empty id ≡ false
      → holds id ds ≡ true
      → (r.selected_id ≡ id) × (r.replaced_missing_device ≡ false)

-- The choice that begins with the previous endpoint, and goes on with another one.
module _ (ds : List AudioEndpoint) (id : Text) (other : Option (ℕ × AudioEndpoint)) where
  previous_kept :
      is_empty id ≡ false
      → holds id ds ≡ true
      → let r = selected_of id (or_else (previous_endpoint ds id) other) in
        (r.selected_id ≡ id) × (r.replaced_missing_device ≡ false)
  unfolding previous_endpoint
  previous_kept nonempty h = elim (Option-cases (first_from (is_named id) 0 ds)) [
    | inl e ↦ absurd (first_from-some (is_named id) ds 0 h e)
    | inr ((i, d), e) ↦
        rw (nonempty, e)
          (let named : text_eq d.id id ≡ true = (first_from_finds (is_named id) ds 0 i d e).1 in
            (text_eq→≡ d.id id named, rw (nonempty, named) refl))
  ]

  selected-stands :
      (c : Option (ℕ × AudioEndpoint))
      → Placed ds c
      → (i : ℕ) → (selected_of id c).index ≡ some i
      → (i < length ds) × ((get_or ds i blank_endpoint).id ≡ (selected_of id c).selected_id)
  selected-stands none v i h = ground (arith, h)
  selected-stands (some (j, d)) v i h =
      let e : i ≡ j = ground (arith, h) in rw e (v.0, ap (λ (x : AudioEndpoint). x.id) v.1)

  selected-none : (c : Option (ℕ × AudioEndpoint)) → (selected_of id c).index ≡ none → c ≡ none
  selected-none none h = refl
  selected-none (some (j, d)) h = ground (arith, h)

  choice-IsChosen :
      Placed ds other
      → (other ≡ none → ds ≡ [])
      → IsChosen ds id (selected_of id (or_else (previous_endpoint ds id) other))
  choice-IsChosen v none' =
      let c = or_else (previous_endpoint ds id) other in
      record {
        chosen = λ h. none' (or_else-none (previous_endpoint ds id) other (selected-none c h));
        stands =
            selected-stands c (
              or_else-Placed ds (previous_endpoint ds id) other (previous_endpoint-Placed ds id) v);
        kept = previous_kept;
      }

fallback-none :
    (ds : List AudioEndpoint) (x : Option (ℕ × AudioEndpoint))
    → or_else x (first_endpoint ds) ≡ none
    → ds ≡ []
fallback-none [] x h = refl
fallback-none (d ∷ ds) none h = ground (arith, h)
fallback-none (d ∷ ds) (some c) h = ground (arith, h)

refresh_audio-IsChosen :
    (ds : List AudioEndpoint) (id : Text) → IsChosen ds id (refresh_audio_selection ds id)
unfolding refresh_audio_selection preferred_audio_endpoint_index
refresh_audio-IsChosen ds id =
    let found = first_from is_communications 0 ds in
    choice-IsChosen ds id (or_else found (first_endpoint ds))
      (or_else-Placed ds found (first_endpoint ds) (first_from-Placed is_communications ds)
        (first_endpoint-Placed ds))
      (fallback-none ds found)

preferred-none :
    (ds : List AudioEndpoint) (id : Text) → preferred_audio_endpoint_index ds id ≡ none → ds ≡ []
unfolding preferred_audio_endpoint_index
preferred-none ds id h =
    let found = first_from is_communications 0 ds in
    fallback-none ds found
      (or_else-none (previous_endpoint ds id) (or_else found (first_endpoint ds)) h)

refresh_ringtone-IsChosen :
    (ds : List AudioEndpoint) (id : Text) → IsChosen ds id (refresh_ringtone_selection ds id)
unfolding refresh_ringtone_selection
refresh_ringtone-IsChosen ds id =
    let found = first_from is_multimedia 0 ds in
    let preferred = preferred_audio_endpoint_index ds [] in
    choice-IsChosen ds id (or_else found preferred)
      (or_else-Placed ds found preferred (first_from-Placed is_multimedia ds)
        (preferred-Placed ds []))
      (λ h. preferred-none ds [] (or_else-none found preferred h))

-- When a choice of endpoints is refreshed, for calls or for the ringtone, one is chosen if there is any,
-- and it stands in the list at its index; the one that was chosen before is kept if it is still there.
pub refresh-IsChosen :
    (ds : List AudioEndpoint) (id : Text)
    → IsChosen ds id (refresh_audio_selection ds id)
      × IsChosen ds id (refresh_ringtone_selection ds id)
refresh-IsChosen ds id = (refresh_audio-IsChosen ds id, refresh_ringtone-IsChosen ds id)
