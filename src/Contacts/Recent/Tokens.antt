-- ===== src/Contacts/Recent/Tokens.antt =====
-- A token that is handed out finds nothing once the session has ended.
use axe_voice_desktop.Prelude.{
  All-take, Bool, true, ℕ, ◌-◌, ◌<◌, ◌≡◌, List, [], ◌∷◌, none, some, inl, inr, refl, arith,
  Option-cases, All, u64_mod, inc_u64, Text,
}
use axe_voice_desktop.Sip.Observation.{SipRuntimeObservation}
use axe_voice_desktop.Call.Address.{WideClasses}
use axe_voice_desktop.Contacts.Recent.{
  capacity, taken_out, RecentDestination, RecentDestinations, synchronize, remember, may_remember,
  Event, run, find, find_token, clear, to_front,
}
use axe_voice_desktop.Contacts.Recent.Mru.{IsValid, synchronize_token}
use axe_voice_desktop.Contacts.Recent.Inv.{step_recents-IsValid, token_counts}

-- All tokens are higher, and so is the next one.
abbrev Above : ℕ → RecentDestinations → Type 0
Above t r = All (λ e. t < e.token) r.entries × (t < r.next_token)

find_above :
    (t : ℕ) (xs : List RecentDestination) → All (λ e. t < e.token) xs → find_token xs t ≡ none
unfolding find_token
find_above t [] h = refl
find_above t (x ∷ xs) h = ground (arith, find_above t xs h.1, h.0)

All-taken :
    (P : RecentDestination → Type 0) (d : Text) (xs ys : List RecentDestination)
    → All P xs
    → taken_out d xs ≡ some ys
    → All P ys
unfolding taken_out
All-taken P d [] ys h e = ground arith
All-taken P d (x ∷ xs) ys h e = elim (Option-cases (taken_out d xs)) [
  | inl none' ↦ ground (arith, h.1)
  | inr (zs, some') ↦ ground (arith, h.0, h.1, All-taken P d xs zs h.1 some')
]

synchronize-Above :
    (t : ℕ) (r : RecentDestinations) (o : SipRuntimeObservation)
    → Above t r
    → Above t (synchronize r o)
unfolding synchronize
synchronize-Above t r o a = ground arith

All-to_front :
    (P : RecentDestination → Type 0) (e : RecentDestination) (xs : List RecentDestination)
    → P e
    → All P xs
    → All P (to_front e xs)
unfolding to_front
All-to_front P e xs p h = elim (Option-cases (taken_out e.destination xs)) [
  | inl none' ↦ ground (arith, p, h, All-take P (capacity - 1) xs h)
  | inr (ys, some') ↦ ground (arith, p, All-taken P e.destination xs ys h some')
]

remember-Above :
    (t : ℕ) (w : WideClasses) (r : RecentDestinations) (o : SipRuntimeObservation)
    (destination : Text) (accepted : Bool)
    → r.next_token < u64_mod
    → Above t r
    → Above t (remember w r o destination accepted).0
unfolding remember
remember-Above t w r o destination accepted k a =
    let s = synchronize r o in
    let e : RecentDestination = record { token = s.next_token; destination = destination } in
    let a' = synchronize-Above t r o a in
    let room = token_counts w s o destination accepted in
    let fronted = All-to_front (λ x. t < x.token) e s.entries a'.1 a'.0 in
    let counted : may_remember w s o destination accepted ≡ true → t < inc_u64 s.next_token =
      λ m. omega (arith, room m, a'.1, synchronize_token r o, k) in
    ground (arith, fronted, a', counted)

run-Above :
    (t : ℕ) (w : WideClasses) (es : List Event) (r : RecentDestinations)
    → IsValid r
    → Above t r
    → Above t (run w r es)
run-Above t w [] r v a = a
run-Above t w (Event.synchronizes o ∷ es) r v a =
    run-Above t w es (synchronize r o) (step_recents-IsValid w r (Event.synchronizes o) v)
      (synchronize-Above t r o a)
run-Above t w (Event.remembers o destination accepted ∷ es) r v a =
    run-Above t w es (remember w r o destination accepted).0
      (step_recents-IsValid w r (Event.remembers o destination accepted) v)
      (remember-Above t w r o destination accepted v.word.1 a)
run-Above t w (Event.clears ∷ es) r v a =
    run-Above t w es (clear r) (step_recents-IsValid w r Event.clears v) (tt, a.1)

-- Once the destinations have been cleared, a token that was handed out before finds nothing, whatever
-- calls follow and whatever is observed.
pub cleared_token_finds_none :
    (w : WideClasses) (r : RecentDestinations) (es : List Event) (token : ℕ)
    (o : SipRuntimeObservation)
    → IsValid r
    → token < r.next_token
    → find (run w (clear r) es) token o ≡ none
unfolding find
cleared_token_finds_none w r es token o v h =
    let a = run-Above token w es (clear r) (step_recents-IsValid w r Event.clears v) (tt, h) in
    ground (arith, find_above token (run w (clear r) es).entries a.0)
