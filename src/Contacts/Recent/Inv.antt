-- ===== src/Contacts/Recent/Inv.antt =====
-- The invariant of the recent destinations.
use axe_voice_desktop.Prelude.{
  All-take, Bool, true, false, ℕ, zero, suc, ◌+◌, ◌-◌, ◌≡◌, ◌≢◌, List, [], ◌∷◌, inl, inr, arith,
  Bool-cases, take, All, All-mono, length-take, u64_max, inc_u64, Text, text_eq,
}
use axe_voice_desktop.Sip.Observation.{SipRuntimeObservation}
use axe_voice_desktop.Call.Address.{WideClasses}
use axe_voice_desktop.Contacts.Recent.{
  RecentDestination, RecentDestinations, capacity, synchronize, to_front, remember, may_remember,
  Event, step,
}
use axe_voice_desktop.Contacts.Recent.Mru.{
  others, mru, Follows, Apart, IsIssued, IsValid, All-others, to_front-mru, synchronize-IsValid,
}

Apart-take : (n : ℕ) (xs : List RecentDestination) → Apart xs → Apart (take n xs)
Apart-take zero xs a = tt
Apart-take (suc n) [] a = tt
Apart-take (suc n) (x ∷ xs) a = (All-take (Follows x) n xs a.0, Apart-take n xs a.1)

Apart-others : (d : Text) (xs : List RecentDestination) → Apart xs → Apart (others d xs)
unfolding others
Apart-others d [] a = tt
Apart-others d (x ∷ xs) a = elim (Bool-cases (text_eq x.destination d)) [
  | inl e ↦ rw e (Apart-others d xs a.1)
  | inr e ↦ rw e (
    All-mono (λ y. Follows x y × (text_eq y.destination d ≡ false)) (Follows x) (λ y p. p.0)
        (others d xs) (All-others (Follows x) d xs a.0),
    Apart-others d xs a.1,
  )
]

mru-Apart :
    (e : RecentDestination) (xs : List RecentDestination)
    → All (IsIssued e.token) xs
    → Apart xs
    → Apart (mru e xs)
mru-Apart e xs h a =
    let kept = others e.destination xs in
    (
      All-mono (λ y. IsIssued e.token y × (text_eq y.destination e.destination ≡ false)) (Follows e)
          (λ y p. (p.0.1, p.1)) (take (capacity - 1) kept)
          (All-take (λ y. IsIssued e.token y × (text_eq y.destination e.destination ≡ false))
            (capacity - 1) kept (All-others (IsIssued e.token) e.destination xs h)),
      Apart-take (capacity - 1) kept (Apart-others e.destination xs a),
    )

mru-IsIssued :
    (e : RecentDestination) (xs : List RecentDestination) (next : ℕ)
    → IsIssued next e
    → All (IsIssued e.token) xs
    → All (IsIssued next) (mru e xs)
mru-IsIssued e xs next i h =
    let kept = others e.destination xs in
    (
      i,
      All-take (IsIssued next) (capacity - 1) kept (
          All-mono (λ y. IsIssued e.token y × (text_eq y.destination e.destination ≡ false))
            (IsIssued next) (λ y p. (p.0.0, omega (arith, p.0.1, i.1))) kept
            (All-others (IsIssued e.token) e.destination xs h)),
    )

pub token_counts :
    (w : WideClasses) (r : RecentDestinations) (o : SipRuntimeObservation) (destination : Text)
    (accepted : Bool)
    → may_remember w r o destination accepted ≡ true
    → r.next_token ≢ u64_max
unfolding may_remember
token_counts w r o destination accepted h = ground arith

-- A destination put to the front, with the next token.
front-IsValid :
    (r : RecentDestinations) (destination : Text)
    → r.next_token ≢ u64_max
    → IsValid r
    → IsValid (record r {
      entries = to_front (record { token = r.next_token; destination = destination }) r.entries;
      next_token = inc_u64 r.next_token;
    })
front-IsValid r destination room v =
    let e : RecentDestination = record { token = r.next_token; destination = destination } in
    let counted : inc_u64 r.next_token ≡ r.next_token + 1 = omega (arith, v.word) in
    rw (to_front-mru e r.entries v.apart v.small, counted)
      (record {
        small = omega (arith, length-take (capacity - 1) (others destination r.entries));
        apart = mru-Apart e r.entries v.issued v.apart;
        issued =
            mru-IsIssued e r.entries (r.next_token + 1) (omega (arith, v.word), omega arith)
              v.issued;
        word = omega (arith, v.word);
      })

remember-IsValid :
    (w : WideClasses) (r : RecentDestinations) (o : SipRuntimeObservation) (destination : Text)
    (accepted : Bool)
    → IsValid r
    → IsValid (remember w r o destination accepted).0
unfolding remember
remember-IsValid w r o destination accepted v =
    let s = synchronize r o in
    let v' = synchronize-IsValid r o v in
    let fronted = λ (e : may_remember w s o destination accepted ≡ true).
      front-IsValid s destination (token_counts w s o destination accepted e) v' in
    ground (arith, fronted, v')

-- Every call keeps the recent destinations valid: at most ten, none twice, the later ones with the higher
-- tokens.
pub step_recents-IsValid :
    (w : WideClasses) (r : RecentDestinations) (e : Event) → IsValid r → IsValid (step w r e)
step_recents-IsValid w r (Event.synchronizes o) v = synchronize-IsValid r o v
step_recents-IsValid w r (Event.remembers o destination accepted) v =
    remember-IsValid w r o destination accepted v
step_recents-IsValid w r Event.clears v = record {
  small = omega arith;
  apart = tt;
  issued = tt;
  word = v.word;
}
