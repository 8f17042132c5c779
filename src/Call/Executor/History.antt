-- ===== src/Call/Executor/History.antt =====
-- The commands that a history of requests makes.
use axe_voice_desktop.Prelude.{
  newer_session, newer_sequence, NewerFrom, NewerFrom-mono, Bool, ℕ, ◌<◌, ◌≡◌, ◌⊎◌, List, [], ◌∷◌,
  Option, none, some, inl, inr, arith,
}
use axe_voice_desktop.Sip.Observation.{SipRuntimeObservation}
use axe_voice_desktop.Call.Address.{WideClasses}
use axe_voice_desktop.Call.Authorization.{EngineSelection}
use axe_voice_desktop.Call.Executor.{
  SipCommandExecutor, SipCommandRequest, NativeCommand, Outcome, watchdog, dispatch,
}
use axe_voice_desktop.Call.Executor.Once.{Follows, Consumed, dispatch_once}

-- A request, with what the port answers during it, or a call of the watchdog.
pub data Event : Type 0 where
  dispatches :
      (NativeCommand → Bool)
      → SipCommandRequest
      → SipRuntimeObservation
      → ℕ
      → EngineSelection
      → ℕ
      → Event
  watches : SipRuntimeObservation → ℕ → ℕ → Event

-- The session and sequence of the request, if a command was made for it.
abbrev key_of : SipCommandRequest → Option NativeCommand → List (ℕ × ℕ) → List (ℕ × ℕ)
key_of r none rest = rest
key_of r (some c) rest = (r.session, r.sequence) ∷ rest

-- The sessions and sequences of the requests for which commands were made, in order.
unfoldable pub commanded : WideClasses → SipCommandExecutor → List Event → List (ℕ × ℕ)
commanded w e [] = []
commanded w e (Event.dispatches port r live active selected now ∷ evs) =
    let o = dispatch w port e r live active selected now in key_of r o.2 (commanded w o.0 evs)
commanded w e (Event.watches live active now ∷ evs) = commanded w (watchdog e live active now).0 evs

watchdog_frame :
    (e : SipCommandExecutor) (live : SipRuntimeObservation) (active now : ℕ)
    → let e' = (watchdog e live active now).0 in
      (e'.session ≡ e.session) × (e'.last_sequence ≡ e.last_sequence)
unfolding watchdog
watchdog_frame e live active now = ground arith

NewerFrom-key_of :
    (e : SipCommandExecutor) (r : SipCommandRequest) (o : Outcome) (rest : List (ℕ × ℕ))
    → Follows e o.0
    → (o.2 ≡ none) ⊎ Consumed e o.0 r
    → NewerFrom o.0.session o.0.last_sequence rest
    → NewerFrom e.session e.last_sequence (key_of r o.2 rest)
NewerFrom-key_of e r (e', result, none) rest f c v =
    NewerFrom-mono e.session e.last_sequence e'.session e'.last_sequence rest f.session f.sequence v
NewerFrom-key_of e r (e', result, some c) rest f (inl none') v = ground (arith, none')
NewerFrom-key_of e r (e', result, some c) rest f (inr made) v =
    let later : (e.session < r.session) ⊎ (e.session ≡ r.session) =
      ground (arith, f.session, made.session) in
    let tail =
      NewerFrom-mono r.session r.sequence e'.session e'.last_sequence rest
        (omega (arith, made.session)) (λ h. omega (arith, made.sequence)) v in
    elim later [
      | inl l ↦ (newer_session l, tail)
      | inr h ↦ (newer_sequence h (made.unknown h), tail)
    ]

-- Whatever is requested and observed, and whatever the native engine answers, no two native commands
-- are made for the same session and sequence: those of the commands grow strictly, from above what the
-- executor knows at the start.
pub commanded-NewerFrom :
    (w : WideClasses) (e : SipCommandExecutor) (evs : List Event)
    → NewerFrom e.session e.last_sequence (commanded w e evs)
unfolding commanded
commanded-NewerFrom w e [] = tt
commanded-NewerFrom w e (Event.dispatches port r live active selected now ∷ evs) =
    let o = dispatch w port e r live active selected now in
    let once = dispatch_once w port e r live active selected now in
    NewerFrom-key_of e r o (commanded w o.0 evs) once.0
      (elim once.1 [ inl none' ↦ inl none' | inr c ↦ inr c.0 ]) (commanded-NewerFrom w o.0 evs)
commanded-NewerFrom w e (Event.watches live active now ∷ evs) =
    let e' = (watchdog e live active now).0 in
    let (s, n) = watchdog_frame e live active now in
    NewerFrom-mono e.session e.last_sequence e'.session e'.last_sequence (commanded w e' evs)
      (omega (arith, s)) (λ h. omega (arith, n)) (commanded-NewerFrom w e' evs)
