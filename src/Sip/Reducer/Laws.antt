-- ===== src/Sip/Reducer/Laws.antt =====
-- What one native event may change in the observed state.
use axe_voice_desktop.Prelude.{
  ℕ, ◌≤◌, ◌<◌, ◌≡◌, ◌≢◌, ◌⊎◌, Bool, true, false, List, [], ◌∷◌, arith, ◌&&◌, if◌then◌else◌,
}
use axe_voice_desktop.Sip.Status.{SipStatus}
use axe_voice_desktop.Sip.Observation.{SipRuntimeObservation, sip_proof_is_current}
use axe_voice_desktop.Sip.Reducer.{
  reduce, BaresipEventKind, BaresipNativeEvent, EventTransition, apply_baresip_event,
}

-- The statuses in which a call is under way.
abbrev pub has_call : SipStatus → Bool
has_call SipStatus.calling = true
has_call SipStatus.ringing = true
has_call SipStatus.in_call = true
has_call _ = false

-- A call token is held exactly in the statuses of a call, and it is the newest one issued.
pub record IsConsistent (s : SipRuntimeObservation) : Type 0 where
  pub held : has_call s.sip ≡ true → s.call_id ≢ 0
  pub free : has_call s.sip ≡ false → s.call_id ≡ 0
  pub newest : s.call_id ≢ 0 → s.call_id ≡ s.last_call_id

abbrev pub is_opening : BaresipEventKind → Bool
is_opening BaresipEventKind.call_incoming = true
is_opening BaresipEventKind.call_outgoing = true
is_opening _ = false

abbrev pub is_applied : EventTransition → Bool
is_applied EventTransition.applied = true
is_applied _ = false

abbrev pub is_ending : BaresipEventKind → Bool
is_ending BaresipEventKind.call_closed = true
is_ending BaresipEventKind.transport_lost = true
is_ending _ = false

-- The `switch` keeps the observation consistent.
reduce-IsConsistent :
    (k : BaresipEventKind) (s : SipRuntimeObservation) (call : ℕ)
    → IsConsistent s
    → IsConsistent (reduce k s call).0
unfolding reduce
reduce-IsConsistent BaresipEventKind.registering s call v = ground arith
reduce-IsConsistent _ s call v = ground arith

-- The two call tokens after the `switch`.
reduce_tokens :
    (k : BaresipEventKind) (s : SipRuntimeObservation) (call : ℕ)
    → let (s', r) = reduce k s call in
      (s'.call_id ≡ (
        if is_applied r
        then if is_opening k then call else if is_ending k then 0 else s.call_id
        else s.call_id))
      × (s'.last_call_id ≡ (if is_applied r && is_opening k then call else s.last_call_id))
unfolding reduce
reduce_tokens BaresipEventKind.registering s call = ground arith
reduce_tokens _ s call = ground arith

-- The `switch` leaves the process, the evidence and the session alone, and all where it refuses.
reduce_frame :
    (k : BaresipEventKind) (s : SipRuntimeObservation) (call : ℕ)
    → let (s', r) = reduce k s call in
      (s'.process ≡ s.process)
      × (s'.evidence ≡ s.evidence)
      × (s'.session ≡ s.session)
      × (is_applied r ≡ false → s' ≡ s)
unfolding reduce
reduce_frame BaresipEventKind.registering s call = ground arith
reduce_frame _ s call = ground arith

-- A call is opened under a token that is newer than the last one.
reduce_opens :
    (k : BaresipEventKind) (s : SipRuntimeObservation) (call : ℕ)
    → is_opening k && is_applied (reduce k s call).1 ≡ true
    → s.last_call_id < call
unfolding reduce
reduce_opens BaresipEventKind.registering s call h = ground arith
reduce_opens _ s call h = ground arith

-- Every event, accepted or not, keeps the observation consistent: a call token is held exactly while
-- a call is dialled, rings or is connected, and it is then the newest token.
pub apply_baresip_event-IsConsistent :
    (s : SipRuntimeObservation) (active : ℕ) (e : BaresipNativeEvent)
    → IsConsistent s
    → IsConsistent (apply_baresip_event s active e).0
unfolding apply_baresip_event
apply_baresip_event-IsConsistent s active e v =
    ground (arith, reduce-IsConsistent e.kind s e.call_id v)

-- The two call tokens after an event.
pub tokens_after :
    (s : SipRuntimeObservation) (active : ℕ) (e : BaresipNativeEvent)
    → let (s', r) = apply_baresip_event s active e in
      (s'.call_id ≡ (
        if is_applied r
        then if is_opening e.kind then e.call_id else if is_ending e.kind then 0 else s.call_id
        else s.call_id))
      × (s'.last_call_id
          ≡ (if is_applied r && is_opening e.kind then e.call_id else s.last_call_id))
unfolding apply_baresip_event
tokens_after s active e = ground (arith, reduce_tokens e.kind s e.call_id)

-- An event leaves the process, the evidence and the session alone.
pub apply_baresip_event_frame :
    (s : SipRuntimeObservation) (active : ℕ) (e : BaresipNativeEvent)
    → let s' = (apply_baresip_event s active e).0 in
      (s'.process ≡ s.process) × (s'.evidence ≡ s.evidence) × (s'.session ≡ s.session)
unfolding apply_baresip_event
apply_baresip_event_frame s active e = ground (arith, reduce_frame e.kind s e.call_id)

opens_newer :
    (s : SipRuntimeObservation) (active : ℕ) (e : BaresipNativeEvent)
    → is_opening e.kind && is_applied (apply_baresip_event s active e).1 ≡ true
    → s.last_call_id < e.call_id
unfolding apply_baresip_event
opens_newer s active e h = ground (arith, reduce_opens e.kind s e.call_id)

last_call_id_grows :
    (s : SipRuntimeObservation) (active : ℕ) (e : BaresipNativeEvent)
    → s.last_call_id ≤ (apply_baresip_event s active e).0.last_call_id
last_call_id_grows s active e = ground (arith, tokens_after s active e, opens_newer s active e)

-- The proof depends on the process, the evidence and the session only.
proof_kept :
    (s s' : SipRuntimeObservation) (active : ℕ)
    → s'.process ≡ s.process
    → s'.evidence ≡ s.evidence
    → s'.session ≡ s.session
    → sip_proof_is_current s' active ≡ sip_proof_is_current s active
unfolding sip_proof_is_current
proof_kept s s' active p e n = rw (p, e, n)

-- An event that is applied was let through by the checks before the `switch`.
applied_gate :
    (s : SipRuntimeObservation) (active : ℕ) (e : BaresipNativeEvent)
    → let (s', r) = apply_baresip_event s active e in
      ((is_applied r ≡ true) × (sip_proof_is_current s active ≡ true) × (e.session ≡ active))
      ⊎ ((is_applied r ≡ false) × (s' ≡ s))
unfolding apply_baresip_event
applied_gate s active e = ground (arith, reduce_frame e.kind s e.call_id)

-- An event is applied only to a running process with native evidence for the active session, which
-- is the event's own, and this proof stays current; the last token issued never falls. What is not
-- applied changes nothing.
pub apply_baresip_event_gate :
    (s : SipRuntimeObservation) (active : ℕ) (e : BaresipNativeEvent)
    → let (s', r) = apply_baresip_event s active e in
      ((r ≡ EventTransition.applied)
        × (sip_proof_is_current s active ≡ true)
        × (e.session ≡ active)
        × (sip_proof_is_current s' active ≡ true)
        × (s.last_call_id ≤ s'.last_call_id))
      ⊎ ((r ≢ EventTransition.applied) × (s' ≡ s))
apply_baresip_event_gate s active e =
    let s' = (apply_baresip_event s active e).0 in
    ground (
      arith,
      applied_gate s active e,
      last_call_id_grows s active e,
      apply_baresip_event_frame s active e,
      proof_kept s s' active,
    )

-- The tokens of the calls that a history of events opens, in order.
unfoldable pub opened : SipRuntimeObservation → ℕ → List BaresipNativeEvent → List ℕ
opened s active [] = []
opened s active (e ∷ es) =
    let (s', r) = apply_baresip_event s active e in
    let rest = opened s' active es in
    if is_opening e.kind && is_applied r then e.call_id ∷ rest else rest

-- The numbers grow strictly, from above the first one on.
abbrev pub IncreasingFrom : ℕ → List ℕ → Type 0
IncreasingFrom n [] = Unit {0}
IncreasingFrom n (x ∷ xs) = (n < x) × IncreasingFrom x xs

IncreasingFrom-mono : (m n : ℕ) (xs : List ℕ) → m ≤ n → IncreasingFrom n xs → IncreasingFrom m xs
IncreasingFrom-mono m n [] h v = tt
IncreasingFrom-mono m n (x ∷ xs) h v = (omega arith, v.1)

-- Whatever the events, no two calls of a history share a token, and none reuses one from before:
-- the tokens of the calls that are opened grow strictly, from above the last token issued.
pub opened-IncreasingFrom :
    (s : SipRuntimeObservation) (active : ℕ) (es : List BaresipNativeEvent)
    → IncreasingFrom s.last_call_id (opened s active es)
unfolding opened
opened-IncreasingFrom s active [] = tt
opened-IncreasingFrom s active (e ∷ es) =
    let s' = (apply_baresip_event s active e).0 in
    let rest = opened s' active es in
    let ih = opened-IncreasingFrom s' active es in
    ground (
      arith,
      opens_newer s active e,
      tokens_after s active e,
      last_call_id_grows s active e,
      ih,
      IncreasingFrom-mono s.last_call_id s'.last_call_id rest,
    )

-- What the reducer may answer to an event of the current session that names the right call.
abbrev pub IsOrderly : EventTransition → Type 0
IsOrderly r = (r ≡ EventTransition.applied) ⊎ (r ≡ EventTransition.invalid_order)

-- The events of a call that goes on.
abbrev pub is_changing : BaresipEventKind → Bool
is_changing BaresipEventKind.call_established = true
is_changing BaresipEventKind.call_closed = true
is_changing _ = false

-- The token of an event fits the observation: a new call has a newer one, a call that goes on has the
-- one that is held.
pub record Fits (k : BaresipEventKind) (s : SipRuntimeObservation) (call : ℕ) : Type 0 where
  pub opens : is_opening k ≡ true → (s.call_id ≡ 0) × (s.last_call_id < call)
  pub goes_on : is_changing k ≡ true → (call ≢ 0) × (call ≡ s.call_id)

reduce-IsOrderly :
    (k : BaresipEventKind) (s : SipRuntimeObservation) (call : ℕ)
    → Fits k s call
    → IsOrderly (reduce k s call).1
unfolding reduce
reduce-IsOrderly BaresipEventKind.registering s call f = ground arith
reduce-IsOrderly _ s call f = ground arith

-- An event of the current session whose token fits is applied, or refused for its order only.
pub apply_baresip_event-IsOrderly :
    (s : SipRuntimeObservation) (active : ℕ) (e : BaresipNativeEvent)
    → e.session ≡ active
    → sip_proof_is_current s active ≡ true
    → Fits e.kind s e.call_id
    → IsOrderly (apply_baresip_event s active e).1
unfolding apply_baresip_event sip_proof_is_current
apply_baresip_event-IsOrderly s active e n p f =
    ground (arith, reduce-IsOrderly e.kind s e.call_id f)
