-- ===== src/Cti/Requests/Inv.antt =====
-- The invariant of the queue of requests.
use axe_voice_desktop.Cti.Log.{push_bounded, IsLog, push_bounded-IsLog}
use axe_voice_desktop.Cti.Request.{
  CtiRequestState, CtiPendingRequest, CtiRequestResult, CtiRequestTransition,
}
use axe_voice_desktop.Prelude.{
  true, false, ℕ, ◌≤◌, ◌<◌, ◌≡◌, ◌≢◌, ◌∙◌, ◌==◌, if◌then◌else◌, [], Option, none, some, refl, arith,
  length, u64_mod, inc_u64, Text, is_empty,
}
use axe_voice_desktop.Cti.Requests.{
  CtiRequestQueue, sequence_of, capacity, event_capacity, has_value, append_event, create, move_to,
  set_state,
}
use axe_voice_desktop.Cti.Requests.Records.{
  IdsBelow, push_bounded-Pushed, IdsBelow-set_state, length-set_state, find-set_state, Held,
}

-- The identifiers that were issued are below it.
abbrev pub bound : CtiRequestQueue → ℕ
bound q = if q.next == 0 then u64_mod else q.next

-- Of the two bounded lists and the two counters.
pub record IsBounded (q : CtiRequestQueue) : Type 0 where
  pub word : q.next < u64_mod
  pub room : length q.records ≤ capacity
  pub below : IdsBelow (bound q) q.records
  pub log : IsLog sequence_of event_capacity q.event_sequence q.events
  pub word_events : q.event_sequence < u64_mod

-- Also, at most one request is under way, pending or active, and its record is held in that state.
pub record IsValid (q : CtiRequestQueue) : Type 0 where
  pub bounded : IsBounded q
  pub one : has_value q.pending ≡ true → has_value q.active ≡ false
  pub pending :
      (p : CtiPendingRequest) → q.pending ≡ some p → Held q.records p CtiRequestState.queued
  pub active :
      (p : CtiPendingRequest) → q.active ≡ some p → Held q.records p CtiRequestState.dispatching

-- What an event leaves alone.
pub append_event_frame :
    (q : CtiRequestQueue) (id : ℕ) (s : CtiRequestState)
    → let q' = append_event q id s in
      (q'.next ≡ q.next)
      × (q'.pending ≡ q.pending)
      × (q'.active ≡ q.active)
      × (q'.records ≡ q.records)
unfolding append_event
append_event_frame q id s = ground arith

append_event-IsBounded :
    {q : CtiRequestQueue} (id : ℕ) (s : CtiRequestState)
    → IsBounded q
    → IsBounded (append_event q id s)
unfolding append_event
append_event-IsBounded {q} id s v =
    let e : CtiRequestTransition = record {
      sequence = inc_u64 q.event_sequence;
      request_id = id;
      state = s;
    } in
    ground (
      arith,
      v,
      push_bounded-IsLog sequence_of event_capacity q.event_sequence q.events e (ground arith)
          v.log,
    )

pub append_event-IsValid :
    {q : CtiRequestQueue} (id : ℕ) (s : CtiRequestState) → IsValid q → IsValid (append_event q id s)
append_event-IsValid {q} id s v =
    ground (arith, v, append_event_frame q id s, append_event-IsBounded id s v.bounded)

pub create-IsValid :
    {q : CtiRequestQueue} (destination key : Text)
    → IsValid q
    → has_value q.pending ≡ false
    → has_value q.active ≡ false
    → q.next ≢ 0
    → IsValid (create q destination key).0
unfolding create
create-IsValid {q} destination key v np na nz =
    let r : CtiRequestResult = record {
      id = q.next;
      state = CtiRequestState.queued;
      idempotency_key = key;
      idempotency_destination = if is_empty key then [] else destination;
    } in
    let p : CtiPendingRequest = record { id = q.next; destination = destination } in
    let rs = push_bounded capacity q.records r in
    let pushed = push_bounded-Pushed q.records r v.bounded.room (ground (arith, v.bounded)) in
    let held : Held rs p CtiRequestState.queued = record {
      entry = r;
      found = pushed.found;
      state = refl;
    } in
    let q' = record q { next = inc_u64 q.next; pending = some p; records = rs } in
    append_event-IsValid {q = q'} q.next CtiRequestState.queued (record {
      bounded = ground (arith, v.bounded, pushed);
      one = λ h. na;
      pending = λ p' e. ground (arith, e, held);
      active = λ p' e. ground (arith, e, na);
    })

pub move_to-IsBounded :
    {q : CtiRequestQueue} (id : ℕ) (s : CtiRequestState)
    → IsBounded q
    → IsBounded (move_to q id s).0
unfolding move_to
move_to-IsBounded {q} id s v = ground (
  arith,
  v,
  IdsBelow-set_state (bound q) id s q.records,
  length-set_state id s q.records,
  append_event-IsBounded {q = record q { records = set_state q.records id s }} id s,
)

pub move_to_frame :
    (q : CtiRequestQueue) (id : ℕ) (s : CtiRequestState)
    → let q' = (move_to q id s).0 in
      (q'.next ≡ q.next) × (q'.pending ≡ q.pending) × (q'.active ≡ q.active)
unfolding move_to
move_to_frame q id s =
    ground (arith, append_event_frame (record q { records = set_state q.records id s }) id s)

pub move_to-Held :
    (q : CtiRequestQueue) (p : CtiPendingRequest) (s t : CtiRequestState)
    → Held q.records p s
    → Held (move_to q p.id t).0.records p t
unfolding move_to
move_to-Held q p s t v =
    let found = find-set_state p.id t q.records v.entry v.found in
    record {
      entry = record (v.entry) { state = t };
      found = ground (
        arith,
        v.found,
        found,
        append_event_frame (record q { records = set_state q.records p.id t }) p.id t,
      );
      state = refl;
    }

-- Nothing is under way.
pub free-IsValid :
    {q : CtiRequestQueue} → IsBounded q → q.pending ≡ none → q.active ≡ none → IsValid q
free-IsValid {q} b np na = record {
  bounded = b;
  one = λ h. ground (arith, np, h);
  pending = λ p e. ground (arith, e, np);
  active = λ p e. ground (arith, e, na);
}

pub settle-IsValid :
    {q : CtiRequestQueue} (id : ℕ) (s : CtiRequestState)
    → IsBounded q
    → q.pending ≡ none
    → q.active ≡ none
    → IsValid (move_to q id s).0
settle-IsValid {q} id s b np na =
    let (n, p, a) = move_to_frame q id s in
    free-IsValid (move_to-IsBounded id s b) (p ∙ np) (a ∙ na)

pub none_of : (o : Option CtiPendingRequest) → has_value o ≡ false → o ≡ none
none_of none h = refl
none_of (some p) h = ground arith
