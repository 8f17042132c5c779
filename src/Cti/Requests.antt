-- ===== src/Cti/Requests.antt =====
-- src/local_cti_requests.h: the queue of dial requests of local clients. Each method holds the mutex
-- throughout. Texts are lists of character codes.
pub mod Records
pub mod Inv
pub mod Step
pub mod Page
pub mod Order
use axe_voice_desktop.Cti.Log.{push_bounded, oldest, newer}
use axe_voice_desktop.Cti.Request.{
  CtiRequestState, CtiCancelOutcome, CtiSubmitOutcome, CtiSubmitResult, CtiPendingRequest,
  CtiRequestResult, CtiRequestTransition, CtiRequestEventsPage,
}
use axe_voice_desktop.Prelude.{
  Text, text_eq, is_empty, Bool, true, false, ℕ, zero, suc, ◌+◌, ◌-◌, ◌*◌, ◌/◌, ◌%◌, ◌^◌, ◌≤◌, ◌<◌,
  ◌≡◌, ◌≢◌, ◌↔◌, ◌⊎◌, ◌∙◌, ◌==◌, ◌!=◌, ◌||◌, ◌&&◌, not, if◌then◌else◌, leb, ltb, List, [], ◌∷◌,
  ◌++◌, map, Option, none, some, inl, inr, refl, sym, ap, arith, tests, Bool-cases, Option-cases,
  length, get_or, set, take, drop, replicate, pop_front, All, All-append, All-mono, length-append,
  length-set, length-take, get_or-set_self, get_or-set_ne, u64_mod, u64_max, inc_u64, sub_u64,
  lt→ltb, ltb→lt, leb→le, le→leb, ==_iff,
}

abbrev pub sequence_of : CtiRequestTransition → ℕ
sequence_of e = e.sequence

abbrev pub capacity : ℕ
capacity = 32

abbrev pub event_capacity : ℕ
event_capacity = 64

pub record CtiRequestQueue : Type 0 where
  pub next : ℕ  -- uint64_t
  pub pending : Option CtiPendingRequest
  pub active : Option CtiPendingRequest
  pub records : List CtiRequestResult
  pub events : List CtiRequestTransition
  pub event_sequence : ℕ  -- uint64_t

abbrev pub initial_queue : CtiRequestQueue
initial_queue = record {
  next = 1;
  pending = none;
  active = none;
  records = [];
  events = [];
  event_sequence = 0;
}

abbrev pub has_value {ℓ} : {A : Type ℓ} → Option A → Bool
has_value none = false
has_value (some a) = true

-- `append_event_locked`
unfoldable pub append_event : CtiRequestQueue → ℕ → CtiRequestState → CtiRequestQueue
append_event q id state =
    if q.event_sequence == u64_max
    then q
    else let n = inc_u64 q.event_sequence in
      record q {
        event_sequence = n;
        events =
            push_bounded event_capacity q.events
              (record { sequence = n; request_id = id; state = state });
      }

-- The first record with the identifier.
abbrev pub find_record : List CtiRequestResult → ℕ → Option CtiRequestResult
find_record [] id = none
find_record (r ∷ rs) id = if r.id == id then some r else find_record rs id

-- The first record with the key.
abbrev pub find_key : List CtiRequestResult → Text → Option CtiRequestResult
find_key [] key = none
find_key (r ∷ rs) key =
    let rest = find_key rs key in if text_eq r.idempotency_key key then some r else rest

-- The first record with the identifier gets the state.
abbrev pub set_state : List CtiRequestResult → ℕ → CtiRequestState → List CtiRequestResult
set_state [] id state = []
set_state (r ∷ rs) id state =
    let rest = set_state rs id state in
    if r.id == id then record r { state = state } ∷ rs else r ∷ rest

-- From `const id=next_++` on; the record keeps the key, and the destination if there is a key.
unfoldable pub create : CtiRequestQueue → Text → Text → CtiRequestQueue × ℕ
create q destination key =
    let id = q.next in
    let r : CtiRequestResult = record {
      id = id;
      state = CtiRequestState.queued;
      idempotency_key = key;
      idempotency_destination = if is_empty key then [] else destination;
    } in
    (
      append_event
          (record q {
            next = inc_u64 q.next;
            pending = some (record { id = id; destination = destination });
            records = push_bounded capacity q.records r;
          })
          id CtiRequestState.queued,
      id,
    )

unfoldable pub submit : CtiRequestQueue → Text → CtiRequestQueue × Option ℕ
submit q destination =
    if is_empty destination || has_value q.pending || has_value q.active || q.next == 0
    then (q, none)
    else let (q', id) = create q destination [] in (q', some id)

abbrev pub answer : CtiSubmitOutcome → ℕ → CtiRequestState → CtiSubmitResult
answer outcome id state = record { outcome = outcome; id = id; state = state }

-- The answer to a key that was used before.
abbrev pub replay : CtiRequestResult → Text → CtiSubmitResult
replay r destination =
    if not (text_eq r.idempotency_destination destination)
    then answer CtiSubmitOutcome.key_conflict r.id r.state
    else answer CtiSubmitOutcome.replayed r.id r.state

-- `submit_idempotent`, past the search for the key.
unfoldable pub submit_new : CtiRequestQueue → Text → Text → Bool → CtiRequestQueue × CtiSubmitResult
submit_new q destination key ready =
    if not ready
    then (q, answer CtiSubmitOutcome.not_ready 0 CtiRequestState.queued)
    else if has_value q.pending || has_value q.active || q.next == 0
    then (q, answer CtiSubmitOutcome.busy 0 CtiRequestState.queued)
    else let (q', id) = create q destination key in
      (q', answer CtiSubmitOutcome.created id CtiRequestState.queued)

-- The record that holds a key that is not empty.
unfoldable pub key_record : CtiRequestQueue → Text → Option CtiRequestResult
key_record q key = if is_empty key then none else find_key q.records key

unfoldable pub submit_idempotent :
    CtiRequestQueue → Text → Text → Bool → CtiRequestQueue × CtiSubmitResult
submit_idempotent q destination key ready =
    if is_empty destination
    then (q, answer CtiSubmitOutcome.busy 0 CtiRequestState.queued)
    else elim (key_record q key) [
      | some r ↦ (q, replay r destination)
      | none ↦ submit_new q destination key ready
    ]

-- Whether the state is `Queued`.
abbrev pub is_queued : CtiRequestState → Bool
is_queued CtiRequestState.queued = true
is_queued _ = false

-- The search of `reject_pending`: the first record with the identifier that is queued.
abbrev pub has_queued : List CtiRequestResult → ℕ → Bool
has_queued [] id = false
has_queued (r ∷ rs) id = let rest = has_queued rs id in (r.id == id && is_queued r.state) || rest

abbrev pub reject_queued : List CtiRequestResult → ℕ → List CtiRequestResult
reject_queued [] id = []
reject_queued (r ∷ rs) id =
    let rest = reject_queued rs id in
    if r.id == id && is_queued r.state
    then record r { state = CtiRequestState.rejected } ∷ rs
    else r ∷ rest

unfoldable pub reject_pending : CtiRequestQueue → CtiRequestQueue × Bool
reject_pending q = elim q.pending [
  | none ↦ (q, false)
  | some p ↦
      if has_queued q.records p.id
      then (
        append_event (record q { pending = none; records = reject_queued q.records p.id }) p.id
            CtiRequestState.rejected,
        true,
      )
      else (record q { pending = none }, false)
]

-- The state of a record is set and the transition is appended, if there is such a record.
unfoldable pub move_to : CtiRequestQueue → ℕ → CtiRequestState → CtiRequestQueue × Bool
move_to q id state =
    if has_value (find_record q.records id)
    then (append_event (record q { records = set_state q.records id state }) id state, true)
    else (q, false)

-- `take`; named after what it takes, since lists have a `take`.
unfoldable pub take_request : CtiRequestQueue → CtiRequestQueue × Option CtiPendingRequest
take_request q = elim q.pending [
  | none ↦ (q, none)
  | some p ↦ if has_value q.active then (q, none) else (
    (move_to (record q { pending = none; active = some p }) p.id CtiRequestState.dispatching).0,
    some p,
  )
]

unfoldable pub complete : CtiRequestQueue → ℕ → Bool → CtiRequestQueue × Bool
complete q id sent = elim q.active [
  | none ↦ (q, false)
  | some a ↦
      if a.id != id
      then (q, false)
      else move_to (record q { active = none }) id
          (if sent then CtiRequestState.submitted else CtiRequestState.rejected)
]

-- Whether the request is the pending one.
abbrev pub is_pending : Option CtiPendingRequest → ℕ → Bool
is_pending none id = false
is_pending (some p) id = p.id == id

unfoldable pub cancel : CtiRequestQueue → ℕ → CtiRequestQueue × CtiCancelOutcome
cancel q id = elim (find_record q.records id) [
  | none ↦ (q, CtiCancelOutcome.not_found)
  | some r ↦
      if not (is_pending q.pending id) || not (is_queued r.state)
      then (q, CtiCancelOutcome.too_late)
      else (
        (move_to (record q { pending = none }) id CtiRequestState.cancelled).0,
        CtiCancelOutcome.cancelled,
      )
]

unfoldable pub get : CtiRequestQueue → ℕ → Option CtiRequestResult
get q id = find_record q.records id

-- Those of them that belong to the request.
abbrev pub newer_of : List CtiRequestTransition → ℕ → ℕ → List CtiRequestTransition
newer_of [] id cursor = []
newer_of (e ∷ es) id cursor =
    let rest = newer_of es id cursor in
    if ltb cursor e.sequence && e.request_id == id then e ∷ rest else rest

abbrev pub page_of : CtiRequestQueue → ℕ → List CtiRequestTransition → CtiRequestEventsPage
page_of q cursor es =
    let first = oldest sequence_of q.events in
    record {
      latest_sequence = q.event_sequence;
      oldest_sequence = first;
      gap = ltb 0 first && ltb cursor (sub_u64 first 1);
      events = es;
    }

unfoldable pub events_after : CtiRequestQueue → ℕ → CtiRequestEventsPage
events_after q cursor = page_of q cursor (newer sequence_of q.events cursor)

unfoldable pub events_after_for_request : CtiRequestQueue → ℕ → ℕ → Option CtiRequestEventsPage
events_after_for_request q id cursor =
    if not (has_value (find_record q.records id))
    then none
    else some (page_of q cursor (newer_of q.events id cursor))

-- Identifiers and cursors go on.
unfoldable pub clear : CtiRequestQueue → CtiRequestQueue
clear q = record q { pending = none; active = none; records = []; events = [] }
