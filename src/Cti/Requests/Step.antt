-- ===== src/Cti/Requests/Step.antt =====
-- Every operation of the queue of requests keeps its invariant.
use axe_voice_desktop.Cti.Log.{IsLog-none}
use axe_voice_desktop.Cti.Request.{CtiRequestState, CtiPendingRequest}
use axe_voice_desktop.Prelude.{
  Bool, ℕ, ◌≡◌, [], Option, none, some, inl, inr, refl, arith, Option-cases, Text,
}
use axe_voice_desktop.Cti.Requests.{
  CtiRequestQueue, sequence_of, event_capacity, submit, submit_new, submit_idempotent, key_record,
  reject_pending, move_to, take_request, complete, cancel, clear, find_record, reject_queued,
}
use axe_voice_desktop.Cti.Requests.Records.{
  IdsBelow-none, IdsBelow-reject_queued, length-reject_queued, Held-has_queued,
}
use axe_voice_desktop.Cti.Requests.Inv.{
  IsBounded, IsValid, bound, append_event-IsValid, create-IsValid, move_to-IsBounded, move_to_frame,
  move_to-Held, free-IsValid, settle-IsValid, none_of,
}

submit-IsValid :
    {q : CtiRequestQueue} (destination : Text) → IsValid q → IsValid (submit q destination).0
unfolding submit
submit-IsValid {q} destination v = ground (arith, v, create-IsValid destination [] v)

submit_new-IsValid :
    {q : CtiRequestQueue} (destination key : Text) (ready : Bool)
    → IsValid q
    → IsValid (submit_new q destination key ready).0
unfolding submit_new
submit_new-IsValid {q} destination key ready v = ground (arith, v, create-IsValid destination key v)

submit_idempotent-IsValid :
    {q : CtiRequestQueue} (destination key : Text) (ready : Bool)
    → IsValid q
    → IsValid (submit_idempotent q destination key ready).0
unfolding submit_idempotent
submit_idempotent-IsValid {q} destination key ready v = elim (Option-cases (key_record q key)) [
  | inl none' ↦ ground (arith, none', v, submit_new-IsValid destination key ready v)
  | inr (r, e) ↦ ground (arith, e, v)
]

reject_pending-IsValid : {q : CtiRequestQueue} → IsValid q → IsValid (reject_pending q).0
unfolding reject_pending
reject_pending-IsValid {q} v = elim (Option-cases q.pending) [
  | inl none' ↦ ground (arith, none', v)
  | inr (p, e) ↦
      let q' = record q { pending = none; records = reject_queued q.records p.id } in
      let b : IsBounded q' = ground (
        arith,
        v.bounded,
        IdsBelow-reject_queued (bound q) p.id q.records,
        length-reject_queued p.id q.records,
      ) in
      let na : q.active ≡ none = none_of q.active (v.one (ground (arith, e))) in
      ground (
        arith,
        e,
        Held-has_queued q.records p (v.pending p e),
        append_event-IsValid p.id CtiRequestState.rejected (free-IsValid {q = q'} b refl na),
      )
]

take_request-IsValid : {q : CtiRequestQueue} → IsValid q → IsValid (take_request q).0
unfolding take_request
take_request-IsValid {q} v = elim (Option-cases q.pending) [
  | inl none' ↦ ground (arith, none', v)
  | inr (p, e) ↦
      let q' = record q { pending = none; active = some p } in
      let b : IsBounded q' = ground (arith, v.bounded) in
      let (n, np, na) = move_to_frame q' p.id CtiRequestState.dispatching in
      let held =
        move_to-Held q' p CtiRequestState.queued CtiRequestState.dispatching (v.pending p e) in
      let taken : IsValid (move_to q' p.id CtiRequestState.dispatching).0 = record {
        bounded = move_to-IsBounded p.id CtiRequestState.dispatching b;
        one = λ h. ground (arith, np, h);
        pending = λ p' f. ground (arith, np, f);
        active = λ p' f. ground (arith, na, f, held);
      } in
      ground (arith, e, v.one, taken)
]

complete-IsValid :
    {q : CtiRequestQueue} (id : ℕ) (sent : Bool) → IsValid q → IsValid (complete q id sent).0
unfolding complete
complete-IsValid {q} id sent v = elim (Option-cases q.active) [
  | inl none' ↦ ground (arith, none', v)
  | inr (a, e) ↦
      let q' = record q { active = none } in
      let b : IsBounded q' = ground (arith, v.bounded) in
      let np : q.pending ≡ none = none_of q.pending (ground (arith, e, v.one)) in
      ground (
        arith,
        e,
        v,
        settle-IsValid {q = q'} id CtiRequestState.submitted b np refl,
        settle-IsValid {q = q'} id CtiRequestState.rejected b np refl,
      )
]

cancel-IsValid : {q : CtiRequestQueue} (id : ℕ) → IsValid q → IsValid (cancel q id).0
unfolding cancel
cancel-IsValid {q} id v = elim (Option-cases (find_record q.records id)) [
  | inl none' ↦ ground (arith, none', v)
  | inr (r, f) ↦ elim (Option-cases q.pending) [
    | inl none' ↦ ground (arith, f, none', v)
    | inr (p, e) ↦
        let q' = record q { pending = none } in
        let b : IsBounded q' = ground (arith, v.bounded) in
        let na : q.active ≡ none = none_of q.active (v.one (ground (arith, e))) in
        ground (arith, f, e, v, settle-IsValid {q = q'} id CtiRequestState.cancelled b refl na)
  ]
]

clear-IsValid : {q : CtiRequestQueue} → IsValid q → IsValid (clear q)
unfolding clear
clear-IsValid {q} v =
    let b : IsBounded (clear q) = ground (
      arith,
      v.bounded,
      IdsBelow-none (bound q),
      IsLog-none sequence_of event_capacity q.event_sequence,
    ) in
    free-IsValid b refl refl

-- One call of a method.
pub data Op : Type 0 where
  submits : Text → Op
  submits_idempotent : Text → Text → Bool → Op
  rejects_pending takes clears : Op
  completes : ℕ → Bool → Op
  cancels : ℕ → Op

-- The state after the call, and the request that it hands out.
unfoldable pub step : CtiRequestQueue → Op → CtiRequestQueue × Option CtiPendingRequest
step q (Op.submits destination) = ((submit q destination).0, none)
step q (Op.submits_idempotent destination key ready) =
    ((submit_idempotent q destination key ready).0, none)
step q Op.rejects_pending = ((reject_pending q).0, none)
step q Op.takes = take_request q
step q Op.clears = (clear q, none)
step q (Op.completes id sent) = ((complete q id sent).0, none)
step q (Op.cancels id) = ((cancel q id).0, none)

-- Every call keeps the invariant: the two lists stay within their capacities, the events are numbered
-- one by one up to the last number given, identifiers are below the next one, and at most one request
-- is under way, whose record is held as queued while it waits and as dispatching once it is taken.
pub step_invariant : {q : CtiRequestQueue} (op : Op) → IsValid q → IsValid (step q op).0
unfolding step
step_invariant (Op.submits destination) v = submit-IsValid destination v
step_invariant (Op.submits_idempotent destination key ready) v =
    submit_idempotent-IsValid destination key ready v
step_invariant Op.rejects_pending v = reject_pending-IsValid v
step_invariant Op.takes v = take_request-IsValid v
step_invariant Op.clears v = clear-IsValid v
step_invariant (Op.completes id sent) v = complete-IsValid id sent v
step_invariant (Op.cancels id) v = cancel-IsValid id v
