-- ===== src/Cti/Requests/Order.antt =====
-- The order in which requests are handed out.
use axe_voice_desktop.Sip.Reducer.Laws.{IncreasingFrom}
use axe_voice_desktop.Cti.Request.{CtiPendingRequest, CtiRequestState}
use axe_voice_desktop.Prelude.{
  Bool, ℕ, ◌≤◌, ◌<◌, ◌≡◌, ◌≢◌, ◌⊎◌, List, [], ◌∷◌, Option, none, some, inl, inr, refl, arith,
  Option-cases, u64_mod, Text,
}
use axe_voice_desktop.Cti.Requests.{
  CtiRequestQueue, initial_queue, append_event, create, submit, submit_new, submit_idempotent,
  key_record, reject_pending, move_to, take_request, complete, cancel, clear, find_record,
  reject_queued,
}
use axe_voice_desktop.Cti.Requests.Inv.{bound, append_event_frame, move_to_frame}
use axe_voice_desktop.Cti.Requests.Step.{Op, step}

-- The identifier of a request that is handed out, before the later ones.
abbrev hand : Option CtiPendingRequest → List ℕ → List ℕ
hand none rest = rest
hand (some p) rest = p.id ∷ rest

-- The identifiers of the requests that a history of calls hands out, in order.
unfoldable pub taken : CtiRequestQueue → List Op → List ℕ
taken q [] = []
taken q (op ∷ ops) = let (q', t) = step q op in hand t (taken q' ops)

-- Identifiers only grow, and a request that newly waits has a new one.
record Grows (q q' : CtiRequestQueue) : Type 0 where
  word : q'.next < u64_mod
  grows : bound q ≤ bound q'
  fresh :
      (p : CtiPendingRequest)
      → q'.pending ≡ some p
      → (q.pending ≡ some p) ⊎ ((bound q ≤ p.id) × (p.id < bound q'))

create-Grows :
    (q : CtiRequestQueue) (destination key : Text)
    → q.next < u64_mod
    → q.next ≢ 0
    → Grows q (create q destination key).0
unfolding create append_event
create-Grows q destination key w nz = record {
  word = ground arith;
  grows = ground arith;
  fresh = λ p e. ground (arith, e);
}

same-Grows :
    (q q' : CtiRequestQueue)
    → q.next < u64_mod
    → q'.next ≡ q.next
    → (q'.pending ≡ q.pending) ⊎ (q'.pending ≡ none)
    → Grows q q'
same-Grows q q' w n s = record {
  word = ground arith;
  grows = ground arith;
  fresh = λ p e. ground (arith, e);
}

submit-Grows :
    (q : CtiRequestQueue) (destination : Text) → q.next < u64_mod → Grows q (submit q destination).0
unfolding submit
submit-Grows q destination w =
    ground (arith, create-Grows q destination [] w, same-Grows q q w refl (inl refl))

submit_idempotent-Grows :
    (q : CtiRequestQueue) (destination key : Text) (ready : Bool)
    → q.next < u64_mod
    → Grows q (submit_idempotent q destination key ready).0
unfolding submit_idempotent submit_new
submit_idempotent-Grows q destination key ready w =
    let same = same-Grows q q w refl (inl refl) in
    elim (Option-cases (key_record q key)) [
      | inl none' ↦ ground (arith, none', same, create-Grows q destination key w)
      | inr (r, e) ↦ ground (arith, e, same)
    ]

-- The counter stays, and the pending request stays or is gone.
IsSettled : CtiRequestQueue → CtiRequestQueue → Type 0
IsSettled q q' = (q'.next ≡ q.next) × ((q'.pending ≡ q.pending) ⊎ (q'.pending ≡ none))

reject_pending-IsSettled : (q : CtiRequestQueue) → IsSettled q (reject_pending q).0
unfolding IsSettled reject_pending
reject_pending-IsSettled q = elim (Option-cases q.pending) [
  | inl none' ↦ ground (arith, none')
  | inr (p, e) ↦
      let q' = record q { pending = none; records = reject_queued q.records p.id } in
      ground (arith, e, append_event_frame q' p.id CtiRequestState.rejected)
]

complete-IsSettled :
    (q : CtiRequestQueue) (id : ℕ) (sent : Bool) → IsSettled q (complete q id sent).0
unfolding IsSettled complete
complete-IsSettled q id sent = elim (Option-cases q.active) [
  | inl none' ↦ ground (arith, none')
  | inr (a, e) ↦
      let q' = record q { active = none } in
      ground (
        arith,
        e,
        move_to_frame q' id CtiRequestState.submitted,
        move_to_frame q' id CtiRequestState.rejected,
      )
]

cancel-IsSettled : (q : CtiRequestQueue) (id : ℕ) → IsSettled q (cancel q id).0
unfolding IsSettled cancel
cancel-IsSettled q id = elim (Option-cases (find_record q.records id)) [
  | inl none' ↦ ground (arith, none')
  | inr (r, e) ↦
      ground (arith, e, move_to_frame (record q { pending = none }) id CtiRequestState.cancelled)
]

-- The requests handed out so far are up to `n`, and the pending one comes after them.
record IsAfter (n : ℕ) (q : CtiRequestQueue) : Type 0 where
  word : q.next < u64_mod
  issued : n < bound q
  waiting : (p : CtiPendingRequest) → q.pending ≡ some p → (n < p.id) × (p.id < bound q)

Grows-IsAfter : (n : ℕ) (q q' : CtiRequestQueue) → IsAfter n q → Grows q q' → IsAfter n q'
Grows-IsAfter n q q' v g = record {
  word = g.word;
  issued = ground (arith, v.issued, g.grows);
  waiting = λ p e. ground (arith, v.issued, g.grows, g.fresh p e, v.waiting p);
}

settled-IsAfter : (n : ℕ) (q q' : CtiRequestQueue) → IsAfter n q → IsSettled q q' → IsAfter n q'
unfolding IsSettled
settled-IsAfter n q q' v s = Grows-IsAfter n q q' v (same-Grows q q' v.word s.0 s.1)

-- What a call hands out comes after all that was handed out before.
Handed : ℕ → CtiRequestQueue × Option CtiPendingRequest → Type 0
Handed n (q, none) = IsAfter n q
Handed n (q, some p) = (n < p.id) × IsAfter p.id q

none-Handed :
    (n : ℕ) (r : CtiRequestQueue × Option CtiPendingRequest)
    → r.1 ≡ none
    → IsAfter n r.0
    → Handed n r
unfolding Handed
none-Handed n (q, none) e v = v
none-Handed n (q, some p) e v = ground (arith, e)

some-Handed :
    (n : ℕ) (p : CtiPendingRequest) (r : CtiRequestQueue × Option CtiPendingRequest)
    → r.1 ≡ some p
    → n < p.id
    → IsAfter p.id r.0
    → Handed n r
unfolding Handed
some-Handed n p (q, none) e h v = ground (arith, e)
some-Handed n p (q, some p') e h v = ground (arith, e, h, v)

taken-IsAfter :
    (n : ℕ) (p : CtiPendingRequest) (q : CtiRequestQueue) (s : CtiRequestState)
    → q.pending ≡ some p
    → IsAfter n q
    → IsAfter p.id (move_to (record q { pending = none; active = some p }) p.id s).0
taken-IsAfter n p q s e v =
    let (next, np, na) = move_to_frame (record q { pending = none; active = some p }) p.id s in
    record {
      word = ground (arith, next, v.word);
      issued = ground (arith, next, v.waiting p e);
      waiting = λ p' f. ground (arith, np, f);
    }

take_request-Handed : (n : ℕ) (q : CtiRequestQueue) → IsAfter n q → Handed n (take_request q)
unfolding take_request
take_request-Handed n q v = elim (Option-cases q.pending) [
  | inl none' ↦ none-Handed n (take_request q) (ground (arith, none')) (ground (arith, none', v))
  | inr (p, e) ↦ elim (Option-cases q.active) [
    | inl none' ↦
        some-Handed n p (take_request q) (ground (arith, e, none')) (ground (arith, v.waiting p e))
          (ground (arith, e, none', taken-IsAfter n p q CtiRequestState.dispatching e v))
    | inr (a, f) ↦ none-Handed n (take_request q) (ground (arith, e, f)) (ground (arith, e, f, v))
  ]
]

clear-IsSettled : (q : CtiRequestQueue) → IsSettled q (clear q)
unfolding IsSettled clear
clear-IsSettled q = (refl, inr refl)

step-Handed : (op : Op) (n : ℕ) (q : CtiRequestQueue) → IsAfter n q → Handed n (step q op)
unfolding Handed step
step-Handed (Op.submits d) n q v = Grows-IsAfter n q (submit q d).0 v (submit-Grows q d v.word)
step-Handed (Op.submits_idempotent d k r) n q v =
    Grows-IsAfter n q (submit_idempotent q d k r).0 v (submit_idempotent-Grows q d k r v.word)
step-Handed Op.rejects_pending n q v =
    settled-IsAfter n q (reject_pending q).0 v (reject_pending-IsSettled q)
step-Handed Op.takes n q v = take_request-Handed n q v
step-Handed Op.clears n q v = settled-IsAfter n q (clear q) v (clear-IsSettled q)
step-Handed (Op.completes id sent) n q v =
    settled-IsAfter n q (complete q id sent).0 v (complete-IsSettled q id sent)
step-Handed (Op.cancels id) n q v = settled-IsAfter n q (cancel q id).0 v (cancel-IsSettled q id)

IncreasingFrom-hand :
    (n : ℕ) (r : CtiRequestQueue × Option CtiPendingRequest) (rest : List ℕ)
    → Handed n r
    → ((m : ℕ) → IsAfter m r.0 → IncreasingFrom m rest)
    → IncreasingFrom n (hand r.1 rest)
unfolding Handed
IncreasingFrom-hand n (q, none) rest v ih = ih n v
IncreasingFrom-hand n (q, some p) rest v ih = (v.0, ih p.id v.1)

taken_order :
    (ops : List Op) (n : ℕ) (q : CtiRequestQueue) → IsAfter n q → IncreasingFrom n (taken q ops)
unfolding taken
taken_order [] n q v = tt
taken_order (op ∷ ops) n q v =
    let r = step q op in
    IncreasingFrom-hand n r (taken r.0 ops) (step-Handed op n q v) (λ m w. taken_order ops m r.0 w)

-- Whatever calls a queue that was just made gets, it hands requests out in the order of their
-- identifiers, and none twice, also across `clear`.
pub taken-IncreasingFrom : (ops : List Op) → IncreasingFrom 0 (taken initial_queue ops)
taken-IncreasingFrom ops =
    taken_order ops 0 initial_queue
      (record { word = ground arith; issued = ground arith; waiting = λ p e. ground (arith, e) })
