-- ===== src/Pipeline/Ingress/Agree.antt =====
-- The ingress and the reducer agree on the call: what the ingress lets through, the reducer takes for
-- the current session and the current call.
use axe_voice_desktop.Prelude.{true, ℕ, ◌<◌, ◌≡◌, ◌≢◌, if◌then◌else◌, [], ◌∷◌, ◌++◌, arith, inc_u64}
use axe_voice_desktop.Sip.Observation.{SipRuntimeObservation, sip_proof_is_current}
use axe_voice_desktop.Sip.Reducer.{
  BaresipEventKind, BaresipNativeEvent, EventTransition, apply_baresip_event,
}
use axe_voice_desktop.Sip.Reducer.Laws.{
  is_changing, apply_baresip_event-IsOrderly, IsOrderly, Fits, IsConsistent,
  apply_baresip_event-IsConsistent, tokens_after, is_opening, is_ending, apply_baresip_event_gate,
}
use axe_voice_desktop.Pipeline.Mailbox.Refine.{contents, enqueue_sent}
use axe_voice_desktop.Pipeline.Ingress.{
  register, change_call, start_call, BaresipCallbackIngress, Callback, make_event, accept, enqueue,
  registration, call_started, call_changed,
}
use axe_voice_desktop.Pipeline.Ingress.Laws.{enqueue_frame, admit_same, IsValid}

-- The event that an accepted callback becomes.
unfoldable pub event_of : BaresipCallbackIngress → Callback → BaresipNativeEvent
event_of i (Callback.on_registration s a kind) = make_event kind i.session 0
event_of i (Callback.on_call_started s a key kind) =
    make_event kind i.session (inc_u64 i.last_token)
event_of i (Callback.on_call_changed s a key kind) = make_event kind i.session i.active_token

-- The observation is proven for the session of the ingress, and shows the call that it has active.
pub record Agree (i : BaresipCallbackIngress) (s : SipRuntimeObservation) : Type 0 where
  pub consistent : IsConsistent s
  pub proven : sip_proof_is_current s i.session ≡ true
  pub call : s.call_id ≡ i.active_token
  pub last : s.last_call_id ≡ i.last_token

enqueue_queue :
    (i : BaresipCallbackIngress) (kind : BaresipEventKind) (token : ℕ)
    → IsValid i
    → (enqueue i kind token).1 ≡ true
    → (contents (enqueue i kind token).0.mailbox).queue
      ≡ (contents i.mailbox).queue ++ make_event kind i.session token ∷ []
unfolding enqueue
enqueue_queue i kind token v h =
    ground (arith, enqueue_sent (make_event kind i.session token) v.mailbox)

-- The token and the native key after an event, and what the reducer needs to know of it.
record Follows (i i' : BaresipCallbackIngress) (e : BaresipNativeEvent) : Type 0 where
  session : i'.session ≡ i.session
  appended : (contents i'.mailbox).queue ≡ (contents i.mailbox).queue ++ e ∷ []
  active :
      i'.active_token
      ≡ (if is_opening e.kind then e.call_id else if is_ending e.kind then 0 else i.active_token)
  last : i'.last_token ≡ (if is_opening e.kind then e.call_id else i.last_token)
  fits_new : is_opening e.kind ≡ true → (i.active_token ≡ 0) × (i.last_token < e.call_id)
  fits_held : is_changing e.kind ≡ true → (e.call_id ≢ 0) × (e.call_id ≡ i.active_token)
  of_session : e.session ≡ i.session

register-Follows :
    (kind : BaresipEventKind) (j : BaresipCallbackIngress)
    → IsValid j
    → (register j kind).1 ≡ true
    → Follows j (register j kind).0 (make_event kind j.session 0)
unfolding register
register-Follows kind j v h =
    let j' = record j { active_native_key = 0; active_token = 0 } in
    ground (
      arith,
      enqueue_frame j kind 0,
      enqueue_frame j' kind 0,
      enqueue_queue j kind 0,
      enqueue_queue j' kind 0,
    )

start_call-Follows :
    (key : ℕ) (kind : BaresipEventKind) (j : BaresipCallbackIngress)
    → IsValid j
    → (start_call j key kind).1 ≡ true
    → Follows j (start_call j key kind).0 (make_event kind j.session (inc_u64 j.last_token))
unfolding start_call
start_call-Follows key kind j v h =
    let token = inc_u64 j.last_token in
    ground (arith, enqueue_frame j kind token, enqueue_queue j kind token)

change_call-Follows :
    (key : ℕ) (kind : BaresipEventKind) (j : BaresipCallbackIngress)
    → IsValid j
    → (change_call j key kind).1 ≡ true
    → Follows j (change_call j key kind).0 (make_event kind j.session j.active_token)
unfolding change_call
change_call-Follows key kind j v h =
    let token = j.active_token in
    ground (arith, enqueue_frame j kind token, enqueue_queue j kind token)

-- An accepted callback appends exactly its event to the mailbox, and the tokens follow it.
accept-Follows :
    (c : Callback) (i : BaresipCallbackIngress)
    → IsValid i
    → (accept i c).1 ≡ true
    → Follows i (accept i c).0 (event_of i c)
unfolding accept event_of registration call_started call_changed
accept-Follows (Callback.on_registration s a kind) i v h =
    ground (arith, admit_same i s a, register-Follows kind i v)
accept-Follows (Callback.on_call_started s a key kind) i v h =
    ground (arith, admit_same i s a, start_call-Follows key kind i v)
accept-Follows (Callback.on_call_changed s a key kind) i v h =
    ground (arith, admit_same i s a, change_call-Follows key kind i v)

accept-Fits :
    (c : Callback) (i : BaresipCallbackIngress) (s : SipRuntimeObservation)
    → IsValid i
    → Agree i s
    → (accept i c).1 ≡ true
    → Fits (event_of i c).kind s (event_of i c).call_id
accept-Fits c i s v g h = let f = accept-Follows c i v h in ground (arith, f, g.call, g.last)

-- A callback that the ingress accepts appends one event to the mailbox. Where ingress and observation
-- agree on the call, the reducer applies that event or refuses it for its order, never as stale or
-- unverified; and once it is applied, the two agree again.
pub accept_simulates :
    (c : Callback) (i : BaresipCallbackIngress) (s : SipRuntimeObservation)
    → IsValid i
    → Agree i s
    → (accept i c).1 ≡ true
    → let i' = (accept i c).0 in
      let (s', r) = apply_baresip_event s i.session (event_of i c) in
      ((contents i'.mailbox).queue ≡ (contents i.mailbox).queue ++ event_of i c ∷ [])
      × IsOrderly r
      × (r ≡ EventTransition.applied → Agree i' s')
accept_simulates c i s v g h =
    let e = event_of i c in
    let f = accept-Follows c i v h in
    (
      f.appended,
      apply_baresip_event-IsOrderly s i.session e f.of_session g.proven (accept-Fits c i s v g h),
      λ done. ground (
        arith,
        f,
        g,
        tokens_after s i.session e,
        apply_baresip_event_gate s i.session e,
        apply_baresip_event-IsConsistent s i.session e g.consistent,
      ),
    )
