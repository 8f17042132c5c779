-- ===== src/Pipeline/Ingress/Laws.antt =====
-- The invariant of the ingress.
use axe_voice_desktop.Prelude.{true, ℕ, ◌<◌, ◌≡◌, ◌≢◌, arith, u64_mod, inc_u64}
use axe_voice_desktop.Sip.Reducer.{BaresipEventKind}
use axe_voice_desktop.Pipeline.Mailbox
use axe_voice_desktop.Pipeline.Mailbox.{BaresipEventMailbox}
use axe_voice_desktop.Pipeline.Mailbox.Inv
use axe_voice_desktop.Pipeline.Ingress.{
  register, start_call, change_call, call_changed, call_started, make_event, registration, admit,
  enqueue, BaresipCallbackIngress, Callback, make_ingress, begin_session, revoke, accept,
}

-- The account is known while a session is open; a call is active under the newest native key and the
-- newest token; the mailbox behind it is valid.
pub record IsValid (i : BaresipCallbackIngress) : Type 0 where
  pub mailbox : Inv.IsValid i.mailbox
  pub account : i.session ≢ 0 → i.account ≢ 0
  pub key_newest : i.active_native_key ≢ 0 → i.active_native_key ≡ i.last_native_key
  pub token_newest : i.active_token ≢ 0 → i.active_token ≡ i.last_token
  pub paired : i.active_native_key ≡ 0 → i.active_token ≡ 0
  pub paired' : i.active_token ≡ 0 → i.active_native_key ≡ 0
  pub word : i.last_token < u64_mod

pub make_ingress-IsValid : (m : BaresipEventMailbox) → Inv.IsValid m → IsValid (make_ingress m)
make_ingress-IsValid m v = ground arith

revoke-IsValid : {i : BaresipCallbackIngress} → IsValid i → IsValid (revoke i)
unfolding revoke
revoke-IsValid {i} v =
    make_ingress-IsValid (Mailbox.invalidate_session i.mailbox)
      (Inv.invalidate_session-IsValid v.mailbox)

begin_session-IsValid :
    {i : BaresipCallbackIngress} (account : ℕ) → IsValid i → IsValid (begin_session i account).0
unfolding begin_session
begin_session-IsValid {i} account v = ground (arith, Inv.begin_session-IsValid v.mailbox)

admit-IsValid : {i : BaresipCallbackIngress} (s a : ℕ) → IsValid i → IsValid (admit i s a).0
unfolding admit
admit-IsValid {i} s a v = ground (arith, revoke-IsValid v)

enqueue-IsValid :
    {i : BaresipCallbackIngress} (kind : BaresipEventKind) (token : ℕ)
    → IsValid i
    → IsValid (enqueue i kind token).0
unfolding enqueue revoke
enqueue-IsValid {i} kind token v =
    let e = make_event kind i.session token in
    let m = (Mailbox.enqueue i.mailbox e).0 in
    let kept = Inv.enqueue-IsValid e v.mailbox in
    ground (
      arith,
      kept,
      make_ingress-IsValid (Mailbox.invalidate_session m) (Inv.invalidate_session-IsValid kept),
    )

-- What an accepted event leaves alone: all but the mailbox.
pub enqueue_frame :
    (i : BaresipCallbackIngress) (kind : BaresipEventKind) (token : ℕ)
    → let (k, sent) = enqueue i kind token in
      sent ≡ true
      → (k.session ≡ i.session)
        × (k.account ≡ i.account)
        × (k.active_native_key ≡ i.active_native_key)
        × (k.active_token ≡ i.active_token)
        × (k.last_native_key ≡ i.last_native_key)
        × (k.last_token ≡ i.last_token)
unfolding enqueue
enqueue_frame i kind token h = ground arith

-- An admitted callback finds the state as it was, with a session open.
pub admit_same :
    (i : BaresipCallbackIngress) (s a : ℕ)
    → (admit i s a).1 ≡ true
    → ((admit i s a).0 ≡ i) × (i.session ≢ 0)
unfolding admit
admit_same i s a h = ground arith

register-IsValid :
    {j : BaresipCallbackIngress} (kind : BaresipEventKind) → IsValid j → IsValid (register j kind).0
unfolding register
register-IsValid {j} kind v = ground (
  arith,
  revoke-IsValid v,
  enqueue-IsValid kind 0 v,
  enqueue-IsValid {i = record j { active_native_key = 0; active_token = 0 }} kind 0,
)

start_call-IsValid :
    {j : BaresipCallbackIngress} (key : ℕ) (kind : BaresipEventKind)
    → IsValid j
    → IsValid (start_call j key kind).0
unfolding start_call
start_call-IsValid {j} key kind v =
    let token = inc_u64 j.last_token in
    ground (arith, revoke-IsValid v, enqueue-IsValid kind token v, enqueue_frame j kind token)

change_call-IsValid :
    {j : BaresipCallbackIngress} (key : ℕ) (kind : BaresipEventKind)
    → IsValid j
    → IsValid (change_call j key kind).0
unfolding change_call
change_call-IsValid {j} key kind v =
    let token = j.active_token in
    ground (arith, revoke-IsValid v, enqueue-IsValid kind token v, enqueue_frame j kind token)

-- Every callback, accepted or not, keeps the invariant of the ingress and of its mailbox.
pub accept-IsValid :
    (c : Callback) {i : BaresipCallbackIngress} → IsValid i → IsValid (accept i c).0
unfolding accept registration call_started call_changed
accept-IsValid (Callback.on_registration s a kind) v =
    let w = admit-IsValid s a v in ground (arith, w, register-IsValid kind w)
accept-IsValid (Callback.on_call_started s a key kind) v =
    let w = admit-IsValid s a v in ground (arith, w, start_call-IsValid key kind w)
accept-IsValid (Callback.on_call_changed s a key kind) v =
    let w = admit-IsValid s a v in ground (arith, w, change_call-IsValid key kind w)
