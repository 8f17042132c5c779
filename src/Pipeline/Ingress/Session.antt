-- ===== src/Pipeline/Ingress/Session.antt =====
-- What a callback may do to the session of the ingress.
use axe_voice_desktop.Prelude.{ℕ, ◌≡◌, ◌≢◌, arith, inc_u64}
use axe_voice_desktop.Sip.Reducer.{BaresipEventKind}
use axe_voice_desktop.Pipeline.Ingress.{
  BaresipCallbackIngress, Callback, accept, admit, enqueue, revoke, register, registration,
  start_call, call_started, change_call, call_changed,
}

-- The session is kept with its account, or dropped.
record Keeps (i j : BaresipCallbackIngress) : Type 0 where
  session : j.session ≢ 0 → j.session ≡ i.session
  account : j.session ≢ 0 → j.account ≡ i.account

Keeps-trans : {i j k : BaresipCallbackIngress} → Keeps i j → Keeps j k → Keeps i k
Keeps-trans {i} {j} {k} f g = ground arith

revoke-Keeps : (i : BaresipCallbackIngress) → Keeps i (revoke i)
unfolding revoke
revoke-Keeps i = ground arith

admit-Keeps : (i : BaresipCallbackIngress) (s a : ℕ) → Keeps i (admit i s a).0
unfolding admit
admit-Keeps i s a = ground (arith, revoke-Keeps i)

enqueue-Keeps :
    (i : BaresipCallbackIngress) (kind : BaresipEventKind) (token : ℕ)
    → Keeps i (enqueue i kind token).0
unfolding enqueue revoke
enqueue-Keeps i kind token = ground arith

register-Keeps :
    (j : BaresipCallbackIngress) (kind : BaresipEventKind) → Keeps j (register j kind).0
unfolding register
register-Keeps j kind =
    let j' = record j { active_native_key = 0; active_token = 0 } in
    ground (arith, revoke-Keeps j, enqueue-Keeps j kind 0, enqueue-Keeps j' kind 0)

start_call-Keeps :
    (j : BaresipCallbackIngress) (key : ℕ) (kind : BaresipEventKind)
    → Keeps j (start_call j key kind).0
unfolding start_call
start_call-Keeps j key kind =
    ground (arith, revoke-Keeps j, enqueue-Keeps j kind (inc_u64 j.last_token))

change_call-Keeps :
    (j : BaresipCallbackIngress) (key : ℕ) (kind : BaresipEventKind)
    → Keeps j (change_call j key kind).0
unfolding change_call
change_call-Keeps j key kind = ground (arith, revoke-Keeps j, enqueue-Keeps j kind j.active_token)

accept-Keeps : (c : Callback) (i : BaresipCallbackIngress) → Keeps i (accept i c).0
unfolding accept registration call_started call_changed
accept-Keeps (Callback.on_registration s a kind) i =
    let j = (admit i s a).0 in
    let k = admit-Keeps i s a in ground (arith, k, Keeps-trans k (register-Keeps j kind))
accept-Keeps (Callback.on_call_started s a key kind) i =
    let j = (admit i s a).0 in
    let k = admit-Keeps i s a in ground (arith, k, Keeps-trans k (start_call-Keeps j key kind))
accept-Keeps (Callback.on_call_changed s a key kind) i =
    let j = (admit i s a).0 in
    let k = admit-Keeps i s a in ground (arith, k, Keeps-trans k (change_call-Keeps j key kind))

-- A session that is open after a callback was open before it, with the same account.
pub accept_session :
    (i : BaresipCallbackIngress) (c : Callback)
    → let j = (accept i c).0 in (j.session ≢ 0) → (j.session ≡ i.session) × (j.account ≡ i.account)
accept_session i c h = let k = accept-Keeps c i in (k.session h, k.account h)
