-- ===== src/Sdk/Adapter/Reports.antt =====
-- What a report that is accepted does to the life cycle.
use axe_voice_desktop.Prelude.{true, ℕ, ◌≡◌, ◌≢◌, if◌then◌else◌, refl, arith, u64_max, inc_u64}
use axe_voice_desktop.Sip.Reducer.{BaresipEventKind}
use axe_voice_desktop.Pipeline.Fence
use axe_voice_desktop.Pipeline.Fence.{BaresipCallbackFence}
use axe_voice_desktop.Pipeline.Ingress
use axe_voice_desktop.Pipeline.Ingress.{BaresipCallbackIngress, registration_kind, closing_kind}
use axe_voice_desktop.Pipeline.Ingress.Laws.{enqueue_frame, admit_same}
use axe_voice_desktop.Pipeline.Lifecycle
use axe_voice_desktop.Pipeline.Lifecycle.{BaresipCallbackLifecycle, CapturedSession, Report}
use axe_voice_desktop.Sdk.Adapter.{minted}

-- The session and what was issued last are kept.
abbrev pub Issued : BaresipCallbackIngress → BaresipCallbackIngress → ℕ → ℕ → Type 0
Issued i j key token =
    (j.session ≡ i.session)
    × (j.account ≡ i.account)
    × (j.last_native_key ≡ key)
    × (j.last_token ≡ token)

-- The call that is active.
abbrev pub Shows : BaresipCallbackIngress → ℕ → ℕ → Type 0
Shows j key token = (j.active_native_key ≡ key) × (j.active_token ≡ token)

registration_frame :
    (i : BaresipCallbackIngress) (s a : ℕ) (kind : BaresipEventKind)
    → registration_kind kind ≡ true
    → (Ingress.registration i s a kind).1 ≡ true
    → let j = (Ingress.registration i s a kind).0 in
      Issued i j i.last_native_key i.last_token × Shows j i.active_native_key i.active_token
unfolding Ingress.registration Ingress.register
registration_frame i s a kind h ok =
    let j = (Ingress.admit i s a).0 in ground (arith, admit_same i s a, enqueue_frame j kind 0)

call_started_frame :
    (i : BaresipCallbackIngress) (s a key : ℕ) (kind : BaresipEventKind)
    → (Ingress.call_started i s a key kind).1 ≡ true
    → let (j, ok, token) = Ingress.call_started i s a key kind in
      Issued i j key token
      × Shows j key token
      × (token ≡ inc_u64 i.last_token)
      × (i.last_token ≢ u64_max)
unfolding Ingress.call_started Ingress.start_call
call_started_frame i s a key kind ok =
    let j = (Ingress.admit i s a).0 in
    ground (arith, admit_same i s a, enqueue_frame j kind (inc_u64 j.last_token))

call_changed_frame :
    (i : BaresipCallbackIngress) (s a key : ℕ) (kind : BaresipEventKind)
    → (Ingress.call_changed i s a key kind).1 ≡ true
    → let j = (Ingress.call_changed i s a key kind).0 in
      Issued i j i.last_native_key i.last_token
      × Shows j
          (if closing_kind kind then 0 else i.active_native_key)
          (if closing_kind kind then 0 else i.active_token)
unfolding Ingress.call_changed Ingress.change_call
call_changed_frame i s a key kind ok =
    let j = (Ingress.admit i s a).0 in
    ground (arith, admit_same i s a, enqueue_frame j kind j.active_token)

-- The state of the fence by which callbacks are admitted.
abbrev pub Gate : BaresipCallbackFence → BaresipCallbackFence → Type 0
Gate f g = (g.accepting ≡ f.accepting) × (g.closing ≡ f.closing) × (g.generation ≡ f.generation)

admit-Gate : (f : BaresipCallbackFence) (n : ℕ) → Gate f (Fence.admit f n).0
unfolding Fence.admit
admit-Gate f n = ground arith

release-Gate : (f : BaresipCallbackFence) → Gate f (Fence.release_one f)
unfolding Fence.release_one
release-Gate f = (refl, refl, refl)

pub report-Gate :
    (l : BaresipCallbackLifecycle) (c : CapturedSession) (r : Report)
    → Gate l.fence (Lifecycle.report l c r).0.fence
unfolding Lifecycle.report
report-Gate l c r = ground (
  arith,
  admit-Gate l.fence c.fence_generation,
  release-Gate (Fence.admit l.fence c.fence_generation).0,
)

pub hold-Gate :
    (l : BaresipCallbackLifecycle) (c : CapturedSession)
    → let l' = (Lifecycle.hold_native_callback l c).0 in
      Gate l.fence l'.fence × (l'.ingress ≡ l.ingress)
unfolding Lifecycle.hold_native_callback
hold-Gate l c = ground (
  arith,
  admit-Gate l.fence c.fence_generation,
  release-Gate (Fence.admit l.fence c.fence_generation).0,
)

pub report-registration :
    (l : BaresipCallbackLifecycle) (c : CapturedSession) (kind : BaresipEventKind)
    → registration_kind kind ≡ true
    → (Lifecycle.report l c (Report.registration kind)).1 ≡ true
    → let j = (Lifecycle.report l c (Report.registration kind)).0.ingress in
      Issued l.ingress j l.ingress.last_native_key l.ingress.last_token
      × Shows j l.ingress.active_native_key l.ingress.active_token
unfolding Lifecycle.report Ingress.accept
report-registration l c kind h ok =
    ground (arith, registration_frame l.ingress c.mailbox_session c.account_identity kind h)

pub report-call_started :
    (l : BaresipCallbackLifecycle) (c : CapturedSession) (key : ℕ) (kind : BaresipEventKind)
    → (Lifecycle.report l c (Report.call_started key kind)).1 ≡ true
    → let j = (Lifecycle.report l c (Report.call_started key kind)).0.ingress in
      let token = minted l c key kind in
      Issued l.ingress j key token
      × Shows j key token
      × (token ≡ inc_u64 l.ingress.last_token)
      × (l.ingress.last_token ≢ u64_max)
unfolding Lifecycle.report Ingress.accept minted
report-call_started l c key kind ok =
    ground (arith, call_started_frame l.ingress c.mailbox_session c.account_identity key kind)

pub report-call_changed :
    (l : BaresipCallbackLifecycle) (c : CapturedSession) (key : ℕ) (kind : BaresipEventKind)
    → (Lifecycle.report l c (Report.call_changed key kind)).1 ≡ true
    → let j = (Lifecycle.report l c (Report.call_changed key kind)).0.ingress in
      Issued l.ingress j l.ingress.last_native_key l.ingress.last_token
      × Shows j
          (if closing_kind kind then 0 else l.ingress.active_native_key)
          (if closing_kind kind then 0 else l.ingress.active_token)
unfolding Lifecycle.report Ingress.accept
report-call_changed l c key kind ok =
    ground (arith, call_changed_frame l.ingress c.mailbox_session c.account_identity key kind)
