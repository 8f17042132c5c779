-- ===== src/Sdk/Adapter/Steps.antt =====
-- What the adapter does moves its session and its call forward only.
use axe_voice_desktop.Prelude.{
  Bool, true, false, ℕ, ◌≤◌, ◌<◌, ◌≡◌, ◌≢◌, ◌⊎◌, ◌∙◌, ◌==◌, if◌then◌else◌, ◌∷◌, inl, inr, refl, sym,
  arith, Bool-cases, u64_mod, u64_max, inc_u64,
}
use axe_voice_desktop.Sip.Reducer.{BaresipEventKind}
use axe_voice_desktop.Pipeline.Fence
use axe_voice_desktop.Pipeline.Ingress
use axe_voice_desktop.Pipeline.Ingress.{registration_kind}
use axe_voice_desktop.Pipeline.Mailbox
use axe_voice_desktop.Pipeline.Lifecycle
use axe_voice_desktop.Pipeline.Lifecycle.{
  BaresipCallbackLifecycle, CapturedSession, Report, is_captured,
}
use axe_voice_desktop.Sdk.Event.{BeventKind, Delivery}
use axe_voice_desktop.Sdk.Adapter.{
  BaresipSdkEventAdapter, fail_closed, stop, start, register, send_registration, mint, minted,
  open_call, change_call, handle, on_event, callback, call_of, call_kind, without_call,
}
use axe_voice_desktop.Sdk.Adapter.Reports.{
  hold-Gate, report-registration, report-call_started, report-call_changed,
}
use axe_voice_desktop.Sdk.Adapter.Inv.{IsAgreed, held-IsAgreed}
use axe_voice_desktop.Sdk.Adapter.Moves.{
  Mark, mark, IsPlaced, Keeps, closed, reopened, within, Step, Step-refl, report_generation,
}

pub fail_closed-Step :
    (m : Mark) (a : BaresipSdkEventAdapter)
    → m.generation ≡ a.lifecycle.ingress.mailbox.generation
    → Step m (mark (fail_closed a))
unfolding fail_closed Lifecycle.reject_current Ingress.revoke Mailbox.invalidate_session
fail_closed-Step m a h = record {
  grows = omega (arith, h);
  bounded = λ k. omega (arith, k, h);
  placed = record { latest = λ k. absurd (k refl); newest = λ k. absurd (k refl) };
  moves = closed refl;
}

pub stop-Step : (a : BaresipSdkEventAdapter) → Step (mark a) (mark (stop a))
unfolding stop Lifecycle.revoke_and_wait Lifecycle.reject_current Ingress.revoke
    Mailbox.invalidate_session
stop-Step a = record {
  grows = omega arith;
  bounded = λ k. k;
  placed = record { latest = λ k. absurd (k refl); newest = λ k. absurd (k refl) };
  moves = closed refl;
}

-- The session and the call are the same; more may have been done with it.
pub same-Step :
    (m n : Mark)
    → IsPlaced m
    → n.generation ≡ m.generation
    → n.session ≡ m.session
    → n.last ≡ m.last
    → Keeps m n
    → Step m n
same-Step m n v e f g k = record {
  grows = omega (arith, e);
  bounded = λ k'. omega (arith, k', e);
  placed = record {
    latest = λ h. f ∙ v.latest (λ z. h (f ∙ z)) ∙ sym e;
    newest = λ h. k.token ∙ v.newest (λ z. h (k.token ∙ z)) ∙ sym g;
  };
  moves = within f (omega (arith, g)) (inl k);
}

-- The call ends.
ended-Step :
    (m n : Mark)
    → IsPlaced m
    → n.generation ≡ m.generation
    → n.session ≡ m.session
    → n.last ≡ m.last
    → n.token ≡ 0
    → Step m n
ended-Step m n v e f g k = record {
  grows = omega (arith, e);
  bounded = λ k'. omega (arith, k', e);
  placed = record {
    latest = λ h. f ∙ v.latest (λ z. h (f ∙ z)) ∙ sym e;
    newest = λ h. absurd (h k);
  };
  moves = within f (omega (arith, g)) (inr (inl k));
}

-- A call begins.
begun-Step :
    (m n : Mark)
    → IsPlaced m
    → n.generation ≡ m.generation
    → n.session ≡ m.session
    → m.last < n.last
    → n.token ≡ n.last
    → Step m n
begun-Step m n v e f g k = record {
  grows = omega (arith, e);
  bounded = λ k'. omega (arith, k', e);
  placed = record { latest = λ h. f ∙ v.latest (λ z. h (f ∙ z)) ∙ sym e; newest = λ h. k };
  moves = within f (omega (arith, g)) (inr (inr (omega (arith, g, k))));
}

send_registration-Step :
    (a : BaresipSdkEventAdapter) (c : CapturedSession) (kind : BaresipEventKind) (ok : Bool)
    → registration_kind kind ≡ true
    → IsPlaced (mark a)
    → Step (mark a) (mark (send_registration a c kind ok))
unfolding send_registration
send_registration-Step a c kind ok h v =
    let r = Report.registration kind in
    let (l, accepted) = Lifecycle.report a.lifecycle c r in
    elim (Bool-cases accepted) [
      | inl e ↦ rw e (
          let f = report-registration a.lifecycle c kind h e in
          same-Step (mark a) (mark (record a { lifecycle = l; sip_registered = ok })) v
            (report_generation a.lifecycle c r) f.0.0 f.0.3
            (record { token = refl; answered = λ k. k; hung_up = λ k. k; transferred = λ k. k }))
      | inr e ↦ rw e (
          fail_closed-Step (mark a) (record a { lifecycle = l })
            (sym (report_generation a.lifecycle c r)))
    ]

-- A number of 64 bits that is not the last one grows by one.
inc_u64_grows : (n : ℕ) → n < u64_mod → n ≢ u64_max → n < inc_u64 n
inc_u64_grows n h k = omega arith

mint-Step :
    (a : BaresipSdkEventAdapter) (c : CapturedSession) (incoming : Bool) (call : ℕ)
    → IsAgreed a
    → IsPlaced (mark a)
    → Step (mark a) (mark (mint a c incoming call))
unfolding mint
mint-Step a c incoming call w v =
    let key = inc_u64 a.native_key in
    let r = Report.call_started key (call_kind incoming) in
    let token = minted a.lifecycle c key (call_kind incoming) in
    let (l, accepted) = Lifecycle.report a.lifecycle c r in
    let given_up =
      fail_closed-Step (mark a) (record a { lifecycle = l })
        (sym (report_generation a.lifecycle c r)) in
    elim (Bool-cases accepted) [
      | inl e ↦ elim (Bool-cases (token == 0)) [
        | inl z ↦ rw (e, z) given_up
        | inr z ↦
            rw (e, z)
              (let f = report-call_started a.lifecycle c key (call_kind incoming) e in
                begun-Step (mark a)
                  (mark (record (without_call a) {
                    lifecycle = l;
                    native_key = key;
                    active_call = call;
                    active_token = token;
                    active_incoming = incoming;
                    seen_calls = call ∷ a.seen_calls;
                  }))
                  v (report_generation a.lifecycle c r) f.0.0
                  (omega
                    (arith, f.0.3, f.2, inc_u64_grows a.lifecycle.ingress.last_token w.word f.3))
                  (sym f.0.3))
      ]
      | inr e ↦ rw e given_up
    ]

open_call-Step :
    (a : BaresipSdkEventAdapter) (c : CapturedSession) (incoming : Bool) (call : ℕ)
    (is_registered : Bool)
    → IsAgreed a
    → IsPlaced (mark a)
    → Step (mark a) (mark (open_call a c incoming call is_registered))
unfolding open_call
open_call-Step a c incoming call is_registered w v =
    ground (arith, fail_closed-Step (mark a) a refl, mint-Step a c incoming call w v)

change_call-Step :
    (a : BaresipSdkEventAdapter) (c : CapturedSession) (closes : Bool) (call : ℕ)
    → IsPlaced (mark a)
    → Step (mark a) (mark (change_call a c closes call))
unfolding change_call
change_call-Step a c closes call v =
    let kind = if closes then BaresipEventKind.call_closed else BaresipEventKind.call_established in
    let r = Report.call_changed a.native_key kind in
    let (l, accepted) = Lifecycle.report a.lifecycle c r in
    let number = report_generation a.lifecycle c r in
    let given_up = fail_closed-Step (mark a) (record a { lifecycle = l }) (sym number) in
    let ended = λ (e : accepted ≡ true).
      let f = report-call_changed a.lifecycle c a.native_key kind e in
      ended-Step (mark a) (mark (without_call (record a { lifecycle = l }))) v number f.0.0 f.0.3
        refl in
    let goes_on = λ (e : accepted ≡ true).
      let f = report-call_changed a.lifecycle c a.native_key kind e in
      same-Step (mark a) (mark (record a { lifecycle = l; call_established = true })) v number f.0.0
        f.0.3
        (record { token = refl; answered = λ k. k; hung_up = λ k. k; transferred = λ k. k }) in
    ground (arith, fail_closed-Step (mark a) a refl, given_up, ended, goes_on)

handle-Step :
    (kind : BeventKind) (a : BaresipSdkEventAdapter) (c : CapturedSession) (call : ℕ)
    (is_registered : Bool)
    → IsAgreed a
    → IsPlaced (mark a)
    → Step (mark a) (mark (handle a c kind call is_registered))
unfolding handle
handle-Step BeventKind.registering a c call ok w v = ground (
  arith,
  fail_closed-Step (mark a) a refl,
  Step-refl (mark a) v,
  send_registration-Step a c BaresipEventKind.registering false refl v,
)
handle-Step BeventKind.register_ok a c call ok w v = ground (
  arith,
  fail_closed-Step (mark a) a refl,
  Step-refl (mark a) v,
  send_registration-Step a c BaresipEventKind.register_ok true refl v,
)
handle-Step BeventKind.register_fail a c call ok w v =
    send_registration-Step a c BaresipEventKind.register_fail false refl v
handle-Step BeventKind.unregistering a c call ok w v =
    send_registration-Step a c BaresipEventKind.unregistering false refl v
handle-Step BeventKind.audio_error a c call ok w v = fail_closed-Step (mark a) a refl
handle-Step BeventKind.call_incoming a c call ok w v = open_call-Step a c true call ok w v
handle-Step BeventKind.call_outgoing a c call ok w v = open_call-Step a c false call ok w v
handle-Step BeventKind.call_established a c call ok w v = change_call-Step a c false call v
handle-Step BeventKind.call_closed a c call ok w v = change_call-Step a c true call v
handle-Step BeventKind.call_transfer_failed a c call ok w v = ground (arith, Step-refl (mark a) v)
handle-Step BeventKind.shutdown a c call ok w v = Step-refl (mark a) v
handle-Step BeventKind.exit a c call ok w v = Step-refl (mark a) v
handle-Step BeventKind.unsupported a c call ok w v = Step-refl (mark a) v

-- An event does nothing, gives everything up or is handled.
pub on_event_cases :
    (P : BaresipSdkEventAdapter → Type 0) (a : BaresipSdkEventAdapter) (d : Delivery)
    → P a
    → P (fail_closed a)
    → P (handle a d.context d.kind (call_of d.event) d.is_registered)
    → P (on_event a d)
unfolding on_event
on_event_cases P a d same shut handled = ground (arith, same, shut, handled)

on_event-Step :
    (a : BaresipSdkEventAdapter) (d : Delivery)
    → IsAgreed a
    → IsPlaced (mark a)
    → Step (mark a) (mark (on_event a d))
on_event-Step a d w v =
    on_event_cases (λ b. Step (mark a) (mark b)) a d (Step-refl (mark a) v)
      (fail_closed-Step (mark a) a refl)
      (handle-Step d.kind a d.context (call_of d.event) d.is_registered w v)

held_mark :
    (a : BaresipSdkEventAdapter) (c : CapturedSession)
    → mark (record a { lifecycle = (Lifecycle.hold_native_callback a.lifecycle c).0 }) ≡ mark a
held_mark a c = rw ((hold-Gate a.lifecycle c).1) refl

pub callback-Step :
    (a : BaresipSdkEventAdapter) (d : Delivery)
    → IsAgreed a
    → IsPlaced (mark a)
    → Step (mark a) (mark (callback a d))
unfolding callback
callback-Step a d w v =
    let b = record a { lifecycle = (Lifecycle.hold_native_callback a.lifecycle d.context).0 } in
    let same = held_mark a d.context in
    let placed = coe 1 0 (i. IsPlaced (same i)) v in
    let event =
      coe 0 1 (i. Step (same i) (mark (on_event b d)))
        (on_event-Step b d (held-IsAgreed a d.context w) placed) in
    let nothing_done = coe 0 1 (i. Step (same i) (mark b)) (Step-refl (mark b) placed) in
    elim (Bool-cases (Lifecycle.hold_native_callback a.lifecycle d.context).1) [
      | inl e ↦ rw e event
      | inr e ↦ rw e nothing_done
    ]

begin_marks :
    (l : BaresipCallbackLifecycle) (account : ℕ)
    → l.ingress.session ≡ 0
    → l.ingress.mailbox.generation < u64_mod
    → let (l', c) = Lifecycle.begin l account in
      (l.ingress.mailbox.generation ≤ l'.ingress.mailbox.generation)
      × (l'.ingress.mailbox.generation < u64_mod)
      × ((l'.ingress.session ≡ 0)
          ⊎ ((l'.ingress.session ≡ l'.ingress.mailbox.generation)
              × (l.ingress.mailbox.generation < l'.ingress.session)))
unfolding Lifecycle.begin Fence.begin Ingress.begin_session Mailbox.begin_session
begin_marks l account h k = ground arith

-- A mark with a session that was begun, or none, and without a call.
fresh-Step :
    (m n : Mark)
    → m.generation ≤ n.generation
    → n.generation < u64_mod
    → n.token ≡ 0
    → (n.session ≡ 0) ⊎ ((n.session ≡ n.generation) × (m.generation < n.session))
    → Step m n
fresh-Step m n g b z (inl e) = record {
  grows = g;
  bounded = λ k. b;
  placed = record { latest = λ h. absurd (h e); newest = λ h. absurd (h z) };
  moves = closed e;
}
fresh-Step m n g b z (inr (e, l)) = record {
  grows = g;
  bounded = λ k. b;
  placed = record { latest = λ h. e; newest = λ h. absurd (h z) };
  moves = reopened l;
}

register_marks :
    (a : BaresipSdkEventAdapter) (owner : ℕ) (c : CapturedSession) (error : ℕ)
    → let n = mark (register a owner c error).0 in
      (n.generation ≡ a.lifecycle.ingress.mailbox.generation)
      × (n.token ≡ 0)
      × ((n.session ≡ 0) ⊎ (n.session ≡ a.lifecycle.ingress.session))
unfolding register Lifecycle.revoke_and_wait Lifecycle.reject_current Ingress.revoke
    Mailbox.invalidate_session
register_marks a owner c error = ground arith

-- A start changes nothing, or fails to begin a session, or registers the UA; it is only tried where none
-- was registered.
start_cases :
    (P : BaresipSdkEventAdapter → Type 0) (a : BaresipSdkEventAdapter) (owner error : ℕ)
    → let (l, c) = Lifecycle.begin a.lifecycle owner in
      P a
      → (a.registered ≡ false → P (record a { lifecycle = l }))
      → (a.registered ≡ false → P (register (record a { lifecycle = l }) owner c error).0)
      → P (start a owner error).0
unfolding start
start_cases P a owner error same failed done = ground (arith, same, failed, done)

idle_session :
    (a : BaresipSdkEventAdapter)
    → IsAgreed a
    → a.registered ≡ false
    → a.lifecycle.ingress.session ≡ 0
idle_session a w h = elim (Bool-cases (is_captured a.captured)) [
  | inl e ↦ ground (arith, (w.live e).registered)
  | inr e ↦ w.idle e
]

pub start-Step :
    (a : BaresipSdkEventAdapter) (owner error : ℕ)
    → IsAgreed a
    → IsPlaced (mark a)
    → a.lifecycle.ingress.mailbox.generation < u64_mod
    → Step (mark a) (mark (start a owner error).0)
start-Step a owner error w v b =
    let (l, c) = Lifecycle.begin a.lifecycle owner in
    let fresh = λ (n : Mark). λ (h : a.registered ≡ false).
      λ (g : n.generation ≡ l.ingress.mailbox.generation).
        λ (s : (n.session ≡ 0) ⊎ (n.session ≡ l.ingress.session)). λ (z : n.token ≡ 0).
          let f = begin_marks a.lifecycle owner (idle_session a w h) b in
          fresh-Step (mark a) n (omega (arith, f.0, g)) (omega (arith, f.1, g)) z
            (ground (arith, f.2, g, s)) in
    start_cases (λ b. Step (mark a) (mark b)) a owner error (Step-refl (mark a) v)
      (λ h.
        fresh (mark (record a { lifecycle = l })) h refl (inr refl)
          (w.token ∙ w.blank (idle_session a w h)))
      (λ h.
        let n = register_marks (record a { lifecycle = l }) owner c error in
        fresh (mark (register (record a { lifecycle = l }) owner c error).0) h n.0 n.2 n.1)
