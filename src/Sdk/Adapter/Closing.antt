-- ===== src/Sdk/Adapter/Closing.antt =====
-- The adapter fails closed, and what is not its own changes nothing.
use axe_voice_desktop.Prelude.{
  Bool, true, false, ℕ, ◌<◌, ◌≡◌, ◌⊎◌, ◌||◌, ◌&&◌, not, if◌then◌else◌, inl, inr, refl, arith,
  u64_mod, inc_u64, sub_u64,
}
use axe_voice_desktop.Sip.Reducer.{BaresipEventKind}
use axe_voice_desktop.Pipeline.Fence
use axe_voice_desktop.Pipeline.Fence.{BaresipCallbackFence}
use axe_voice_desktop.Pipeline.Ingress
use axe_voice_desktop.Pipeline.Ingress.{registration_kind}
use axe_voice_desktop.Pipeline.Mailbox
use axe_voice_desktop.Pipeline.Lifecycle
use axe_voice_desktop.Pipeline.Lifecycle.{CapturedSession, Report, is_captured, nothing}
use axe_voice_desktop.Sdk.Event.{BeventKind, Delivery}
use axe_voice_desktop.Sdk.Adapter.{
  BaresipSdkEventAdapter, fail_closed, send_registration, mint, open_call, change_call, handle,
  on_event, callback, give_back, same_epoch, is_supported, is_exit, is_own, call_of, call_kind,
}
use axe_voice_desktop.Sdk.Adapter.Reports.{
  hold-Gate, report-registration, report-call_started, report-call_changed,
}
use axe_voice_desktop.Sdk.Adapter.Steps.{on_event_cases}

-- The session that is captured goes on.
pub record GoesOn (a b : BaresipSdkEventAdapter) : Type 0 where
  pub captured : b.captured ≡ a.captured
  pub session : b.lifecycle.ingress.session ≡ a.lifecycle.ingress.session
  pub owner : b.owner ≡ a.owner
  pub registered : b.registered ≡ a.registered

-- All is given up: nothing is captured, no session is open, what was in the mailbox is dropped, no
-- callback is admitted any more, and no call is held.
pub record IsClosed (b : BaresipSdkEventAdapter) : Type 0 where
  pub captured : b.captured ≡ nothing
  pub session : b.lifecycle.ingress.session ≡ 0
  pub mailbox : b.lifecycle.ingress.mailbox.session ≡ 0
  pub pending : b.lifecycle.ingress.mailbox.pending ≡ 0
  pub refusing : b.lifecycle.fence.accepting ≡ false
  pub unregistered : b.sip_registered ≡ false
  pub no_call : b.active_call ≡ 0
  pub no_token : b.active_token ≡ 0

abbrev pub Outcome : BaresipSdkEventAdapter → BaresipSdkEventAdapter → Type 0
Outcome a b = GoesOn a b ⊎ IsClosed b

fail_closed-IsClosed : (a : BaresipSdkEventAdapter) → IsClosed (fail_closed a)
unfolding fail_closed Lifecycle.reject_current Ingress.revoke Mailbox.invalidate_session Fence.close
fail_closed-IsClosed a = record {
  captured = refl;
  session = refl;
  mailbox = refl;
  pending = refl;
  refusing = refl;
  unregistered = refl;
  no_call = refl;
  no_token = refl;
}

GoesOn-refl : (a : BaresipSdkEventAdapter) → GoesOn a a
GoesOn-refl a = record { captured = refl; session = refl; owner = refl; registered = refl }

send_registration-Outcome :
    (a : BaresipSdkEventAdapter) (c : CapturedSession) (kind : BaresipEventKind) (ok : Bool)
    → registration_kind kind ≡ true
    → Outcome a (send_registration a c kind ok)
unfolding send_registration
send_registration-Outcome a c kind ok h =
    let l = (Lifecycle.report a.lifecycle c (Report.registration kind)).0 in
    ground (
      arith,
      fail_closed-IsClosed (record a { lifecycle = l }),
      report-registration a.lifecycle c kind h,
    )

open_call-Outcome :
    (a : BaresipSdkEventAdapter) (c : CapturedSession) (incoming : Bool) (call : ℕ)
    (is_registered : Bool)
    → Outcome a (open_call a c incoming call is_registered)
unfolding open_call mint
open_call-Outcome a c incoming call is_registered =
    let key = inc_u64 a.native_key in
    let l = (Lifecycle.report a.lifecycle c (Report.call_started key (call_kind incoming))).0 in
    ground (
      arith,
      fail_closed-IsClosed a,
      fail_closed-IsClosed (record a { lifecycle = l }),
      report-call_started a.lifecycle c key (call_kind incoming),
    )

change_call-Outcome :
    (a : BaresipSdkEventAdapter) (c : CapturedSession) (closes : Bool) (call : ℕ)
    → Outcome a (change_call a c closes call)
unfolding change_call
change_call-Outcome a c closes call =
    let kind = if closes then BaresipEventKind.call_closed else BaresipEventKind.call_established in
    let l = (Lifecycle.report a.lifecycle c (Report.call_changed a.native_key kind)).0 in
    ground (
      arith,
      fail_closed-IsClosed a,
      fail_closed-IsClosed (record a { lifecycle = l }),
      report-call_changed a.lifecycle c a.native_key kind,
    )

handle-Outcome :
    (kind : BeventKind) (a : BaresipSdkEventAdapter) (c : CapturedSession) (call : ℕ)
    (is_registered : Bool)
    → Outcome a (handle a c kind call is_registered)
unfolding handle
handle-Outcome BeventKind.registering a c call ok = ground (
  arith,
  fail_closed-IsClosed a,
  send_registration-Outcome a c BaresipEventKind.registering false refl,
)
handle-Outcome BeventKind.register_ok a c call ok = ground (
  arith,
  fail_closed-IsClosed a,
  send_registration-Outcome a c BaresipEventKind.register_ok true refl,
)
handle-Outcome BeventKind.register_fail a c call ok =
    send_registration-Outcome a c BaresipEventKind.register_fail false refl
handle-Outcome BeventKind.unregistering a c call ok =
    send_registration-Outcome a c BaresipEventKind.unregistering false refl
handle-Outcome BeventKind.audio_error a c call ok = inr (fail_closed-IsClosed a)
handle-Outcome BeventKind.call_incoming a c call ok = open_call-Outcome a c true call ok
handle-Outcome BeventKind.call_outgoing a c call ok = open_call-Outcome a c false call ok
handle-Outcome BeventKind.call_established a c call ok = change_call-Outcome a c false call
handle-Outcome BeventKind.call_closed a c call ok = change_call-Outcome a c true call
handle-Outcome BeventKind.call_transfer_failed a c call ok = ground arith
handle-Outcome kind a c call ok = inl (GoesOn-refl a)

on_event-Outcome : (a : BaresipSdkEventAdapter) (d : Delivery) → Outcome a (on_event a d)
on_event-Outcome a d =
    on_event_cases (Outcome a) a d (inl (GoesOn-refl a)) (inr (fail_closed-IsClosed a))
      (handle-Outcome d.kind a d.context (call_of d.event) d.is_registered)

give_back-Outcome : (a b : BaresipSdkEventAdapter) → Outcome a b → Outcome a (give_back b)
unfolding Fence.release_one
give_back-Outcome a b v = ground (arith, v)

-- After any callback, the session that was captured goes on, or all is given up: nothing is captured, no
-- session is open, what was in the mailbox is dropped, no callback is admitted and no call is held.
pub callback-Outcome : (a : BaresipSdkEventAdapter) (d : Delivery) → Outcome a (callback a d)
unfolding callback
callback-Outcome a d =
    let b = record a { lifecycle = (Lifecycle.hold_native_callback a.lifecycle d.context).0 } in
    ground (
      arith,
      hold-Gate a.lifecycle d.context,
      give_back-Outcome b (on_event b d) (on_event-Outcome b d),
    )

-- The event is not of the session that is captured, or is of no type that is read, or of another UA.
abbrev pub is_foreign : BaresipSdkEventAdapter → Delivery → Bool
is_foreign a d =
    not (same_epoch a d.context)
    || (not (is_exit d.kind) && (not (is_supported d.kind) || not (is_own a d.event)))

foreign_event :
    (a : BaresipSdkEventAdapter) (d : Delivery) → is_foreign a d ≡ true → on_event a d ≡ a
unfolding on_event
foreign_event a d h = ground (arith, h)

u64_back : (n : ℕ) → n < u64_mod → sub_u64 (inc_u64 n) 1 ≡ n
u64_back n h = ground arith

-- A lease that was handed out and is given back.
lease_back :
    (f : BaresipCallbackFence) (n : ℕ)
    → f.in_flight < u64_mod
    → (Fence.admit f n).1 ≡ true
    → Fence.release_one (Fence.admit f n).0 ≡ f
unfolding Fence.admit Fence.release_one
lease_back f n b h = ground (arith, u64_back f.in_flight b)

-- A callback of another session, of an event that is not read, or of another UA, changes nothing.
pub foreign_callback :
    (a : BaresipSdkEventAdapter) (d : Delivery)
    → a.lifecycle.fence.in_flight < u64_mod
    → is_foreign a d ≡ true
    → callback a d ≡ a
unfolding callback Lifecycle.hold_native_callback
foreign_callback a d b h =
    let held = record a { lifecycle = (Lifecycle.hold_native_callback a.lifecycle d.context).0 } in
    ground
      (arith, lease_back a.lifecycle.fence d.context.fence_generation b, foreign_event held d h)
