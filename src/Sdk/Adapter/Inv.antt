-- ===== src/Sdk/Adapter/Inv.antt =====
-- The adapter and the ingress behind it agree on the session and on the call.
use axe_voice_desktop.Prelude.{
  Bool, true, false, ℕ, ◌≤◌, ◌<◌, ◌≡◌, ◌≢◌, refl, arith, u64_mod, u64_max, inc_u64,
}
use axe_voice_desktop.Sip.Reducer.{BaresipEventKind}
use axe_voice_desktop.Pipeline.Fence
use axe_voice_desktop.Pipeline.Ingress
use axe_voice_desktop.Pipeline.Ingress.{registration_kind, closing_kind}
use axe_voice_desktop.Pipeline.Lifecycle
use axe_voice_desktop.Pipeline.Lifecycle.{
  BaresipCallbackLifecycle, CapturedSession, Report, is_captured,
}
use axe_voice_desktop.Sdk.Event.{BeventKind, Delivery}
use axe_voice_desktop.Sdk.Adapter.{
  BaresipSdkEventAdapter, active, fail_closed, stop, send_registration, mint, open_call,
  change_call, handle, on_event, callback, give_back, call_kind, call_of,
}
use axe_voice_desktop.Sdk.Adapter.Reports.{
  report-Gate, hold-Gate, report-registration, report-call_started, report-call_changed,
}

-- What is captured is the session of the ingress, its account the owner, and callbacks are admitted.
pub record IsLive (a : BaresipSdkEventAdapter) : Type 0 where
  pub session : a.lifecycle.ingress.session ≡ a.captured.mailbox_session
  pub account : a.lifecycle.ingress.account ≡ a.captured.account_identity
  pub owner : a.owner ≡ a.captured.account_identity
  pub registered : a.registered ≡ true
  pub accepting : a.lifecycle.fence.accepting ≡ true
  pub not_closing : a.lifecycle.fence.closing ≡ false
  pub generation : a.lifecycle.fence.generation ≡ a.captured.fence_generation
  pub key : a.lifecycle.ingress.last_native_key ≡ a.native_key

-- The call that is held has the token that the ingress has issued; a session is open exactly while one is
-- captured.
pub record IsAgreed (a : BaresipSdkEventAdapter) : Type 0 where
  pub token : a.active_token ≡ a.lifecycle.ingress.active_token
  pub some_call : a.active_call ≢ 0 → a.active_token ≢ 0
  pub no_call : a.active_call ≡ 0 → a.active_token ≡ 0
  pub key : a.active_token ≢ 0 → a.lifecycle.ingress.active_native_key ≡ a.native_key
  pub idle : is_captured a.captured ≡ false → a.lifecycle.ingress.session ≡ 0
  pub blank : a.lifecycle.ingress.session ≡ 0 → a.lifecycle.ingress.active_token ≡ 0
  pub live : is_captured a.captured ≡ true → IsLive a
  pub newest : a.active_token ≤ a.lifecycle.ingress.last_token
  pub word : a.lifecycle.ingress.last_token < u64_mod

pub fail_closed-IsAgreed : (a : BaresipSdkEventAdapter) → IsAgreed (fail_closed a)
unfolding fail_closed Lifecycle.reject_current Ingress.revoke
fail_closed-IsAgreed a = ground arith

pub stop-IsAgreed : (a : BaresipSdkEventAdapter) → IsAgreed (stop a)
unfolding stop Lifecycle.revoke_and_wait Lifecycle.reject_current Ingress.revoke
stop-IsAgreed a = ground arith

send_registration-IsAgreed :
    (a : BaresipSdkEventAdapter) (c : CapturedSession) (kind : BaresipEventKind) (ok : Bool)
    → registration_kind kind ≡ true
    → is_captured a.captured ≡ true
    → IsAgreed a
    → IsAgreed (send_registration a c kind ok)
unfolding send_registration
send_registration-IsAgreed a c kind ok h captured v =
    let r = Report.registration kind in
    let l = (Lifecycle.report a.lifecycle c r).0 in
    ground (
      arith,
      fail_closed-IsAgreed (record a { lifecycle = l }),
      report-Gate a.lifecycle c r,
      report-registration a.lifecycle c kind h,
    )

mint-IsAgreed :
    (a : BaresipSdkEventAdapter) (c : CapturedSession) (incoming : Bool) (call : ℕ)
    → call ≢ 0
    → a.native_key ≢ u64_max
    → is_captured a.captured ≡ true
    → IsAgreed a
    → IsAgreed (mint a c incoming call)
unfolding mint
mint-IsAgreed a c incoming call some' room captured v =
    let key = inc_u64 a.native_key in
    let r = Report.call_started key (call_kind incoming) in
    let l = (Lifecycle.report a.lifecycle c r).0 in
    ground (
      arith,
      fail_closed-IsAgreed (record a { lifecycle = l }),
      report-Gate a.lifecycle c r,
      report-call_started a.lifecycle c key (call_kind incoming),
    )

open_call-IsAgreed :
    (a : BaresipSdkEventAdapter) (c : CapturedSession) (incoming : Bool) (call : ℕ)
    (is_registered : Bool)
    → is_captured a.captured ≡ true
    → IsAgreed a
    → IsAgreed (open_call a c incoming call is_registered)
unfolding open_call
open_call-IsAgreed a c incoming call is_registered captured v =
    ground (arith, fail_closed-IsAgreed a, mint-IsAgreed a c incoming call)

change_call-IsAgreed :
    (a : BaresipSdkEventAdapter) (c : CapturedSession) (closed : Bool) (call : ℕ)
    → is_captured a.captured ≡ true
    → IsAgreed a
    → IsAgreed (change_call a c closed call)
unfolding change_call
change_call-IsAgreed a c true call captured v =
    let r = Report.call_changed a.native_key BaresipEventKind.call_closed in
    let l = (Lifecycle.report a.lifecycle c r).0 in
    ground (
      arith,
      fail_closed-IsAgreed a,
      fail_closed-IsAgreed (record a { lifecycle = l }),
      report-Gate a.lifecycle c r,
      report-call_changed a.lifecycle c a.native_key BaresipEventKind.call_closed,
    )
change_call-IsAgreed a c false call captured v =
    let r = Report.call_changed a.native_key BaresipEventKind.call_established in
    let l = (Lifecycle.report a.lifecycle c r).0 in
    ground (
      arith,
      fail_closed-IsAgreed a,
      fail_closed-IsAgreed (record a { lifecycle = l }),
      report-Gate a.lifecycle c r,
      report-call_changed a.lifecycle c a.native_key BaresipEventKind.call_established,
    )

transfer_failed-IsAgreed :
    (a : BaresipSdkEventAdapter) → IsAgreed a → IsAgreed (record a { transfer_failed = true })
transfer_failed-IsAgreed a v = ground arith

handle-IsAgreed :
    (kind : BeventKind) (a : BaresipSdkEventAdapter) (c : CapturedSession) (call : ℕ)
    (is_registered : Bool)
    → is_captured a.captured ≡ true
    → IsAgreed a
    → IsAgreed (handle a c kind call is_registered)
unfolding handle
handle-IsAgreed BeventKind.registering a c call ok captured v = ground (
  arith,
  fail_closed-IsAgreed a,
  send_registration-IsAgreed a c BaresipEventKind.registering false refl captured v,
)
handle-IsAgreed BeventKind.register_ok a c call ok captured v = ground (
  arith,
  fail_closed-IsAgreed a,
  send_registration-IsAgreed a c BaresipEventKind.register_ok true refl captured v,
)
handle-IsAgreed BeventKind.register_fail a c call ok captured v =
    send_registration-IsAgreed a c BaresipEventKind.register_fail false refl captured v
handle-IsAgreed BeventKind.unregistering a c call ok captured v =
    send_registration-IsAgreed a c BaresipEventKind.unregistering false refl captured v
handle-IsAgreed BeventKind.audio_error a c call ok captured v = fail_closed-IsAgreed a
handle-IsAgreed BeventKind.call_incoming a c call ok captured v =
    open_call-IsAgreed a c true call ok captured v
handle-IsAgreed BeventKind.call_outgoing a c call ok captured v =
    open_call-IsAgreed a c false call ok captured v
handle-IsAgreed BeventKind.call_established a c call ok captured v =
    change_call-IsAgreed a c false call captured v
handle-IsAgreed BeventKind.call_closed a c call ok captured v =
    change_call-IsAgreed a c true call captured v
handle-IsAgreed BeventKind.call_transfer_failed a c call ok captured v =
    ground (arith, transfer_failed-IsAgreed a v)
handle-IsAgreed BeventKind.shutdown a c call ok captured v = v
handle-IsAgreed BeventKind.exit a c call ok captured v = v
handle-IsAgreed BeventKind.unsupported a c call ok captured v = v

active_is_captured : (a : BaresipSdkEventAdapter) → active a ≡ true → is_captured a.captured ≡ true
unfolding active
active_is_captured a h = ground arith

on_event-IsAgreed :
    (a : BaresipSdkEventAdapter) (d : Delivery) → IsAgreed a → IsAgreed (on_event a d)
unfolding on_event
on_event-IsAgreed a d v =
    let handled = λ (h : is_captured a.captured ≡ true).
      handle-IsAgreed d.kind a d.context (call_of d.event) d.is_registered h v in
    ground (
      arith,
      fail_closed-IsAgreed a,
      active_is_captured a,
      handle-IsAgreed d.kind a d.context (call_of d.event) d.is_registered,
    )

give_back-IsAgreed : (a : BaresipSdkEventAdapter) → IsAgreed a → IsAgreed (give_back a)
unfolding Fence.release_one
give_back-IsAgreed a v = ground arith

pub held-IsAgreed :
    (a : BaresipSdkEventAdapter) (c : CapturedSession)
    → IsAgreed a
    → IsAgreed (record a { lifecycle = (Lifecycle.hold_native_callback a.lifecycle c).0 })
held-IsAgreed a c v = ground (arith, hold-Gate a.lifecycle c)

-- Every callback of the SDK, whatever its context, leaves the adapter and the ingress agreed.
pub callback-IsAgreed :
    (a : BaresipSdkEventAdapter) (d : Delivery) → IsAgreed a → IsAgreed (callback a d)
unfolding callback
callback-IsAgreed a d v =
    let b = record a { lifecycle = (Lifecycle.hold_native_callback a.lifecycle d.context).0 } in
    let w = held-IsAgreed a d.context v in
    ground (arith, w, give_back-IsAgreed (on_event b d) (on_event-IsAgreed b d w))
