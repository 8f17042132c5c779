-- ===== src/Pipeline/Ingress.antt =====
-- src/baresip_callback_ingress.h: the ingress that admits native callbacks of one account and one
-- session, and gives each call a token. The mailbox that it refers to is part of the state. Each
-- method holds the mutex throughout.
pub mod Laws
pub mod Agree
pub mod Session
use axe_voice_desktop.Prelude.{
  Bool, true, false, ℕ, zero, suc, ◌+◌, ◌-◌, ◌*◌, ◌/◌, ◌%◌, ◌^◌, ◌≤◌, ◌<◌, ◌≡◌, ◌≢◌, ◌↔◌, ◌⊎◌, ◌∙◌,
  ◌==◌, ◌!=◌, ◌||◌, ◌&&◌, not, if◌then◌else◌, leb, ltb, List, [], ◌∷◌, ◌++◌, map, Option, none,
  some, inl, inr, refl, sym, ap, arith, tests, Bool-cases, Option-cases, length, get_or, set, take,
  drop, replicate, pop_front, All, All-append, All-mono, length-append, length-set, get_or-set_self,
  get_or-set_ne, u64_mod, u64_max, inc_u64, sub_u64, lt→ltb, ltb→lt, leb→le, le→leb, ==_iff,
}
use axe_voice_desktop.Sip.Reducer.{BaresipEventKind, BaresipNativeEvent}
use axe_voice_desktop.Pipeline.Mailbox
use axe_voice_desktop.Pipeline.Mailbox.{BaresipEventMailbox}

pub record BaresipCallbackIngress : Type 0 where
  pub mailbox : BaresipEventMailbox
  pub session : ℕ  -- uint64_t
  pub account : ℕ  -- uintptr_t
  pub active_native_key : ℕ  -- uint64_t
  pub active_token : ℕ  -- uint64_t
  pub last_native_key : ℕ  -- uint64_t
  pub last_token : ℕ  -- uint64_t

abbrev pub make_ingress : BaresipEventMailbox → BaresipCallbackIngress
make_ingress m = record {
  mailbox = m;
  session = 0;
  account = 0;
  active_native_key = 0;
  active_token = 0;
  last_native_key = 0;
  last_token = 0;
}

-- `{kind, session_, call_token}`
abbrev pub make_event : BaresipEventKind → ℕ → ℕ → BaresipNativeEvent
make_event kind session call_token = record {
  kind = kind;
  session = session;
  call_id = call_token;
  account_token = 0;
  call_token = 0;
}

unfoldable pub begin_session : BaresipCallbackIngress → ℕ → BaresipCallbackIngress × ℕ
begin_session i validated_account =
    if validated_account == 0 || i.session != 0
    then (i, 0)
    else let (m, s) = Mailbox.begin_session i.mailbox in
      (
        record {
          mailbox = m;
          session = s;
          account = if s == 0 then 0 else validated_account;
          active_native_key = 0;
          active_token = 0;
          last_native_key = 0;
          last_token = 0;
        },
        s,
      )

-- `revoke_locked`, and `revoke` round it.
unfoldable pub revoke : BaresipCallbackIngress → BaresipCallbackIngress
revoke i = make_ingress (Mailbox.invalidate_session i.mailbox)

-- `admit_locked`: a late callback of another generation is turned away, another account revokes.
unfoldable pub admit : BaresipCallbackIngress → ℕ → ℕ → BaresipCallbackIngress × Bool
admit i callback_session callback_account =
    if not (i.session != 0 && callback_session == i.session)
    then (i, false)
    else if callback_account == 0 || callback_account != i.account
    then (revoke i, false)
    else (i, true)

-- `enqueue_locked`
unfoldable pub enqueue :
    BaresipCallbackIngress → BaresipEventKind → ℕ → BaresipCallbackIngress × Bool
enqueue i kind call_token =
    let (m, sent) = Mailbox.enqueue i.mailbox (make_event kind i.session call_token) in
    let i' = record i { mailbox = m } in if sent then (i', true) else (revoke i', false)

-- The `switch` of `registration`.
abbrev pub registration_kind : BaresipEventKind → Bool
registration_kind BaresipEventKind.registering = true
registration_kind BaresipEventKind.register_ok = true
registration_kind BaresipEventKind.register_fail = true
registration_kind BaresipEventKind.unregistering = true
registration_kind _ = false

abbrev pub is_transport_lost : BaresipEventKind → Bool
is_transport_lost BaresipEventKind.transport_lost = true
is_transport_lost _ = false

-- `registration`, past the admission.
unfoldable pub register : BaresipCallbackIngress → BaresipEventKind → BaresipCallbackIngress × Bool
register j kind =
    if registration_kind kind
    then enqueue j kind 0
    else if is_transport_lost kind
    then enqueue (record j { active_native_key = 0; active_token = 0 }) kind 0
    else (revoke j, false)

unfoldable pub registration :
    BaresipCallbackIngress → ℕ → ℕ → BaresipEventKind → BaresipCallbackIngress × Bool
registration i callback_session callback_account kind =
    let (j, admitted) = admit i callback_session callback_account in
    if not admitted then (j, false) else register j kind

abbrev pub opening_kind : BaresipEventKind → Bool
opening_kind BaresipEventKind.call_incoming = true
opening_kind BaresipEventKind.call_outgoing = true
opening_kind _ = false

-- `call_started`, past the admission. The last component is `*emitted_token`.
unfoldable pub start_call :
    BaresipCallbackIngress → ℕ → BaresipEventKind → BaresipCallbackIngress × Bool × ℕ
start_call j native_call_key kind =
    if not (opening_kind kind)
      || native_call_key == 0
      || leb native_call_key j.last_native_key
      || j.active_native_key != 0
      || j.last_token == u64_max
    then (revoke j, false, 0)
    else let token = inc_u64 j.last_token in
      let (k, sent) = enqueue j kind token in
      if not sent then (k, false, 0) else (
        record k {
          active_native_key = native_call_key;
          active_token = token;
          last_native_key = native_call_key;
          last_token = token;
        },
        true,
        token,
      )

unfoldable pub call_started :
    BaresipCallbackIngress → ℕ → ℕ → ℕ → BaresipEventKind → BaresipCallbackIngress × Bool × ℕ
call_started i callback_session callback_account native_call_key kind =
    let (j, admitted) = admit i callback_session callback_account in
    if not admitted then (j, false, 0) else start_call j native_call_key kind

abbrev pub changing_kind : BaresipEventKind → Bool
changing_kind BaresipEventKind.call_established = true
changing_kind BaresipEventKind.call_closed = true
changing_kind _ = false

abbrev pub closing_kind : BaresipEventKind → Bool
closing_kind BaresipEventKind.call_closed = true
closing_kind _ = false

-- `call_changed`, past the admission.
unfoldable pub change_call :
    BaresipCallbackIngress → ℕ → BaresipEventKind → BaresipCallbackIngress × Bool
change_call j native_call_key kind =
    if not (changing_kind kind)
      || native_call_key == 0
      || native_call_key != j.active_native_key
      || j.active_token == 0
    then (revoke j, false)
    else let (k, sent) = enqueue j kind j.active_token in
      if not sent
      then (k, false)
      else if closing_kind kind
      then (record k { active_native_key = 0; active_token = 0 }, true)
      else (k, true)

unfoldable pub call_changed :
    BaresipCallbackIngress → ℕ → ℕ → ℕ → BaresipEventKind → BaresipCallbackIngress × Bool
call_changed i callback_session callback_account native_call_key kind =
    let (j, admitted) = admit i callback_session callback_account in
    if not admitted then (j, false) else change_call j native_call_key kind

-- A callback, as the native side makes it.
pub data Callback : Type 0 where
  on_registration : ℕ → ℕ → BaresipEventKind → Callback
  on_call_started on_call_changed : ℕ → ℕ → ℕ → BaresipEventKind → Callback

-- One callback: the new state, and whether it was accepted.
unfoldable pub accept : BaresipCallbackIngress → Callback → BaresipCallbackIngress × Bool
accept i (Callback.on_registration s a kind) = registration i s a kind
accept i (Callback.on_call_started s a key kind) =
    let (j, done, token) = call_started i s a key kind in (j, done)
accept i (Callback.on_call_changed s a key kind) = call_changed i s a key kind
