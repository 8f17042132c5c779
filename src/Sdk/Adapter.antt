-- ===== src/Sdk/Adapter.antt =====
-- src/baresip_sdk_event_adapter.h: the bridge of one UA and one call at a time. All of it runs on the
-- thread of the event loop. The claim of the handler is shared by the adapters of the process; a failed
-- allocation is not modelled.
pub mod Reports
pub mod Inv
pub mod History
pub mod Moves
pub mod Steps
pub mod Closing
use axe_voice_desktop.Prelude.{
  Bool, true, false, ℕ, zero, suc, ◌+◌, ◌-◌, ◌*◌, ◌/◌, ◌%◌, ◌^◌, ◌≤◌, ◌<◌, ◌≡◌, ◌≢◌, ◌↔◌, ◌⊎◌, ◌∙◌,
  ◌==◌, ◌!=◌, ◌||◌, ◌&&◌, not, if◌then◌else◌, leb, ltb, List, [], ◌∷◌, ◌++◌, map, append_assoc,
  append-nil, Option, none, some, inl, inr, refl, sym, ap, arith, tests, Bool-cases, Option-cases,
  length, get_or, set, take, drop, replicate, pop_front, All, All-append, All-mono, All-take,
  length-append, length-set, length-take, get_or-set_self, get_or-set_ne, u64_mod, u64_max, inc_u64,
  sub_u64, Text, codes, text_eq, is_empty, any, all, between, is_digit, is_letter, is_alnum,
  text_eq→≡, text_eq_refl, Before, newer_session, newer_sequence, NewerFrom, NewerFrom-mono,
  NotAfter, newer, same_or_later, NotAfter-trans, lt→ltb, ltb→lt, leb→le, le→leb, ==_iff,
}
use axe_voice_desktop.Sip.Reducer.{BaresipEventKind}
use axe_voice_desktop.Pipeline.Fence
use axe_voice_desktop.Pipeline.Ingress
use axe_voice_desktop.Pipeline.Lifecycle
use axe_voice_desktop.Pipeline.Lifecycle.{
  BaresipCallbackLifecycle, CapturedSession, Report, is_captured, nothing,
}
use axe_voice_desktop.Sdk.Event.{BeventKind, Bevent, Delivery}

-- `process_owner_`: null, this adapter, or another one.
pub data Claim : Type 0 where
  free ours theirs : Claim

abbrev pub is_free : Claim → Bool
is_free Claim.free = true
is_free _ = false

abbrev pub released : Claim → Claim
released Claim.ours = Claim.free
released c = c

pub record BaresipSdkEventAdapter : Type 0 where
  pub lifecycle : BaresipCallbackLifecycle
  pub claim : Claim
  pub owner : ℕ  -- struct ua*
  pub active_call : ℕ  -- const struct call*
  pub seen_calls : List ℕ
  pub captured : CapturedSession
  pub contexts : List CapturedSession
  pub native_key : ℕ  -- uint64_t
  pub active_token : ℕ  -- uint64_t
  pub registered : Bool
  pub sip_registered : Bool
  pub active_incoming : Bool
  pub call_established : Bool
  pub hangup_sent : Bool
  pub answer_sent : Bool
  pub transfer_attempted : Bool
  pub transfer_failed : Bool

abbrev pub make_adapter : BaresipCallbackLifecycle → BaresipSdkEventAdapter
make_adapter l = record {
  lifecycle = l;
  claim = Claim.free;
  owner = 0;
  active_call = 0;
  seen_calls = [];
  captured = nothing;
  contexts = [];
  native_key = 0;
  active_token = 0;
  registered = false;
  sip_registered = false;
  active_incoming = false;
  call_established = false;
  hangup_sent = false;
  answer_sent = false;
  transfer_attempted = false;
  transfer_failed = false;
}

abbrev pub k_max_contexts : ℕ
k_max_contexts = 512

abbrev pub k_max_calls : ℕ
k_max_calls = 4096

unfoldable pub active : BaresipSdkEventAdapter → Bool
active a = a.registered && is_captured a.captured && Lifecycle.is_live a.lifecycle a.captured

unfoldable pub session : BaresipSdkEventAdapter → ℕ
session a = if active a then a.captured.mailbox_session else 0

-- `is_registered` is what `ua_isregistered` says of the owner.
unfoldable pub native_register_ok_seen : BaresipSdkEventAdapter → Bool → Bool
native_register_ok_seen a is_registered =
    active a && a.sip_registered && a.owner != 0 && is_registered

-- The fields of a call, and of its controls.
abbrev pub without_call : BaresipSdkEventAdapter → BaresipSdkEventAdapter
without_call a = record a {
  active_call = 0;
  active_token = 0;
  active_incoming = false;
  call_established = false;
  hangup_sent = false;
  answer_sent = false;
  transfer_attempted = false;
  transfer_failed = false;
}

-- The registration and the call are given up; an explicit `stop` is needed before a new start.
unfoldable pub fail_closed : BaresipSdkEventAdapter → BaresipSdkEventAdapter
fail_closed a = record (without_call a) {
  lifecycle = Lifecycle.reject_current a.lifecycle;
  captured = nothing;
  sip_registered = false;
}

unfoldable pub stop : BaresipSdkEventAdapter → BaresipSdkEventAdapter
stop a = record (without_call a) {
  lifecycle = Lifecycle.revoke_and_wait a.lifecycle;
  claim = released a.claim;
  registered = false;
  owner = 0;
  captured = nothing;
  native_key = 0;
  sip_registered = false;
  seen_calls = [];
}

-- A new generation, once the claim has been made; `error` is what `bevent_register` returns.
unfoldable pub register :
    BaresipSdkEventAdapter → ℕ → CapturedSession → ℕ → BaresipSdkEventAdapter × Bool
register a owned_ua captured error =
    let b = record (without_call a) {
      owner = owned_ua;
      captured = captured;
      native_key = 0;
      sip_registered = false;
      seen_calls = [];
      contexts = a.contexts ++ (captured ∷ []);
    } in
    if error != 0
    then (
      record b {
        lifecycle = Lifecycle.revoke_and_wait a.lifecycle;
        registered = false;
        owner = 0;
        captured = nothing;
      },
      false,
    )
    else (record b { claim = Claim.ours; registered = true }, true)

unfoldable pub start : BaresipSdkEventAdapter → ℕ → ℕ → BaresipSdkEventAdapter × Bool
start a owned_ua error =
    let (l, captured) = Lifecycle.begin a.lifecycle owned_ua in
    if a.registered || owned_ua == 0 || leb k_max_contexts (length a.contexts)
    then (a, false)
    else if not (is_free a.claim)
    then (a, false)
    else if not (is_captured captured)
    then (record a { lifecycle = l }, false)
    else register (record a { lifecycle = l }) owned_ua captured error

abbrev pub same_epoch : BaresipSdkEventAdapter → CapturedSession → Bool
same_epoch a captured =
    captured.fence_generation == a.captured.fence_generation
    && captured.mailbox_session == a.captured.mailbox_session

-- The `switch` on the types that may be read as events of a UA.
abbrev pub is_supported : BeventKind → Bool
is_supported BeventKind.unsupported = false
is_supported BeventKind.exit = false
is_supported _ = true

abbrev pub is_exit : BeventKind → Bool
is_exit BeventKind.exit = true
is_exit _ = false

-- The event is there and belongs to the UA.
abbrev pub is_own : BaresipSdkEventAdapter → Option Bevent → Bool
is_own a none = false
is_own a (some e) = e.ua == a.owner

abbrev pub call_of : Option Bevent → ℕ
call_of none = 0
call_of (some e) = e.call

-- A registration event is passed on, or everything is given up.
unfoldable pub send_registration :
    BaresipSdkEventAdapter → CapturedSession → BaresipEventKind → Bool → BaresipSdkEventAdapter
send_registration a captured kind sip_registered =
    let (l, accepted) = Lifecycle.report a.lifecycle captured (Report.registration kind) in
    if not accepted
    then fail_closed (record a { lifecycle = l })
    else record a { lifecycle = l; sip_registered = sip_registered }

abbrev pub call_kind : Bool → BaresipEventKind
call_kind true = BaresipEventKind.call_incoming
call_kind false = BaresipEventKind.call_outgoing

-- `minted_token`, if the call is accepted.
unfoldable pub minted : BaresipCallbackLifecycle → CapturedSession → ℕ → BaresipEventKind → ℕ
minted l captured key kind =
    (Ingress.call_started l.ingress captured.mailbox_session captured.account_identity key kind).2

-- A new call is passed on under the next key.
unfoldable pub mint : BaresipSdkEventAdapter → CapturedSession → Bool → ℕ → BaresipSdkEventAdapter
mint a captured incoming call =
    let new_key = inc_u64 a.native_key in
    let token = minted a.lifecycle captured new_key (call_kind incoming) in
    let (l, accepted) =
      Lifecycle.report a.lifecycle captured (Report.call_started new_key (call_kind incoming)) in
    if not accepted || token == 0
    then fail_closed (record a { lifecycle = l })
    else record (without_call a) {
      lifecycle = l;
      native_key = new_key;
      active_call = call;
      active_token = token;
      active_incoming = incoming;
      seen_calls = call ∷ a.seen_calls;
    }

unfoldable pub open_call :
    BaresipSdkEventAdapter → CapturedSession → Bool → ℕ → Bool → BaresipSdkEventAdapter
open_call a captured incoming call is_registered =
    if not (native_register_ok_seen a is_registered)
    then fail_closed a
    else if not is_registered
    then fail_closed a
    else if call == 0
        || a.active_call != 0
        || any (λ c. c == call) a.seen_calls
        || leb k_max_calls (length a.seen_calls)
        || a.native_key == u64_max
    then fail_closed a
    else mint a captured incoming call

unfoldable pub change_call :
    BaresipSdkEventAdapter → CapturedSession → Bool → ℕ → BaresipSdkEventAdapter
change_call a captured closed call =
    let kind = if closed then BaresipEventKind.call_closed else BaresipEventKind.call_established in
    let (l, accepted) =
      Lifecycle.report a.lifecycle captured (Report.call_changed a.native_key kind) in
    if call == 0 || call != a.active_call
    then fail_closed a
    else if not accepted
    then fail_closed (record a { lifecycle = l })
    else if closed
    then without_call (record a { lifecycle = l })
    else record a { lifecycle = l; call_established = true }

-- The last `switch`, on an event of the UA.
unfoldable pub handle :
    BaresipSdkEventAdapter → CapturedSession → BeventKind → ℕ → Bool → BaresipSdkEventAdapter
handle a captured BeventKind.audio_error call is_registered = fail_closed a
handle a captured BeventKind.registering call is_registered =
    if a.active_call != 0
    then if not a.sip_registered || not is_registered then fail_closed a else a
    else send_registration a captured BaresipEventKind.registering false
handle a captured BeventKind.register_ok call is_registered =
    if not is_registered
    then fail_closed a
    else if a.active_call != 0 && a.sip_registered
    then a
    else send_registration a captured BaresipEventKind.register_ok true
handle a captured BeventKind.register_fail call is_registered =
    send_registration a captured BaresipEventKind.register_fail false
handle a captured BeventKind.unregistering call is_registered =
    send_registration a captured BaresipEventKind.unregistering false
handle a captured BeventKind.call_transfer_failed call is_registered =
    if a.transfer_attempted && a.active_call != 0 && call == a.active_call
    then record a { transfer_failed = true }
    else a
handle a captured BeventKind.call_incoming call is_registered =
    open_call a captured true call is_registered
handle a captured BeventKind.call_outgoing call is_registered =
    open_call a captured false call is_registered
handle a captured BeventKind.call_established call is_registered = change_call a captured false call
handle a captured BeventKind.call_closed call is_registered = change_call a captured true call
handle a captured _ call is_registered = a

abbrev pub is_shutdown : BeventKind → Bool
is_shutdown BeventKind.shutdown = true
is_shutdown _ = false

unfoldable pub on_event : BaresipSdkEventAdapter → Delivery → BaresipSdkEventAdapter
on_event a d =
    if not (same_epoch a d.context) || not (active a)
    then a
    else if is_exit d.kind
    then fail_closed a
    else if not (is_supported d.kind)
    then a
    else if not (is_own a d.event)
    then a
    else if is_shutdown d.kind
    then fail_closed a
    else handle a d.context d.kind (call_of d.event) d.is_registered

-- The lease round the callback is given back.
abbrev pub give_back : BaresipSdkEventAdapter → BaresipSdkEventAdapter
give_back a = record a {
  lifecycle = record (a.lifecycle) { fence = Fence.release_one (a.lifecycle.fence) };
}

unfoldable pub callback : BaresipSdkEventAdapter → Delivery → BaresipSdkEventAdapter
callback a d =
    let (l, held) = Lifecycle.hold_native_callback a.lifecycle d.context in
    let b = record a { lifecycle = l } in if held then give_back (on_event b d) else b

unfoldable pub run : BaresipSdkEventAdapter → List Delivery → BaresipSdkEventAdapter
run a [] = a
run a (d ∷ ds) = run (callback a d) ds
