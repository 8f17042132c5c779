-- ===== src/Pipeline/NativeIngress.antt =====
-- src/baresip_native_ingress.h: the stricter ingress, which latches its first fault. The mailbox that
-- it refers to is part of the state; each method holds the mutex throughout. The `default` of the
-- switch on the signal is for values outside the enumeration, which the type of signals rules out.
pub mod Laws
use axe_voice_desktop.Prelude.{
  Bool, true, false, ℕ, zero, suc, ◌+◌, ◌-◌, ◌*◌, ◌/◌, ◌%◌, ◌^◌, ◌≤◌, ◌<◌, ◌≡◌, ◌≢◌, ◌↔◌, ◌⊎◌, ◌∙◌,
  ◌==◌, ◌!=◌, ◌||◌, ◌&&◌, not, if◌then◌else◌, leb, ltb, List, [], ◌∷◌, ◌++◌, map, Option, none,
  some, inl, inr, refl, sym, ap, arith, tests, Bool-cases, Option-cases, length, get_or, set, take,
  drop, replicate, pop_front, All, All-append, All-mono, length-append, length-set, get_or-set_self,
  get_or-set_ne, u64_mod, u64_max, inc_u64, sub_u64, lt→ltb, ltb→lt, leb→le, le→leb, ==_iff,
}
use axe_voice_desktop.Sip.Reducer.{BaresipEventKind, BaresipNativeEvent}
use axe_voice_desktop.Pipeline.Mailbox
use axe_voice_desktop.Pipeline.Mailbox.{BaresipEventMailbox}
use axe_voice_desktop.Pipeline.Ingress.{make_event}

pub data NativeSignal : Type 0 where
  registering register_ok register_fail unregistering : NativeSignal
  call_incoming call_outgoing call_established call_closed : NativeSignal
  transport_lost unrelated : NativeSignal

pub record NativeCallback : Type 0 where
  pub signal : NativeSignal
  pub session : ℕ  -- uint64_t
  pub account : ℕ  -- uintptr_t
  pub call : ℕ  -- uintptr_t

pub data NativeIngressResult : Type 0 where
  queued ignored rejected revoked : NativeIngressResult

-- `None` is spelled `no_fault`.
pub data NativeIngressFault : Type 0 where
  no_fault session_mismatch account_mismatch call_mismatch : NativeIngressFault
  malformed unrecognized queue_rejected : NativeIngressFault

pub record BaresipNativeIngress : Type 0 where
  pub queue : BaresipEventMailbox
  pub session : ℕ  -- uint64_t
  pub account : ℕ  -- uintptr_t
  pub call : ℕ  -- uintptr_t
  pub call_token : ℕ  -- uint64_t
  pub last_call_token : ℕ  -- uint64_t
  pub fault : NativeIngressFault

abbrev pub is_fault : NativeIngressFault → Bool
is_fault NativeIngressFault.no_fault = false
is_fault _ = true

-- `revoke(why)`
unfoldable pub revoke :
    BaresipNativeIngress → NativeIngressFault → BaresipNativeIngress × NativeIngressResult
revoke i why = (
  record {
    queue = Mailbox.invalidate_session i.queue;
    session = 0;
    account = 0;
    call = 0;
    call_token = 0;
    last_call_token = 0;
    fault = why;
  },
  NativeIngressResult.revoked,
)

unfoldable pub bind_validated_account : BaresipNativeIngress → ℕ → BaresipNativeIngress × ℕ
bind_validated_account i account =
    if account == 0 || i.session != 0 || is_fault i.fault
    then (i, 0)
    else let (q, next) = Mailbox.begin_session i.queue in
      if next == 0
      then (record i { queue = q; fault = NativeIngressFault.queue_rejected }, 0)
      else (
        record i {
          queue = q;
          account = account;
          session = next;
          call = 0;
          call_token = 0;
          last_call_token = 0;
        },
        next,
      )

-- What the switch on the signal sets: the event, `call_signal`, `starts_call`, `closes_call`.
pub record Decoded : Type 0 where
  pub event : BaresipEventKind
  pub call_signal : Bool
  pub starts_call : Bool
  pub closes_call : Bool

abbrev plain : BaresipEventKind → Option Decoded
plain event =
    some (record { event = event; call_signal = false; starts_call = false; closes_call = false })

abbrev starting : BaresipEventKind → Option Decoded
starting event =
    some (record { event = event; call_signal = true; starts_call = true; closes_call = false })

-- `none` for a signal that is not an event.
abbrev pub decode : NativeSignal → Option Decoded
decode NativeSignal.registering = plain BaresipEventKind.registering
decode NativeSignal.register_ok = plain BaresipEventKind.register_ok
decode NativeSignal.register_fail = plain BaresipEventKind.register_fail
decode NativeSignal.unregistering = plain BaresipEventKind.unregistering
decode NativeSignal.call_incoming = starting BaresipEventKind.call_incoming
decode NativeSignal.call_outgoing = starting BaresipEventKind.call_outgoing
decode NativeSignal.call_established = some (record {
  event = BaresipEventKind.call_established;
  call_signal = true;
  starts_call = false;
  closes_call = false;
})
decode NativeSignal.call_closed = some (record {
  event = BaresipEventKind.call_closed;
  call_signal = true;
  starts_call = false;
  closes_call = true;
})
decode NativeSignal.transport_lost = plain BaresipEventKind.transport_lost
decode NativeSignal.unrelated = none

abbrev pub is_transport_lost : NativeSignal → Bool
is_transport_lost NativeSignal.transport_lost = true
is_transport_lost _ = false

-- From `queue_.enqueue` on: the identity of a new call is kept only once its event is queued.
unfoldable pub publish :
    BaresipNativeIngress → NativeCallback → Decoded → ℕ → BaresipNativeIngress × NativeIngressResult
publish i cb d token =
    let (q, sent) = Mailbox.enqueue i.queue (make_event d.event i.session token) in
    let i' = record i { queue = q } in
    if not sent
    then revoke i' NativeIngressFault.queue_rejected
    else let j =
        if d.starts_call && i.call == 0
        then record i' { call = cb.call; call_token = token; last_call_token = token }
        else i' in
      (
        if d.closes_call || is_transport_lost cb.signal
            then record j { call = 0; call_token = 0 }
            else j,
        NativeIngressResult.queued,
      )

-- The checks on the call and the choice of its token.
unfoldable pub admit_event :
    BaresipNativeIngress → NativeCallback → Decoded → BaresipNativeIngress × NativeIngressResult
admit_event i cb d =
    if not d.call_signal
    then if cb.call != 0 then revoke i NativeIngressFault.malformed else publish i cb d 0
    else if cb.call == 0
    then revoke i NativeIngressFault.call_mismatch
    else if d.starts_call && i.call == 0
    then if i.last_call_token == u64_max
      then revoke i NativeIngressFault.call_mismatch
      else publish i cb d (inc_u64 i.last_call_token)
    else if i.call == 0 || cb.call != i.call
    then revoke i NativeIngressFault.call_mismatch
    else publish i cb d i.call_token

unfoldable pub accept :
    BaresipNativeIngress → NativeCallback → BaresipNativeIngress × NativeIngressResult
accept i cb =
    if i.session == 0 || is_fault i.fault
    then (i, NativeIngressResult.rejected)
    else if cb.session != i.session
    then revoke i NativeIngressFault.session_mismatch
    else if cb.account == 0 || cb.account != i.account
    then revoke i NativeIngressFault.account_mismatch
    else elim (decode cb.signal) [
      | none ↦
          if cb.call == 0
          then (i, NativeIngressResult.ignored)
          else revoke i NativeIngressFault.malformed
      | some d ↦ admit_event i cb d
    ]

unfoldable pub reset_after_teardown : BaresipNativeIngress → BaresipNativeIngress
reset_after_teardown i = record {
  queue = Mailbox.invalidate_session i.queue;
  session = 0;
  account = 0;
  call = 0;
  call_token = 0;
  last_call_token = 0;
  fault = NativeIngressFault.no_fault;
}

-- A sequence of callbacks, the first one first.
unfoldable pub accept_all : BaresipNativeIngress → List NativeCallback → BaresipNativeIngress
accept_all i [] = i
accept_all i (cb ∷ cbs) = accept_all (accept i cb).0 cbs
