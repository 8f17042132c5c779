-- ===== src/Pipeline/Lifecycle.antt =====
-- src/baresip_callback_lifecycle.h, `BaresipCallbackLifecycle`: the fence round the ingress.
pub mod Threads
pub mod Quiescence
use axe_voice_desktop.Prelude.{
  Bool, true, false, ℕ, zero, suc, ◌+◌, ◌-◌, ◌*◌, ◌/◌, ◌%◌, ◌^◌, ◌≤◌, ◌<◌, ◌≡◌, ◌≢◌, ◌↔◌, ◌⊎◌, ◌∙◌,
  ◌==◌, ◌!=◌, ◌||◌, ◌&&◌, not, if◌then◌else◌, leb, ltb, List, [], ◌∷◌, ◌++◌, map, Option, none,
  some, inl, inr, refl, sym, ap, arith, tests, Bool-cases, Option-cases, length, get_or, set, take,
  drop, replicate, pop_front, All, All-append, All-mono, length-append, length-set, get_or-set_self,
  get_or-set_ne, u64_mod, u64_max, inc_u64, sub_u64, lt→ltb, ltb→lt, leb→le, le→leb, ==_iff,
}
use axe_voice_desktop.Pipeline.Fence
use axe_voice_desktop.Pipeline.Fence.{BaresipCallbackFence, initial_fence}
use axe_voice_desktop.Pipeline.Ingress
use axe_voice_desktop.Pipeline.Ingress.{BaresipCallbackIngress, Callback, make_ingress}
use axe_voice_desktop.Pipeline.Mailbox.{BaresipEventMailbox}
use axe_voice_desktop.Sip.Reducer.{BaresipEventKind}

pub record CapturedSession : Type 0 where
  pub fence_generation : ℕ  -- uint64_t
  pub mailbox_session : ℕ  -- uint64_t
  pub account_identity : ℕ  -- uintptr_t

abbrev pub nothing : CapturedSession
nothing = record { fence_generation = 0; mailbox_session = 0; account_identity = 0 }

-- `operator bool`
abbrev pub is_captured : CapturedSession → Bool
is_captured c = c.fence_generation != 0 && c.mailbox_session != 0 && c.account_identity != 0

pub record BaresipCallbackLifecycle : Type 0 where
  pub fence : BaresipCallbackFence
  pub ingress : BaresipCallbackIngress
  pub current : CapturedSession

abbrev pub make_lifecycle : BaresipEventMailbox → BaresipCallbackLifecycle
make_lifecycle m = record { fence = initial_fence; ingress = make_ingress m; current = nothing }

-- `close_and_wait` does not block here: `fence_.begin` succeeded, so nothing is in flight, and no
-- callback can have captured the new generation yet.
unfoldable pub begin : BaresipCallbackLifecycle → ℕ → BaresipCallbackLifecycle × CapturedSession
begin l validated_account =
    if validated_account == 0 || is_captured l.current
    then (l, nothing)
    else let (f, generation) = Fence.begin l.fence in
      if generation == 0
      then (record l { fence = f }, nothing)
      else let (i, session) = Ingress.begin_session l.ingress validated_account in
        if session == 0
        then (record l { fence = Fence.finish_wait (Fence.close f); ingress = i }, nothing)
        else let c =
            let r : CapturedSession = record {
              fence_generation = generation;
              mailbox_session = session;
              account_identity = validated_account;
            } in
            r in
          (record { fence = f; ingress = i; current = c }, c)

-- True if the caller keeps the lease; a lease that is not kept is released at once.
unfoldable pub hold_native_callback :
    BaresipCallbackLifecycle → CapturedSession → BaresipCallbackLifecycle × Bool
hold_native_callback l captured =
    let (f, leased) = Fence.admit l.fence captured.fence_generation in
    if not leased
    then (l, false)
    else if l.ingress.session != captured.mailbox_session
    then (record l { fence = Fence.release_one f }, false)
    else (record l { fence = f }, true)

-- The callback that an event becomes, with the session and account that were captured.
pub data Report : Type 0 where
  registration : BaresipEventKind → Report
  call_started call_changed : ℕ → BaresipEventKind → Report

abbrev pub to_callback : CapturedSession → Report → Callback
to_callback c (Report.registration kind) =
    Callback.on_registration c.mailbox_session c.account_identity kind
to_callback c (Report.call_started key kind) =
    Callback.on_call_started c.mailbox_session c.account_identity key kind
to_callback c (Report.call_changed key kind) =
    Callback.on_call_changed c.mailbox_session c.account_identity key kind

-- `registration`, `call_started` and `call_changed`, undisturbed by other threads: the lease is taken,
-- the ingress is called, and the lease is released.
unfoldable pub report :
    BaresipCallbackLifecycle → CapturedSession → Report → BaresipCallbackLifecycle × Bool
report l captured r =
    let (f, leased) = Fence.admit l.fence captured.fence_generation in
    if not leased
    then (l, false)
    else let (i, accepted) = Ingress.accept l.ingress (to_callback captured r) in
      (record l { fence = Fence.release_one f; ingress = i }, accepted)

-- Under `lifecycle_`: also the first part of `revoke_and_wait`.
unfoldable pub reject_current : BaresipCallbackLifecycle → BaresipCallbackLifecycle
reject_current l = record l { fence = Fence.close l.fence; ingress = Ingress.revoke l.ingress }

unfoldable pub is_live : BaresipCallbackLifecycle → CapturedSession → Bool
is_live l captured =
    (Fence.admit l.fence captured.fence_generation).1
    && l.ingress.session == captured.mailbox_session

-- `revoke_and_wait` where it need not wait.
unfoldable pub revoke_and_wait : BaresipCallbackLifecycle → BaresipCallbackLifecycle
revoke_and_wait l =
    let l' = reject_current l in
    record l' { fence = Fence.finish_wait (l'.fence); current = nothing }
