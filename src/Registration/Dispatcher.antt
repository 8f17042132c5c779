-- ===== src/Registration/Dispatcher.antt =====
-- src/baresip_registration_command_dispatcher.h: the tick of the loop that owns the registration. Other
-- threads call the queue between any two of its accesses to it; `others` are their calls, by the number of
-- the access that follows.
pub mod Closed
pub mod Kept
pub mod Preserved
use axe_voice_desktop.Prelude.{
  Bool, true, false, ℕ, zero, suc, ◌+◌, ◌-◌, ◌*◌, ◌/◌, ◌%◌, ◌^◌, ◌≤◌, ◌<◌, ◌≡◌, ◌≢◌, ◌↔◌, ◌⊎◌, ◌∙◌,
  ◌==◌, ◌!=◌, ◌||◌, ◌&&◌, not, if◌then◌else◌, leb, ltb, List, [], ◌∷◌, ◌++◌, map, Option, none,
  some, inl, inr, refl, sym, ap, arith, tests, Bool-cases, Option-cases, length, get_or, set, take,
  drop, replicate, pop_front, All, All-append, All-mono, All-take, length-append, length-set,
  length-take, get_or-set_self, get_or-set_ne, u64_mod, u64_max, inc_u64, sub_u64, Text, codes,
  text_eq, is_empty, any, all, between, is_digit, is_letter, is_alnum, text_eq→≡, text_eq_refl,
  Before, newer_session, newer_sequence, NewerFrom, NewerFrom-mono, NotAfter, newer, same_or_later,
  NotAfter-trans, lt→ltb, ltb→lt, leb→le, le→leb, ==_iff,
}
use axe_voice_desktop.Registration.Command.{RegistrationCommand, is_cancel}
use axe_voice_desktop.Registration.Queue
use axe_voice_desktop.Registration.Queue.{Batch, RegistrationCommandQueue}
use axe_voice_desktop.Registration.Queue.Inv.{Op}
use axe_voice_desktop.Registration.Queue.Closing
use axe_voice_desktop.Registration.Bridge.{Bridge, NativeRegistrationSubmission}
use axe_voice_desktop.Registration.Deadline.{RegistrationDeadlineVerdict}
use axe_voice_desktop.Registration.Gateway
use axe_voice_desktop.Registration.Gateway.{BaresipSdkRegistrationGateway}

pub data RegistrationDispatchKind : Type 0 where
  idle submitted cancelled deadline_expired confirmed : RegistrationDispatchKind
  failed overflow_stopped wrong_owner_thread stale_generation pending : RegistrationDispatchKind
  superseded_during_dispatch : RegistrationDispatchKind

pub record RegistrationDispatchOutcome : Type 0 where
  pub kind : RegistrationDispatchKind
  pub submission : NativeRegistrationSubmission

-- `{kind, {}}`: the submission is the first enumerator.
abbrev pub without_submission : RegistrationDispatchKind → RegistrationDispatchOutcome
without_submission kind = record {
  kind = kind;
  submission = NativeRegistrationSubmission.invalid_account;
}

-- `result{}`
abbrev pub initial_outcome : RegistrationDispatchOutcome
initial_outcome = record {
  kind = RegistrationDispatchKind.idle;
  submission = NativeRegistrationSubmission.bridge_unavailable;
}

pub record Dispatch (S : Type 0) : Type 0 where
  pub queue : RegistrationCommandQueue
  pub gateway : BaresipSdkRegistrationGateway S
  pub accesses : ℕ

abbrev pub is_submitted : NativeRegistrationSubmission → Bool
is_submitted NativeRegistrationSubmission.submitted = true
is_submitted _ = false

module _ {S : Type 0} (b : Bridge S) (others : ℕ → List Op) where
  -- The calls of the other threads before the next access.
  unfoldable pub interleave : Dispatch S → Dispatch S
  interleave s = record s {
    queue = Closing.run s.queue (others s.accesses);
    accesses = suc s.accesses;
  }

  -- `queue_.invalidate()`
  unfoldable pub invalidate : Dispatch S → Dispatch S
  invalidate s = let t = interleave s in record t { queue = Queue.invalidate t.queue }

  -- `gateway_.stop(); queue_.invalidate();`
  unfoldable pub shut_down : Dispatch S → Dispatch S
  shut_down s = invalidate (record s { gateway = (Gateway.stop b true s.gateway).0 })

  -- `queue_.still_admitted(batch)`
  unfoldable pub is_admitted : Dispatch S → Batch → Bool
  is_admitted s batch = Queue.still_admitted (interleave s).queue batch

  -- A submission; `none` where the loop goes on.
  unfoldable pub try_submit :
      Dispatch S
      → Batch
      → RegistrationCommand
      → ℕ
      → ℕ
      → Dispatch S × RegistrationDispatchOutcome × Bool
  try_submit s batch command monotonic_ms selected =
      let (g, done) = Gateway.submit b true s.gateway selected in
      let called = record s { gateway = g } in
      let (armed_gateway, armed) =
        Gateway.arm_registration_deadline b true g monotonic_ms command.timeout_ms in
      let armed_state = record (interleave called) { gateway = armed_gateway } in
      let superseded : RegistrationDispatchOutcome = record {
        kind = RegistrationDispatchKind.superseded_during_dispatch;
        submission = done;
      } in
      if not (is_admitted called batch)
      then (shut_down (interleave called), superseded, true)
      else if not (is_submitted done)
      then (
        shut_down (interleave called),
        record { kind = RegistrationDispatchKind.failed; submission = done },
        true,
      )
      else if not armed
      then (
        shut_down armed_state,
        record { kind = RegistrationDispatchKind.failed; submission = done },
        true,
      )
      else if not (is_admitted armed_state batch)
      then (shut_down (interleave armed_state), superseded, true)
      else (
        interleave armed_state,
        record { kind = RegistrationDispatchKind.submitted; submission = done },
        false,
      )

  -- One command: the state, the outcome, and whether the tick ends with it.
  unfoldable pub dispatch_command :
      Dispatch S
      → Batch
      → RegistrationCommand
      → ℕ
      → ℕ
      → ℕ
      → Dispatch S × RegistrationDispatchOutcome × Bool
  dispatch_command s batch command generation monotonic_ms selected =
      if command.generation != generation
      then (shut_down s, without_submission RegistrationDispatchKind.failed, true)
      else if is_cancel command.kind
      then (shut_down s, without_submission RegistrationDispatchKind.cancelled, true)
      else if not (is_admitted s batch)
      then (
        shut_down (interleave s),
        without_submission RegistrationDispatchKind.superseded_during_dispatch,
        true,
      )
      else try_submit (interleave s) batch command monotonic_ms selected

  -- The loop; the flag says whether it ended the tick.
  unfoldable pub dispatch_all :
      Dispatch S
      → Batch
      → List RegistrationCommand
      → ℕ
      → ℕ
      → ℕ
      → RegistrationDispatchOutcome
      → Dispatch S × RegistrationDispatchOutcome × Bool
  dispatch_all s batch [] generation monotonic_ms selected result = (s, result, false)
  dispatch_all s batch (command ∷ commands) generation monotonic_ms selected result =
      let (s', r, ended) = dispatch_command s batch command generation monotonic_ms selected in
      let rest = dispatch_all s' batch commands generation monotonic_ms selected r in
      if ended then (s', r, true) else rest

  -- The `switch` on the verdict.
  abbrev pub conclude :
      Dispatch S
      → RegistrationDeadlineVerdict
      → Bool
      → RegistrationDispatchOutcome
      → Dispatch S × RegistrationDispatchOutcome
  conclude s RegistrationDeadlineVerdict.expired any_command result =
      (invalidate s, without_submission RegistrationDispatchKind.deadline_expired)
  conclude s RegistrationDeadlineVerdict.clock_regressed any_command result =
      (invalidate s, without_submission RegistrationDispatchKind.deadline_expired)
  conclude s RegistrationDeadlineVerdict.session_revoked any_command result =
      (invalidate s, without_submission RegistrationDispatchKind.deadline_expired)
  conclude s RegistrationDeadlineVerdict.callback_confirmed any_command result =
      (s, without_submission RegistrationDispatchKind.confirmed)
  conclude s RegistrationDeadlineVerdict.pending any_command result =
      (s, if any_command then result else without_submission RegistrationDispatchKind.pending)
  conclude s _ any_command result = (s, result)

  unfoldable pub poll :
      Dispatch S → ℕ → Bool → RegistrationDispatchOutcome → Dispatch S × RegistrationDispatchOutcome
  poll s monotonic_ms any_command result =
      let (g, verdict) = Gateway.poll_registration_deadline b true s.gateway monotonic_ms in
      conclude (record s { gateway = g }) verdict any_command result

  -- `on_owner` says whether the thread that calls is the one that made the dispatcher and its gateway.
  unfoldable pub tick : Bool → Dispatch S → ℕ → ℕ → ℕ → Dispatch S × RegistrationDispatchOutcome
  tick on_owner s generation monotonic_ms selected =
      let entered = interleave s in
      let (q, batch) = Queue.drain entered.queue generation in
      let drained = record entered { queue = q } in
      let (s', result, ended) =
        dispatch_all drained batch batch.commands generation monotonic_ms selected
          initial_outcome in
      if not on_owner
      then (s, without_submission RegistrationDispatchKind.wrong_owner_thread)
      else if batch.generation != generation || generation == 0
      then (drained, without_submission RegistrationDispatchKind.stale_generation)
      else if batch.overflow
      then (shut_down drained, without_submission RegistrationDispatchKind.overflow_stopped)
      else if ended
      then (s', result)
      else poll s' monotonic_ms (not (is_empty batch.commands)) result
