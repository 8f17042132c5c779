-- ===== src/Registration/Dispatcher/Closed.antt =====
-- The tick fails closed.
use axe_voice_desktop.Prelude.{
  Bool, true, false, ℕ, ◌≡◌, ◌⊎◌, ◌!=◌, ◌&&◌, not, if◌then◌else◌, List, [], ◌∷◌, inr, refl, arith,
  is_empty,
}
use axe_voice_desktop.Registration.Queue
use axe_voice_desktop.Registration.Queue.{Batch, RegistrationCommandQueue}
use axe_voice_desktop.Registration.Queue.Inv.{Op}
use axe_voice_desktop.Registration.Command.{RegistrationCommand}
use axe_voice_desktop.Registration.Bridge.{Bridge, BridgeLaws}
use axe_voice_desktop.Registration.Gateway
use axe_voice_desktop.Registration.Gateway.{BaresipSdkRegistrationGateway}
use axe_voice_desktop.Registration.Dispatcher.{
  Dispatch, RegistrationDispatchKind, RegistrationDispatchOutcome, shut_down, invalidate, tick,
  initial_outcome, interleave, dispatch_all, dispatch_command, try_submit, poll,
}

-- The outcomes that end the registration.
abbrev pub ends : RegistrationDispatchKind → Bool
ends RegistrationDispatchKind.cancelled = true
ends RegistrationDispatchKind.deadline_expired = true
ends RegistrationDispatchKind.failed = true
ends RegistrationDispatchKind.overflow_stopped = true
ends RegistrationDispatchKind.superseded_during_dispatch = true
ends _ = false

-- No UA is registered, the bridge is not active, and the queue takes no commands and holds none.
pub record IsShut {S : Type 0} (b : Bridge S) (s : Dispatch S) : Type 0 where
  pub no_owner : s.gateway.owner ≡ 0
  pub inactive : b.active s.gateway.bridge ≡ false
  pub shut : s.queue.is_open ≡ false
  pub empty : s.queue.size ≡ 0

module _ {S : Type 0} (b : Bridge S) (laws : BridgeLaws b) (others : ℕ → List Op) where
  invalidate-IsShut :
      (s : Dispatch S)
      → s.gateway.owner ≡ 0
      → b.active s.gateway.bridge ≡ false
      → IsShut b (invalidate b others s)
  unfolding invalidate interleave Queue.invalidate
  invalidate-IsShut s no_owner inactive = record {
    no_owner = no_owner;
    inactive = inactive;
    shut = refl;
    empty = refl;
  }

  stopped-IsShut :
      (s : Dispatch S)
      → IsShut b (invalidate b others (record s { gateway = (Gateway.stop b true s.gateway).0 }))
  unfolding Gateway.stop
  stopped-IsShut s =
      let left =
        if s.gateway.owner != 0 && b.active s.gateway.bridge
        then b.ua_unregister s.gateway.bridge s.gateway.owner
        else s.gateway.bridge in
      invalidate-IsShut (record s { gateway = (Gateway.stop b true s.gateway).0 }) refl
        (laws.active-stop left)

  shut_down-IsShut : (s : Dispatch S) → IsShut b (shut_down b others s)
  unfolding shut_down
  shut_down-IsShut s = stopped-IsShut s

  -- What a command leads to: the tick ends with the registration shut, or goes on.
  abbrev Ended : Dispatch S × RegistrationDispatchOutcome × Bool → Type 0
  Ended (s, r, ended) = ((ended ≡ true) × IsShut b s) ⊎ ((ended ≡ false) × (ends r.kind ≡ false))

  try_submit-Ended :
      (s : Dispatch S) (batch : Batch) (command : RegistrationCommand) (now selected : ℕ)
      → Ended (try_submit b others s batch command now selected)
  unfolding try_submit
  try_submit-Ended s batch command now selected =
      let g = (Gateway.submit b true s.gateway selected).0 in
      let called = record s { gateway = g } in
      let armed = record (interleave b others called) {
        gateway = (Gateway.arm_registration_deadline b true g now command.timeout_ms).0;
      } in
      ground (
        arith,
        shut_down-IsShut (interleave b others called),
        shut_down-IsShut armed,
        shut_down-IsShut (interleave b others armed),
      )

  dispatch_command-Ended :
      (s : Dispatch S) (batch : Batch) (command : RegistrationCommand) (generation now selected : ℕ)
      → Ended (dispatch_command b others s batch command generation now selected)
  unfolding dispatch_command
  dispatch_command-Ended s batch command generation now selected = ground (
    arith,
    shut_down-IsShut s,
    shut_down-IsShut (interleave b others s),
    try_submit-Ended (interleave b others s) batch command now selected,
  )

  dispatch_all-Ended :
      (commands : List RegistrationCommand) (s : Dispatch S) (batch : Batch)
      (generation now selected : ℕ) (result : RegistrationDispatchOutcome)
      → ends result.kind ≡ false
      → Ended (dispatch_all b others s batch commands generation now selected result)
  unfolding dispatch_all
  dispatch_all-Ended [] s batch generation now selected result h = inr (refl, h)
  dispatch_all-Ended (command ∷ commands) s batch generation now selected result h =
      let (s', r, ended) = dispatch_command b others s batch command generation now selected in
      ground (
        arith,
        dispatch_command-Ended s batch command generation now selected,
        dispatch_all-Ended commands s' batch generation now selected r,
      )

  poll-Ended :
      (s : Dispatch S) (now : ℕ) (any_command : Bool) (result : RegistrationDispatchOutcome)
      → ends result.kind ≡ false
      → let (s', r) = poll b others s now any_command result in IsShut b s' ⊎ (ends r.kind ≡ false)
  unfolding poll Gateway.poll_registration_deadline
  poll-Ended s now any_command result h = ground (arith, stopped-IsShut s)

  -- A tick that reports that the registration was cancelled, superseded or stopped for an overflow, has
  -- failed or has passed its deadline, holds no UA, has made the bridge inactive and has shut the
  -- queue, whatever the other threads do meanwhile.
  pub tick_fails_closed :
      (on_owner : Bool) (s : Dispatch S) (generation now selected : ℕ)
      → ends (tick b others on_owner s generation now selected).1.kind ≡ true
      → IsShut b (tick b others on_owner s generation now selected).0
  unfolding tick
  tick_fails_closed on_owner s generation now selected h =
      let entered = interleave b others s in
      let (q, batch) = Queue.drain entered.queue generation in
      let drained = record entered { queue = q } in
      let (s', result, ended) =
        dispatch_all b others drained batch batch.commands generation now selected
          initial_outcome in
      let any_command = not (is_empty batch.commands) in
      ground (
        arith,
        shut_down-IsShut drained,
        dispatch_all-Ended batch.commands drained batch generation now selected initial_outcome
            refl,
        poll-Ended s' now any_command result,
      )
