-- ===== src/Registration/Dispatcher/Preserved.antt =====
-- What the methods of the bridge preserve is preserved by the dispatcher.
use axe_voice_desktop.Prelude.{
  Bool, true, ℕ, ◌!=◌, ◌&&◌, not, List, [], ◌∷◌, inl, inr, arith, Bool-cases, is_empty,
}
use axe_voice_desktop.Registration.Queue
use axe_voice_desktop.Registration.Queue.{Batch}
use axe_voice_desktop.Registration.Queue.Inv.{Op}
use axe_voice_desktop.Registration.Command.{RegistrationCommand}
use axe_voice_desktop.Registration.Bridge.{Bridge}
use axe_voice_desktop.Registration.Gateway
use axe_voice_desktop.Registration.Gateway.{BaresipSdkRegistrationGateway}
use axe_voice_desktop.Registration.Dispatcher.{
  Dispatch, RegistrationDispatchOutcome, shut_down, invalidate, tick, initial_outcome, interleave,
  dispatch_all, dispatch_command, try_submit, poll,
}

-- The predicate holds of the bridge after each method, if it holds before.
pub record Preserves {S : Type 0} (b : Bridge S) (P : S → Type 0) : Type 0 where
  pub on_start : (s : S) (owner : ℕ) → P s → P (b.start s owner).0
  pub on_stop : (s : S) → P s → P (b.stop s)
  pub on_register : (s : S) (owner : ℕ) → P s → P (b.ua_register s owner).0
  pub on_unregister : (s : S) (owner : ℕ) → P s → P (b.ua_unregister s owner)

module _ {S : Type 0} (b : Bridge S) (P : S → Type 0) (keeps : Preserves b P) where
  submit_keeps :
      (g : BaresipSdkRegistrationGateway S) (selected : ℕ)
      → P g.bridge
      → P (Gateway.submit b true g selected).0.bridge
  unfolding Gateway.submit
  submit_keeps g selected v =
      let started = (b.start g.bridge selected).0 in
      let started' = keeps.on_start g.bridge selected v in
      let called = (b.ua_register started selected).0 in
      let called' = keeps.on_register started selected started' in
      ground (arith, v, started', called', keeps.on_stop called called')

  stop_keeps :
      (g : BaresipSdkRegistrationGateway S) → P g.bridge → P (Gateway.stop b true g).0.bridge
  unfolding Gateway.stop
  stop_keeps g v = elim (Bool-cases (g.owner != 0 && b.active g.bridge)) [
    | inl e ↦
        rw e (
          keeps.on_stop (b.ua_unregister g.bridge g.owner) (keeps.on_unregister g.bridge g.owner v))
    | inr e ↦ rw e (keeps.on_stop g.bridge v)
  ]

  arm_keeps :
      (g : BaresipSdkRegistrationGateway S) (now wait' : ℕ)
      → P g.bridge
      → P (Gateway.arm_registration_deadline b true g now wait').0.bridge
  unfolding Gateway.arm_registration_deadline
  arm_keeps g now wait' v = ground (arith, v)

  poll_keeps :
      (g : BaresipSdkRegistrationGateway S) (now : ℕ)
      → P g.bridge
      → P (Gateway.poll_registration_deadline b true g now).0.bridge
  unfolding Gateway.poll_registration_deadline
  poll_keeps g now v = ground (arith, v, stop_keeps g v)

  module _ (others : ℕ → List Op) where
    shut_down_keeps :
        (s : Dispatch S) → P s.gateway.bridge → P (shut_down b others s).gateway.bridge
    unfolding shut_down invalidate interleave
    shut_down_keeps s v = stop_keeps s.gateway v

    try_submit_keeps :
        (s : Dispatch S) (batch : Batch) (command : RegistrationCommand) (now selected : ℕ)
        → P s.gateway.bridge
        → P (try_submit b others s batch command now selected).0.gateway.bridge
    unfolding try_submit interleave
    try_submit_keeps s batch command now selected v =
        let g = (Gateway.submit b true s.gateway selected).0 in
        let g' = submit_keeps s.gateway selected v in
        let called = record s { gateway = g } in
        let armed = record (interleave b others called) {
          gateway = (Gateway.arm_registration_deadline b true g now command.timeout_ms).0;
        } in
        let armed' = arm_keeps g now command.timeout_ms g' in
        ground (
          arith,
          armed',
          shut_down_keeps (interleave b others called) g',
          shut_down_keeps armed armed',
          shut_down_keeps (interleave b others armed) armed',
        )

    dispatch_command_keeps :
        (s : Dispatch S) (batch : Batch) (command : RegistrationCommand)
        (generation now selected : ℕ)
        → P s.gateway.bridge
        → P (dispatch_command b others s batch command generation now selected).0.gateway.bridge
    unfolding dispatch_command interleave
    dispatch_command_keeps s batch command generation now selected v = ground (
      arith,
      shut_down_keeps s v,
      shut_down_keeps (interleave b others s) v,
      try_submit_keeps (interleave b others s) batch command now selected v,
    )

    dispatch_all_keeps :
        (commands : List RegistrationCommand) (s : Dispatch S) (batch : Batch)
        (generation now selected : ℕ) (result : RegistrationDispatchOutcome)
        → P s.gateway.bridge
        → P (dispatch_all b others s batch commands generation now selected result).0.gateway.bridge
    unfolding dispatch_all
    dispatch_all_keeps [] s batch generation now selected result v = v
    dispatch_all_keeps (command ∷ commands) s batch generation now selected result v =
        let (s', r, ended) = dispatch_command b others s batch command generation now selected in
        let w = dispatch_command_keeps s batch command generation now selected v in
        ground (arith, w, dispatch_all_keeps commands s' batch generation now selected r w)

    poll_all_keeps :
        (s : Dispatch S) (now : ℕ) (any_command : Bool) (result : RegistrationDispatchOutcome)
        → P s.gateway.bridge
        → P (poll b others s now any_command result).0.gateway.bridge
    unfolding poll invalidate interleave
    poll_all_keeps s now any_command result v = ground (arith, poll_keeps s.gateway now v)

    -- What holds of the bridge, and is kept by its methods, holds after a tick.
    pub tick_keeps :
        (on_owner : Bool) (s : Dispatch S) (generation now selected : ℕ)
        → P s.gateway.bridge
        → P (tick b others on_owner s generation now selected).0.gateway.bridge
    unfolding tick interleave
    tick_keeps on_owner s generation now selected v =
        let entered = interleave b others s in
        let (q, batch) = Queue.drain entered.queue generation in
        let drained = record entered { queue = q } in
        let (s', result, ended) =
          dispatch_all b others drained batch batch.commands generation now selected
            initial_outcome in
        let w =
          dispatch_all_keeps batch.commands drained batch generation now selected initial_outcome
            v in
        let any_command = not (is_empty batch.commands) in
        ground (arith, w, shut_down_keeps drained v, poll_all_keeps s' now any_command result w)
