-- ===== src/Registration/Dispatcher/Kept.antt =====
-- What a tick that reports a submission has done.
use axe_voice_desktop.Prelude.{
  Bool, true, false, ℕ, ◌≡◌, ◌≢◌, ◌⊎◌, not, List, [], ◌∷◌, inl, refl, arith, is_empty,
}
use axe_voice_desktop.Registration.Queue
use axe_voice_desktop.Registration.Queue.{Batch, RegistrationCommandQueue}
use axe_voice_desktop.Registration.Queue.Inv.{Op}
use axe_voice_desktop.Registration.Command.{RegistrationCommand}
use axe_voice_desktop.Registration.Bridge.{Bridge}
use axe_voice_desktop.Registration.Deadline
use axe_voice_desktop.Registration.Gateway
use axe_voice_desktop.Registration.Gateway.{BaresipSdkRegistrationGateway}
use axe_voice_desktop.Registration.Dispatcher.{
  Dispatch, RegistrationDispatchKind, RegistrationDispatchOutcome, tick, interleave, is_admitted,
  dispatch_all, dispatch_command, try_submit, poll, initial_outcome, is_submitted,
}

abbrev pub reports_submission : RegistrationDispatchKind → Bool
reports_submission RegistrationDispatchKind.submitted = true
reports_submission _ = false

-- The bridge is the one that the SDK left when it registered the UA without an error, after the bridge was
-- started for that UA.
pub record WasRegistered {S : Type 0} (b : Bridge S) (selected : ℕ) (bridge : S) : Type 0 where
  pub previous : S
  pub started : (b.start previous selected).1 ≡ true
  pub registered : b.ua_register (b.start previous selected).0 selected ≡ (bridge, 0)

-- The UA is registered over an active bridge, its deadline runs, and the queue is open for the
-- generation.
pub record IsKept {S : Type 0} (b : Bridge S) (generation selected : ℕ) (s : Dispatch S)
    : Type 0 where
  pub owner : s.gateway.owner ≡ selected
  pub some_owner : selected ≢ 0
  pub registered : WasRegistered b selected s.gateway.bridge
  pub active : b.active s.gateway.bridge ≡ true
  pub armed : s.gateway.deadline.armed ≡ true
  pub deadline : s.gateway.deadline.session ≡ b.session s.gateway.bridge
  pub admitted : s.queue.is_open ≡ true
  pub current : s.queue.generation ≡ generation

module _ {S : Type 0} (b : Bridge S) (others : ℕ → List Op) where
  submit_facts :
      (g : BaresipSdkRegistrationGateway S) (selected : ℕ)
      → is_submitted (Gateway.submit b true g selected).1 ≡ true
      → let g' = (Gateway.submit b true g selected).0 in
        (g'.owner ≡ selected)
        × (selected ≢ 0)
        × ((b.start g.bridge selected).1 ≡ true)
        × (b.ua_register (b.start g.bridge selected).0 selected ≡ (g'.bridge, 0))
  unfolding Gateway.submit
  submit_facts g selected h = ground arith

  submitted_needs :
      (g : BaresipSdkRegistrationGateway S) (selected : ℕ)
      → is_submitted (Gateway.submit b true g selected).1 ≡ true
      → ((Gateway.submit b true g selected).0.owner ≡ selected)
        × (selected ≢ 0)
        × WasRegistered b selected (Gateway.submit b true g selected).0.bridge
  submitted_needs g selected h =
      let facts = submit_facts g selected h in
      (facts.0, facts.1, record { previous = g.bridge; started = facts.2; registered = facts.3 })

  armed_needs :
      (g : BaresipSdkRegistrationGateway S) (now wait : ℕ)
      → (Gateway.arm_registration_deadline b true g now wait).1 ≡ true
      → let g' = (Gateway.arm_registration_deadline b true g now wait).0 in
        (g'.owner ≡ g.owner)
        × (g'.bridge ≡ g.bridge)
        × (b.active g'.bridge ≡ true)
        × (g'.deadline.armed ≡ true)
        × (g'.deadline.session ≡ b.session g'.bridge)
  unfolding Gateway.arm_registration_deadline Gateway.submitted Gateway.session Deadline.arm
  armed_needs g now wait h = ground arith

  admitted_needs :
      (s : Dispatch S) (batch : Batch)
      → is_admitted b others s batch ≡ true
      → ((interleave b others s).queue.is_open ≡ true)
        × ((interleave b others s).queue.generation ≡ batch.generation)
  unfolding is_admitted Queue.still_admitted
  admitted_needs s batch h = ground arith

  interleave_gateway : (s : Dispatch S) → (interleave b others s).gateway ≡ s.gateway
  unfolding interleave
  interleave_gateway s = refl

  -- A command after which the tick goes on was a submission, which is kept.
  abbrev GoesOn : ℕ → ℕ → Dispatch S × RegistrationDispatchOutcome × Bool → Type 0
  GoesOn generation selected (s, r, ended) =
      (reports_submission r.kind ≡ false) ⊎ IsKept b generation selected s

  try_submit-GoesOn :
      (s : Dispatch S) (batch : Batch) (command : RegistrationCommand) (now selected : ℕ)
      → GoesOn batch.generation selected (try_submit b others s batch command now selected)
  unfolding try_submit
  try_submit-GoesOn s batch command now selected =
      let g = (Gateway.submit b true s.gateway selected).0 in
      let called = record s { gateway = g } in
      let armed = record (interleave b others called) {
        gateway = (Gateway.arm_registration_deadline b true g now command.timeout_ms).0;
      } in
      ground (
        arith,
        submitted_needs s.gateway selected,
        armed_needs g now command.timeout_ms,
        admitted_needs armed batch,
        interleave_gateway armed,
      )

  dispatch_command-GoesOn :
      (s : Dispatch S) (batch : Batch) (command : RegistrationCommand) (generation now selected : ℕ)
      → GoesOn batch.generation selected
          (dispatch_command b others s batch command generation now selected)
  unfolding dispatch_command
  dispatch_command-GoesOn s batch command generation now selected =
      ground (arith, try_submit-GoesOn (interleave b others s) batch command now selected)

  dispatch_all-GoesOn :
      (commands : List RegistrationCommand) (s : Dispatch S) (batch : Batch)
      (generation now selected : ℕ) (result : RegistrationDispatchOutcome)
      → (reports_submission result.kind ≡ false) ⊎ IsKept b batch.generation selected s
      → GoesOn batch.generation selected
          (dispatch_all b others s batch commands generation now selected result)
  unfolding dispatch_all
  dispatch_all-GoesOn [] s batch generation now selected result h = h
  dispatch_all-GoesOn (command ∷ commands) s batch generation now selected result h =
      let (s', r, ended) = dispatch_command b others s batch command generation now selected in
      let now_kept = dispatch_command-GoesOn s batch command generation now selected in
      ground
        (arith, now_kept, dispatch_all-GoesOn commands s' batch generation now selected r now_kept)

  poll-GoesOn :
      (s : Dispatch S) (generation now selected : ℕ) (any_command : Bool)
      (result : RegistrationDispatchOutcome)
      → (reports_submission result.kind ≡ false) ⊎ IsKept b generation selected s
      → let (s', r) = poll b others s now any_command result in
        (reports_submission r.kind ≡ false) ⊎ IsKept b generation selected s'
  unfolding poll Gateway.poll_registration_deadline
  poll-GoesOn s generation now selected any_command result h = ground arith

  -- A tick that reports a submission leaves the gateway with the selected UA and with the bridge as the SDK
  -- left it when it registered that UA without an error, after the bridge was started for it. The bridge
  -- is active, the deadline runs for its session, and at its last look the queue was open for the
  -- generation of the tick.
  pub tick_submitted :
      (on_owner : Bool) (s : Dispatch S) (generation now selected : ℕ)
      → reports_submission (tick b others on_owner s generation now selected).1.kind ≡ true
      → IsKept b generation selected (tick b others on_owner s generation now selected).0
  unfolding tick
  tick_submitted on_owner s generation now selected h =
      let entered = interleave b others s in
      let (q, batch) = Queue.drain entered.queue generation in
      let drained = record entered { queue = q } in
      let (s', result, ended) =
        dispatch_all b others drained batch batch.commands generation now selected
          initial_outcome in
      let any_command = not (is_empty batch.commands) in
      let all =
        dispatch_all-GoesOn batch.commands drained batch generation now selected initial_outcome
          (inl refl) in
      ground (arith, all, poll-GoesOn s' batch.generation now selected any_command result all)
