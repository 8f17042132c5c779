-- ===== src/Registration/Gateway.antt =====
-- src/baresip_sdk_registration_gateway.h, src/baresip_native_thread_guard.h: the gateway that registers one
-- UA. `on_owner` says whether the thread that calls is the one that made the gateway.
use axe_voice_desktop.Prelude.{Bool, true, false, ℕ, ◌==◌, ◌!=◌, ◌&&◌, not, if◌then◌else◌}
use axe_voice_desktop.Registration.Bridge.{Bridge, NativeRegistrationSubmission}
use axe_voice_desktop.Registration.Deadline
use axe_voice_desktop.Registration.Deadline.{
  RegistrationDeadline, RegistrationDeadlineVerdict, initial_deadline,
}

pub record BaresipSdkRegistrationGateway (S : Type 0) : Type 0 where
  pub bridge : S
  pub owner : ℕ  -- struct ua*
  pub deadline : RegistrationDeadline

abbrev pub make_gateway : {S : Type 0} → S → BaresipSdkRegistrationGateway S
make_gateway s = record { bridge = s; owner = 0; deadline = initial_deadline }

module _ {S : Type 0} (b : Bridge S) (on_owner : Bool) where
  unfoldable pub submit :
      BaresipSdkRegistrationGateway S
      → ℕ
      → BaresipSdkRegistrationGateway S × NativeRegistrationSubmission
  submit g selected =
      let (started, ok) = b.start g.bridge selected in
      let (called, error) = b.ua_register started selected in
      if not on_owner
      then (g, NativeRegistrationSubmission.wrong_event_loop_thread)
      else if g.owner != 0
      then (
        g,
        if b.active g.bridge
            then NativeRegistrationSubmission.already_submitted
            else NativeRegistrationSubmission.native_session_revoked,
      )
      else if selected == 0
      then (g, NativeRegistrationSubmission.invalid_account)
      else if not ok
      then (record g { bridge = started }, NativeRegistrationSubmission.bridge_unavailable)
      else if error != 0
      then (record g { bridge = b.stop called }, NativeRegistrationSubmission.submission_rejected)
      else if not (b.active called)
      then (
        record g { bridge = b.stop called },
        NativeRegistrationSubmission.native_session_revoked,
      )
      else (
        record { bridge = called; owner = selected; deadline = Deadline.clear g.deadline },
        NativeRegistrationSubmission.submitted,
      )

  unfoldable pub submitted : BaresipSdkRegistrationGateway S → Bool
  submitted g = on_owner && g.owner != 0 && b.active g.bridge

  unfoldable pub session : BaresipSdkRegistrationGateway S → ℕ
  session g = if submitted g then b.session g.bridge else 0

  unfoldable pub arm_registration_deadline :
      BaresipSdkRegistrationGateway S → ℕ → ℕ → BaresipSdkRegistrationGateway S × Bool
  arm_registration_deadline g now_ms max_wait_ms =
      let (d, armed) = Deadline.arm g.deadline (session g) now_ms max_wait_ms in
      if submitted g then (record g { deadline = d }, armed) else (g, false)

  unfoldable pub stop : BaresipSdkRegistrationGateway S → BaresipSdkRegistrationGateway S × Bool
  stop g =
      let left =
        if g.owner != 0 && b.active g.bridge then b.ua_unregister g.bridge g.owner else g.bridge in
      if not on_owner
      then (g, false)
      else (record { bridge = b.stop left; owner = 0; deadline = Deadline.clear g.deadline }, true)

  -- What follows a verdict.
  abbrev pub act_on :
      BaresipSdkRegistrationGateway S
      → RegistrationDeadlineVerdict
      → BaresipSdkRegistrationGateway S
  act_on g RegistrationDeadlineVerdict.callback_confirmed = record g {
    deadline = Deadline.clear g.deadline;
  }
  act_on g RegistrationDeadlineVerdict.expired = (stop g).0
  act_on g RegistrationDeadlineVerdict.clock_regressed = (stop g).0
  act_on g RegistrationDeadlineVerdict.session_revoked = (stop g).0
  act_on g _ = g

  unfoldable pub poll_registration_deadline :
      BaresipSdkRegistrationGateway S
      → ℕ
      → BaresipSdkRegistrationGateway S × RegistrationDeadlineVerdict
  poll_registration_deadline g now_ms =
      let decision =
        Deadline.check g.deadline (b.session g.bridge) now_ms
          (b.native_register_ok_seen g.bridge) in
      if not on_owner
      then (g, RegistrationDeadlineVerdict.wrong_event_loop_thread)
      else (act_on g decision, decision)
