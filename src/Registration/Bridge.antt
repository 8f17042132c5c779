-- ===== src/Registration/Bridge.antt =====
-- src/baresip_sdk_event_adapter.h as the gateway uses it, and the calls of the SDK. A UA is a number, 0
-- being the null pointer.
use axe_voice_desktop.Prelude.{Bool, false, ℕ, ◌≡◌}

-- The methods of the adapter, and the two functions of the SDK, which may run callbacks at once.
pub record Bridge (S : Type 0) : Type 0 where
  pub start : S → ℕ → S × Bool
  pub stop : S → S
  pub active : S → Bool
  pub session : S → ℕ
  pub native_register_ok_seen : S → Bool
  pub ua_register : S → ℕ → S × ℕ
  pub ua_unregister : S → ℕ → S

-- A bridge that was stopped is not active.
pub record BridgeLaws {S : Type 0} (b : Bridge S) : Type 0 where
  pub active-stop : (s : S) → b.active (b.stop s) ≡ false

-- What the gateway reports of a submission.
pub data NativeRegistrationSubmission : Type 0 where
  invalid_account bridge_unavailable submission_rejected : NativeRegistrationSubmission
  submitted already_submitted native_session_revoked : NativeRegistrationSubmission
  wrong_event_loop_thread : NativeRegistrationSubmission
