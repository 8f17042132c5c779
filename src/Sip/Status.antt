-- ===== src/Sip/Status.antt =====
-- src/sip_engine.h, src/call_policy.h: the SIP status and the calls' actions it allows.
use axe_voice_desktop.Prelude.{arith, true, ◌≡◌, Bool, ℕ, ◌==◌, ◌||◌}

-- `enum class SipStatus`
pub data SipStatus : Type 0 where
  unavailable disconnected registering registered calling ringing in_call failed : SipStatus

-- The enumerators' values, by which C++ compares them.
abbrev pub status_code : SipStatus → ℕ
status_code SipStatus.unavailable = 0
status_code SipStatus.disconnected = 1
status_code SipStatus.registering = 2
status_code SipStatus.registered = 3
status_code SipStatus.calling = 4
status_code SipStatus.ringing = 5
status_code SipStatus.in_call = 6
status_code SipStatus.failed = 7

abbrev pub status_eq : SipStatus → SipStatus → Bool
status_eq a b = status_code a == status_code b

pub status_eq→≡ : (a b : SipStatus) → status_eq a b ≡ true → a ≡ b
status_eq→≡ a b h = ground arith

-- `enum class CallAction`
pub data CallAction : Type 0 where
  dial answer hangup : CallAction

unfoldable pub can_apply_call_action : SipStatus → CallAction → Bool
can_apply_call_action status CallAction.dial = status_eq status SipStatus.registered
can_apply_call_action status CallAction.answer = status_eq status SipStatus.ringing
can_apply_call_action status CallAction.hangup =
    status_eq status SipStatus.calling
    || status_eq status SipStatus.ringing
    || status_eq status SipStatus.in_call
