-- ===== src/Sdk/Event.antt =====
-- What the adapter reads of the SDK: the events of `bevent_register`. A UA and a call are pointers,
-- numbers here, 0 being the null pointer.
use axe_voice_desktop.Prelude.{Bool, ℕ, Option}
use axe_voice_desktop.Pipeline.Lifecycle.{CapturedSession}

-- The events that src/baresip_sdk_event_adapter.h names; `unsupported` stands for all others.
pub data BeventKind : Type 0 where
  registering register_ok register_fail unregistering : BeventKind
  shutdown exit audio_error : BeventKind
  call_incoming call_outgoing call_established call_closed call_transfer_failed : BeventKind
  unsupported : BeventKind

-- `bevent_get_ua` and `bevent_get_call` of an event.
pub record Bevent : Type 0 where
  pub ua : ℕ
  pub call : ℕ

-- A call of the callback: its context, the event, and what `ua_isregistered` says of the owner then.
pub record Delivery : Type 0 where
  pub context : CapturedSession
  pub kind : BeventKind
  pub event : Option Bevent
  pub is_registered : Bool
