-- ===== src/Registration/Command.antt =====
-- src/baresip_registration_command_queue.h: the commands.
use axe_voice_desktop.Prelude.{ℕ, Bool, true, false}

pub data RegistrationCommandKind : Type 0 where
  submit_selected_account cancel : RegistrationCommandKind

pub record RegistrationCommand : Type 0 where
  pub kind : RegistrationCommandKind
  pub generation : ℕ  -- uint64_t
  pub timeout_ms : ℕ  -- uint32_t

abbrev pub no_command : RegistrationCommand
no_command = record { kind = RegistrationCommandKind.cancel; generation = 0; timeout_ms = 0 }

abbrev pub is_cancel : RegistrationCommandKind → Bool
is_cancel RegistrationCommandKind.cancel = true
is_cancel RegistrationCommandKind.submit_selected_account = false
