-- ===== src/Call/Feedback.antt =====
-- src/destination_feedback.h: how a destination is judged while it is typed. The texts shown are left out.
use axe_voice_desktop.Prelude.{Bool, true, false, Text}
use axe_voice_desktop.Call.Address.{WideClasses, AddressError, validate_address}

pub data DestinationFeedbackKind : Type 0 where
  empty invalid valid : DestinationFeedbackKind

pub record DestinationFeedback : Type 0 where
  pub kind : DestinationFeedbackKind
  pub error : AddressError

-- The `switch` on the error.
abbrev pub feedback_kind : AddressError → DestinationFeedbackKind
feedback_kind AddressError.no_error = DestinationFeedbackKind.valid
feedback_kind AddressError.empty = DestinationFeedbackKind.empty
feedback_kind _ = DestinationFeedbackKind.invalid

unfoldable pub evaluate_destination : WideClasses → Text → DestinationFeedback
evaluate_destination w input =
    let result = validate_address w input in
    record { kind = feedback_kind result.error; error = result.error }

-- `valid`
abbrev pub is_valid : DestinationFeedbackKind → Bool
is_valid DestinationFeedbackKind.valid = true
is_valid _ = false
