-- ===== src/Cti/Request.antt =====
-- src/local_cti_requests.h: the requests, their results and transitions.
use axe_voice_desktop.Prelude.{Text, Bool, ℕ, List}

pub data CtiRequestState : Type 0 where
  queued dispatching submitted rejected cancelled : CtiRequestState

pub data CtiCancelOutcome : Type 0 where
  cancelled not_found too_late : CtiCancelOutcome

pub data CtiSubmitOutcome : Type 0 where
  created replayed key_conflict busy not_ready : CtiSubmitOutcome

pub record CtiSubmitResult : Type 0 where
  pub outcome : CtiSubmitOutcome
  pub id : ℕ  -- uint64_t
  pub state : CtiRequestState

pub record CtiPendingRequest : Type 0 where
  pub id : ℕ  -- uint64_t
  pub destination : Text

pub record CtiRequestResult : Type 0 where
  pub id : ℕ  -- uint64_t
  pub state : CtiRequestState
  pub idempotency_key : Text
  pub idempotency_destination : Text

pub record CtiRequestTransition : Type 0 where
  pub sequence : ℕ  -- uint64_t
  pub request_id : ℕ  -- uint64_t
  pub state : CtiRequestState

pub record CtiRequestEventsPage : Type 0 where
  pub latest_sequence : ℕ
  pub oldest_sequence : ℕ
  pub gap : Bool
  pub events : List CtiRequestTransition
