-- ===== src/Call/Executor.antt =====
-- src/sip_command_executor.h: the state machine that gives each request of a user to the native engine
-- at most once. The thread that owns the SIP loop calls it, so each method is one step, and what is
-- observed stays as it is during a native call.
pub mod Once
pub mod History
use axe_voice_desktop.Sip.Status.{SipStatus, CallAction, status_eq}
use axe_voice_desktop.Sip.Observation.{SipRuntimeObservation, sip_proof_is_current}
use axe_voice_desktop.Prelude.{
  Bool, true, false, ℕ, zero, suc, ◌+◌, ◌-◌, ◌*◌, ◌/◌, ◌%◌, ◌^◌, ◌≤◌, ◌<◌, ◌≡◌, ◌≢◌, ◌↔◌, ◌⊎◌, ◌∙◌,
  ◌==◌, ◌!=◌, ◌||◌, ◌&&◌, not, if◌then◌else◌, leb, ltb, List, [], ◌∷◌, ◌++◌, map, Option, none,
  some, inl, inr, refl, sym, ap, arith, tests, Bool-cases, Option-cases, length, get_or, set, take,
  drop, replicate, pop_front, All, All-append, All-mono, length-append, length-set, length-take,
  get_or-set_self, get_or-set_ne, u64_mod, u64_max, inc_u64, sub_u64, lt→ltb, ltb→lt, leb→le,
  le→leb, ==_iff, Text,
}
use axe_voice_desktop.Call.Address.{WideClasses}
use axe_voice_desktop.Call.Authorization.{
  EngineSelection, CallCommandDenied, authorize_call_command, is_permitted,
}

pub record SipCommandRequest : Type 0 where
  pub session : ℕ  -- uint64_t
  pub sequence : ℕ  -- uint64_t
  pub action : CallAction
  pub call_id : ℕ  -- uint64_t
  pub destination : Text

-- A call of `SipNativeCommandPort`.
pub data NativeCommand : Type 0 where
  originate : Text → NativeCommand
  answer hangup : ℕ → NativeCommand

pub data SipCommandDisposition : Type 0 where
  idle progress_observed submitted invalid_request stale_session : SipCommandDisposition
  duplicate_request pending_transition duplicate_call_action denied : SipCommandDisposition
  native_rejected command_timed_out clock_rollback fenced : SipCommandDisposition

pub record SipCommandResult : Type 0 where
  pub disposition : SipCommandDisposition
  pub denial : CallCommandDenied

abbrev pub k_pending_timeout_ms : ℕ
k_pending_timeout_ms = 10000

pub record SipCommandExecutor : Type 0 where
  pub session : ℕ  -- uint64_t, as all numbers here
  pub last_sequence : ℕ
  pub last_answer_id : ℕ
  pub last_hangup_id : ℕ
  pub last_dial_call : ℕ
  pub pending_call : ℕ
  pub pending_last_call : ℕ
  pub pending_started_ms : ℕ
  pub last_now_ms : ℕ
  pub pending_status : SipStatus
  pub pending : Bool
  pub sent_dial : Bool
  pub is_fenced : Bool

abbrev pub new_session : ℕ → SipCommandExecutor
new_session id = record {
  session = id;
  last_sequence = 0;
  last_answer_id = 0;
  last_hangup_id = 0;
  last_dial_call = 0;
  pending_call = 0;
  pending_last_call = 0;
  pending_started_ms = 0;
  last_now_ms = 0;
  pending_status = SipStatus.unavailable;
  pending = false;
  sent_dial = false;
  is_fenced = false;
}

abbrev pub initial_executor : SipCommandExecutor
initial_executor = new_session 0

-- The state that was pending is observed unchanged.
abbrev pub is_unchanged : SipCommandExecutor → SipRuntimeObservation → Bool
is_unchanged e live =
    status_eq live.sip e.pending_status
    && live.call_id == e.pending_call
    && live.last_call_id == e.pending_last_call

unfoldable pub watchdog :
    SipCommandExecutor → SipRuntimeObservation → ℕ → ℕ → SipCommandExecutor × SipCommandDisposition
watchdog e live active_session now_ms =
    if e.is_fenced
    then (e, SipCommandDisposition.fenced)
    else if e.session == 0 || not e.pending
    then (e, SipCommandDisposition.idle)
    else if now_ms == 0
        || not (sip_proof_is_current live active_session)
        || active_session != e.session
    then (record e { is_fenced = true }, SipCommandDisposition.stale_session)
    else if e.last_now_ms != 0 && ltb now_ms e.last_now_ms
    then (record e { is_fenced = true }, SipCommandDisposition.clock_rollback)
    else let e' = record e { last_now_ms = now_ms } in
      if not (is_unchanged e' live)
      then (record e' { pending = false }, SipCommandDisposition.progress_observed)
      else if leb k_pending_timeout_ms (sub_u64 now_ms e'.pending_started_ms)
      then (record e' { is_fenced = true }, SipCommandDisposition.command_timed_out)
      else (e', SipCommandDisposition.pending_transition)

-- The state, the answer, and the call of the port, if one was made.
abbrev pub Outcome : Type 0
Outcome = SipCommandExecutor × SipCommandResult × Option NativeCommand

abbrev pub refuse : SipCommandExecutor → SipCommandDisposition → Outcome
refuse e d = (e, record { disposition = d; denial = CallCommandDenied.permitted }, none)

-- An action that was already taken on the call.
unfoldable pub is_repeated : SipCommandExecutor → SipCommandRequest → SipRuntimeObservation → Bool
is_repeated e r live = elim r.action [
  | CallAction.dial ↦ e.sent_dial && leb live.last_call_id e.last_dial_call
  | CallAction.answer ↦ leb r.call_id e.last_answer_id
  | CallAction.hangup ↦ leb r.call_id e.last_hangup_id
]

unfoldable pub command_of : SipCommandRequest → Text → NativeCommand
command_of r destination = elim r.action [
  | CallAction.dial ↦ NativeCommand.originate destination
  | CallAction.answer ↦ NativeCommand.answer r.call_id
  | CallAction.hangup ↦ NativeCommand.hangup r.call_id
]

-- What an accepted command leaves in the state.
unfoldable pub note_action :
    SipCommandExecutor → SipCommandRequest → SipRuntimeObservation → SipCommandExecutor
note_action e r live = elim r.action [
  | CallAction.dial ↦ record e { sent_dial = true; last_dial_call = live.last_call_id }
  | CallAction.answer ↦ record e { last_answer_id = r.call_id }
  | CallAction.hangup ↦ record e { last_hangup_id = r.call_id }
]

-- From the check of repeated actions on. The port returns whether the native call was accepted; a call
-- that throws counts as one that was not.
unfoldable pub send :
    (NativeCommand → Bool)
    → SipCommandExecutor
    → SipCommandRequest
    → SipRuntimeObservation
    → Text
    → ℕ
    → Outcome
send port e r live destination now_ms =
    let command = command_of r destination in
    if is_repeated e r live
    then refuse e SipCommandDisposition.duplicate_call_action
    else if not (port command)
    then (
      record e { is_fenced = true },
      record {
        disposition = SipCommandDisposition.native_rejected;
        denial = CallCommandDenied.permitted;
      },
      some command,
    )
    else (
      record (note_action e r live) {
        pending = true;
        pending_started_ms = now_ms;
        pending_status = live.sip;
        pending_call = live.call_id;
        pending_last_call = live.last_call_id;
      },
      record {
        disposition = SipCommandDisposition.submitted;
        denial = CallCommandDenied.permitted;
      },
      some command,
    )

module _ (w : WideClasses) (port : NativeCommand → Bool) where
  -- From the authorization on.
  unfoldable pub authorize_and_send :
      SipCommandExecutor
      → SipCommandRequest
      → SipRuntimeObservation
      → ℕ
      → EngineSelection
      → ℕ
      → Outcome
  authorize_and_send e r live active_session selected now_ms =
      let (reason, destination) =
        authorize_call_command w live active_session selected r.action r.call_id r.destination in
      if not (is_permitted reason)
      then (e, record { disposition = SipCommandDisposition.denied; denial = reason }, none)
      else send port e r live destination now_ms

  -- From the check of the clock on.
  unfoldable pub proceed :
      SipCommandExecutor
      → SipCommandRequest
      → SipRuntimeObservation
      → ℕ
      → EngineSelection
      → ℕ
      → Outcome
  proceed e r live active_session selected now_ms =
      if e.last_now_ms != 0 && ltb now_ms e.last_now_ms
      then refuse (record e { is_fenced = true }) SipCommandDisposition.clock_rollback
      else let e1 = record e { last_now_ms = now_ms } in
        if leb r.sequence e1.last_sequence
        then refuse e1 SipCommandDisposition.duplicate_request
        else let e2 = record e1 { last_sequence = r.sequence } in
          if e2.pending && is_unchanged e2 live
          then if leb k_pending_timeout_ms (sub_u64 now_ms e2.pending_started_ms)
            then refuse (record e2 { is_fenced = true }) SipCommandDisposition.command_timed_out
            else refuse e2 SipCommandDisposition.pending_transition
          else authorize_and_send (record e2 { pending = false }) r live active_session selected
              now_ms

  unfoldable pub dispatch :
      SipCommandExecutor
      → SipCommandRequest
      → SipRuntimeObservation
      → ℕ
      → EngineSelection
      → ℕ
      → Outcome
  dispatch e r live active_session selected now_ms =
      if r.session == 0 || r.sequence == 0 || now_ms == 0
      then refuse e SipCommandDisposition.invalid_request
      else if ltb r.session e.session
      then refuse e SipCommandDisposition.stale_session
      else if e.session != 0 && r.session == e.session && e.is_fenced
      then refuse e SipCommandDisposition.fenced
      else if r.session != active_session || not (sip_proof_is_current live active_session)
      then refuse (if r.session == e.session then record e { is_fenced = true } else e)
          SipCommandDisposition.stale_session
      else proceed (if ltb e.session r.session then new_session r.session else e) r live
          active_session selected now_ms
