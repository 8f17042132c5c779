-- ===== src/Native/Tests.antt =====
-- The theorems on the calls' controls at concrete inputs.
use axe_voice_desktop.Prelude.{
  Bool, true, false, ℕ, ◌≡◌, ◌==◌, ◌||◌, ltb, List, [], ◌∷◌, inr, refl, arith, codes, between,
  is_digit, NewerFrom, newer, same_or_later,
}
use axe_voice_desktop.Sip.Status.{SipStatus}
use axe_voice_desktop.Sip.Observation.{
  SipRuntimeObservation, SipEvidence, RuntimeProcess, sip_proof_is_current,
}
use axe_voice_desktop.Sip.Reducer
use axe_voice_desktop.Sip.Reducer.{BaresipNativeEvent, BaresipEventKind}
use axe_voice_desktop.Pipeline.Mailbox.{Batch}
use axe_voice_desktop.Pipeline.Projection.Legacy
use axe_voice_desktop.Pipeline.Projection.Bound
use axe_voice_desktop.Pipeline.Projection.Bound.{SipEventProjection, snapshot}
use axe_voice_desktop.Sip.Identity.{invalidate_identity}
use axe_voice_desktop.Call.Address.{WideClasses}
use axe_voice_desktop.Native.Control
use axe_voice_desktop.Native.Control.{
  NativeCallAction, NativeCallCommand, command_for, initial_admission,
}
use axe_voice_desktop.Native.Control.Once.{OnceAction, Attempt, admitted, admitted-NewerFrom}
use axe_voice_desktop.Native.Batch
use axe_voice_desktop.Native.Batch.{is_live, project_native_sdk_batch}
use axe_voice_desktop.Native.Batch.Confirmed.{project_native_sdk_batch-confirmed}
use axe_voice_desktop.Native.Duration.{is_measured}
use axe_voice_desktop.Native.Duration.Elapsed.{
  Seen, first_time, latest_time, shown, shown_elapsed, times_of,
}
use axe_voice_desktop.Native.Ringtone.{IncomingRingtonePolicy, verified_incoming_call}
use axe_voice_desktop.Native.Offers.{essential_call_actions, PortCall, dial, answer}
use axe_voice_desktop.Native.Offers.Gate.{
  AreCurrent, DialNeeds, AnswerNeeds, offers-AreCurrent, dial_needs, answer_needs,
}

abbrev observed : SipStatus → ℕ → SipRuntimeObservation
observed status call = record {
  process = RuntimeProcess.running;
  sip = status;
  evidence = SipEvidence.verified_native_api;
  session = 3;
  call_id = call;
  last_call_id = 5;
}

abbrev ringing : SipRuntimeObservation
ringing = observed SipStatus.ringing 5

abbrev registered : SipRuntimeObservation
registered = observed SipStatus.registered 0

offers-AreCurrent_example : AreCurrent ringing true (essential_call_actions ringing 3 true)
offers-AreCurrent_example = offers-AreCurrent ringing true

abbrev accepts_all : PortCall → Bool
accepts_all c = true

-- The classes of the ASCII characters.
abbrev ascii : WideClasses
ascii = record {
  iswspace = λ c. c == 32 || between 9 13 c;
  iswcntrl = λ c. ltb c 32 || c == 127;
  iswdigit = is_digit;
}

dial_needs_example :
    DialNeeds ascii accepts_all registered registered
      (codes "1001")
      (dial ascii accepts_all registered registered (codes "1001"))
dial_needs_example = dial_needs ascii accepts_all registered registered (codes "1001")

answer_needs_example : AnswerNeeds accepts_all ringing ringing (answer accepts_all ringing ringing)
answer_needs_example = answer_needs accepts_all ringing ringing

-- The answer of a call, twice, and then of the next call.
abbrev attempts : List Attempt
attempts =
    record { command = command_for NativeCallAction.answer 3 5; observed = ringing }
    ∷ record { command = command_for NativeCallAction.answer 3 5; observed = ringing }
    ∷ record {
      command = command_for NativeCallAction.answer 3 6;
      observed = observed SipStatus.ringing 6;
    }
    ∷ []

answers_twice : admitted OnceAction.answers initial_admission attempts ≡ (3, 5) ∷ (3, 6) ∷ []
unfolding admitted Control.admit Control.native_command_is_current Control.action_fits
    sip_proof_is_current
answers_twice = refl

admitted-NewerFrom_example : NewerFrom 0 0 (admitted OnceAction.answers initial_admission attempts)
admitted-NewerFrom_example = admitted-NewerFrom OnceAction.answers attempts (
    inr (
      newer (ground arith),
      inr (same_or_later refl (ground arith), inr (same_or_later refl (ground arith), tt)),
    ))

-- A call that was seen before and after a break, at a clock that goes back.
abbrev seen_call : ℕ → Seen
seen_call now_ms = record { observation = observed SipStatus.in_call 5; now_ms = now_ms }

abbrev seen_before : List Seen
seen_before =
    seen_call 6500
    ∷ seen_call 4000
    ∷ record { observation = ringing; now_ms = 3000 }
    ∷ seen_call 1000
    ∷ []

-- From 4000 to 6500.
shown_elapsed_example :
    ((shown (seen_call 6000) seen_before).active ≡ true)
    × ((shown (seen_call 6000) seen_before).elapsed_ms ≡ 2500)
unfolding is_measured times_of first_time latest_time
shown_elapsed_example =
    shown_elapsed (seen_call 6000) seen_before
      (ground arith, (ground arith, (ground arith, (ground arith, (ground arith, tt)))))

abbrev policy : IncomingRingtonePolicy
policy = record { silenced_session = 0; silenced_call = 0 }

ringing_is_verified : verified_incoming_call ringing ≡ true
unfolding verified_incoming_call sip_proof_is_current
ringing_is_verified = refl

abbrev next_call : SipRuntimeObservation
next_call = observed SipStatus.ringing 6

abbrev fresh : SipEventProjection
fresh = record {
  identity_mode = false;
  legacy = Legacy.initial_projection;
  bound = invalidate_identity;
  rejected_session = 0;
}

abbrev registers : Batch
registers = record {
  events =
      record {
        kind = BaresipEventKind.registering;
        session = 3;
        call_id = 0;
        account_token = 0;
        call_token = 0;
      }
      ∷ record {
        kind = BaresipEventKind.register_ok;
        session = 3;
        call_id = 0;
        account_token = 0;
        call_token = 0;
      }
      ∷ [];
  session = 3;
  overflow = false;
}

shows_registration : is_live (snapshot (project_native_sdk_batch fresh registers true)).sip ≡ true
unfolding project_native_sdk_batch Batch.project_events Batch.is_refresh Bound.observe
    Bound.snapshot Legacy.observe Legacy.apply_all Reducer.apply_baresip_event Reducer.reduce
    sip_proof_is_current invalidate_identity
shows_registration = refl

project_native_sdk_batch-confirmed_example : (true ≡ true) × (registers.overflow ≡ false)
project_native_sdk_batch-confirmed_example =
    project_native_sdk_batch-confirmed fresh registers true shows_registration
