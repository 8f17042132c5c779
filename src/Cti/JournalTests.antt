-- ===== src/Cti/JournalTests.antt =====
-- The theorems on the journal at concrete inputs.
use axe_voice_desktop.Cti.Cursor.{parse_cti_event_cursor, to_string}
use axe_voice_desktop.Cti.Cursor.Decimal.{parse_cti_event_cursor-to_string}
use axe_voice_desktop.Prelude.{ℕ, some, u64_max, ◌≡◌, arith}
use axe_voice_desktop.Sip.Status.{SipStatus}
use axe_voice_desktop.Sip.Observation.{SipRuntimeObservation, SipEvidence, RuntimeProcess}
use axe_voice_desktop.Cti.Log.{IsLog-none}
use axe_voice_desktop.Cti.Journal.{CtiEventJournal, initial_journal, observe, sequence_of, capacity}
use axe_voice_desktop.Cti.Journal.Laws.{IsValid, observe-IsValid}

abbrev in_call : SipRuntimeObservation
in_call = record {
  process = RuntimeProcess.running;
  sip = SipStatus.in_call;
  evidence = SipEvidence.verified_native_api;
  session = 2;
  call_id = 9;
  last_call_id = 9;
}

initial_journal-IsValid : IsValid initial_journal
initial_journal-IsValid = ground (arith, IsLog-none sequence_of capacity 0)

abbrev observed : CtiEventJournal
observed = observe initial_journal in_call

observed-IsValid : IsValid observed
observed-IsValid = observe-IsValid initial_journal in_call initial_journal-IsValid (ground arith)

abbrev last_cursor : ℕ
last_cursor = u64_max

parse_cti_event_cursor-to_string_example :
    parse_cti_event_cursor (to_string last_cursor) ≡ some last_cursor
parse_cti_event_cursor-to_string_example =
    parse_cti_event_cursor-to_string last_cursor (ground arith)
