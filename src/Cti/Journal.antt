-- ===== src/Cti/Journal.antt =====
-- src/local_cti_events.h: the journal of the phases that local clients may see, and the parser of their
-- cursors. Each method holds the mutex throughout.
pub mod Laws
use axe_voice_desktop.Sip.Status.{SipStatus}
use axe_voice_desktop.Sip.Observation.{SipRuntimeObservation, RuntimeProcess, sip_proof_is_current}
use axe_voice_desktop.Cti.Log.{push_bounded, oldest, newer}
use axe_voice_desktop.Prelude.{
  Bool, true, false, ℕ, zero, suc, ◌+◌, ◌-◌, ◌*◌, ◌/◌, ◌%◌, ◌^◌, ◌≤◌, ◌<◌, ◌≡◌, ◌≢◌, ◌↔◌, ◌⊎◌, ◌∙◌,
  ◌==◌, ◌!=◌, ◌||◌, ◌&&◌, not, if◌then◌else◌, leb, ltb, List, [], ◌∷◌, ◌++◌, map, Option, none,
  some, inl, inr, refl, sym, ap, arith, tests, Bool-cases, Option-cases, length, get_or, set, take,
  drop, replicate, pop_front, All, All-append, All-mono, length-append, length-set, length-take,
  get_or-set_self, get_or-set_ne, u64_mod, u64_max, inc_u64, sub_u64, lt→ltb, ltb→lt, leb→le,
  le→leb, ==_iff, Text, is_empty,
}

pub data CtiPhase : Type 0 where
  offline unverified registering registered dialing ringing in_call failed : CtiPhase

-- The enumerators' values, by which C++ compares them.
abbrev pub phase_code : CtiPhase → ℕ
phase_code CtiPhase.offline = 0
phase_code CtiPhase.unverified = 1
phase_code CtiPhase.registering = 2
phase_code CtiPhase.registered = 3
phase_code CtiPhase.dialing = 4
phase_code CtiPhase.ringing = 5
phase_code CtiPhase.in_call = 6
phase_code CtiPhase.failed = 7

-- The `switch` on the status.
abbrev pub phase_of : SipStatus → CtiPhase
phase_of SipStatus.registering = CtiPhase.registering
phase_of SipStatus.registered = CtiPhase.registered
phase_of SipStatus.calling = CtiPhase.dialing
phase_of SipStatus.ringing = CtiPhase.ringing
phase_of SipStatus.in_call = CtiPhase.in_call
phase_of SipStatus.failed = CtiPhase.failed
phase_of SipStatus.disconnected = CtiPhase.offline
phase_of SipStatus.unavailable = CtiPhase.unverified

unfoldable pub cti_phase : SipRuntimeObservation → CtiPhase
cti_phase observed = elim observed.process [
  | RuntimeProcess.stopped ↦ CtiPhase.offline
  | RuntimeProcess.stopping ↦ CtiPhase.offline
  | RuntimeProcess.failed ↦ CtiPhase.failed
  | RuntimeProcess.running ↦
      if sip_proof_is_current observed observed.session
      then phase_of observed.sip
      else CtiPhase.unverified
]

abbrev pub in_a_call : SipStatus → Bool
in_a_call SipStatus.calling = true
in_a_call SipStatus.ringing = true
in_a_call SipStatus.in_call = true
in_a_call _ = false

abbrev pub is_registered : SipStatus → Bool
is_registered SipStatus.registered = true
is_registered s = in_a_call s

unfoldable pub cti_registered : SipRuntimeObservation → Bool
cti_registered observed =
    sip_proof_is_current observed observed.session && is_registered observed.sip

pub record CtiPublicSnapshot : Type 0 where
  pub phase : CtiPhase
  pub registered : Bool
  pub active_call : Bool
  pub sequence : ℕ  -- uint64_t

pub record CtiPublicEvent : Type 0 where
  pub sequence : ℕ  -- uint64_t
  pub phase : CtiPhase

pub record CtiEventsPage : Type 0 where
  pub latest_sequence : ℕ
  pub oldest_sequence : ℕ
  pub gap : Bool
  pub events : List CtiPublicEvent

abbrev pub capacity : ℕ
capacity = 32

abbrev pub sequence_of : CtiPublicEvent → ℕ
sequence_of e = e.sequence

pub record CtiEventJournal : Type 0 where
  pub initialized : Bool
  pub sequence : ℕ  -- uint64_t
  pub last_session : ℕ  -- uint64_t
  pub last_call_id : ℕ  -- uint64_t
  pub current : CtiPublicSnapshot
  pub events : List CtiPublicEvent

abbrev pub initial_journal : CtiEventJournal
initial_journal = record {
  initialized = false;
  sequence = 0;
  last_session = 0;
  last_call_id = 0;
  current = record {
    phase = CtiPhase.offline;
    registered = false;
    active_call = false;
    sequence = 0;
  };
  events = [];
}

abbrev pub bool_eq : Bool → Bool → Bool
bool_eq true b = b
bool_eq false b = not b

unfoldable pub is_active : SipRuntimeObservation → Bool
is_active state =
    sip_proof_is_current state state.session && state.call_id != 0 && in_a_call state.sip

unfoldable pub is_change : CtiEventJournal → SipRuntimeObservation → Bool
is_change j state =
    not j.initialized
    || phase_code (cti_phase state) != phase_code (j.current.phase)
    || not (bool_eq (cti_registered state) (j.current.registered))
    || not (bool_eq (is_active state) (j.current.active_call))
    || state.session != j.last_session
    || state.call_id != j.last_call_id

unfoldable pub observe : CtiEventJournal → SipRuntimeObservation → CtiEventJournal
observe j state =
    if not (is_change j state)
    then j
    else let n = inc_u64 j.sequence in
      record {
        initialized = true;
        sequence = n;
        last_session = state.session;
        last_call_id = state.call_id;
        current = record {
          phase = cti_phase state;
          registered = cti_registered state;
          active_call = is_active state;
          sequence = n;
        };
        events = push_bounded capacity j.events (record { sequence = n; phase = cti_phase state });
      }

unfoldable pub after : CtiEventJournal → ℕ → CtiEventsPage
after j cursor =
    let first = oldest sequence_of j.events in
    record {
      latest_sequence = j.sequence;
      oldest_sequence = first;
      gap = ltb 0 first && ltb cursor (sub_u64 first 1);
      events = newer sequence_of j.events cursor;
    }
