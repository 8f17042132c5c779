-- ===== src/Cti/Journal/Laws.antt =====
-- What the journal shows.
use axe_voice_desktop.Prelude.{
  Bool, true, false, ℕ, ◌+◌, ◌-◌, ◌≤◌, ◌<◌, ◌≡◌, ◌≢◌, ◌==◌, arith, length, u64_mod, u64_max,
  inc_u64,
}
use axe_voice_desktop.Sip.Observation.{SipRuntimeObservation, sip_proof_is_current}
use axe_voice_desktop.Cti.Log.{
  IsLog, Consecutive, push_bounded-IsLog, newer_complete, oldest_number,
}
use axe_voice_desktop.Cti.Journal.{
  phase_code, bool_eq, CtiEventJournal, CtiPublicEvent, CtiPhase, cti_phase, cti_registered,
  is_active, is_change, observe, after, sequence_of, capacity,
}

-- The ring is a log up to the last number, which the snapshot has as well.
pub record IsValid (j : CtiEventJournal) : Type 0 where
  pub word : j.sequence < u64_mod
  pub log : IsLog sequence_of capacity j.sequence j.events
  pub latest : j.current.sequence ≡ j.sequence

-- As long as the counter does not reach its end, an observation keeps the journal valid: its events are
-- numbered one by one up to the number of the snapshot.
pub observe-IsValid :
    (j : CtiEventJournal) (state : SipRuntimeObservation)
    → IsValid j
    → j.sequence ≢ u64_max
    → IsValid (observe j state)
unfolding observe
observe-IsValid j state v room =
    let e : CtiPublicEvent = record { sequence = inc_u64 j.sequence; phase = cti_phase state } in
    ground
      (arith, v, push_bounded-IsLog sequence_of capacity j.sequence j.events e (ground arith) v.log)

-- A page whose gap is not flagged, read while the ring is not empty, is complete.
pub after_complete :
    (j : CtiEventJournal) (cursor : ℕ)
    → IsValid j
    → 0 < length j.events
    → cursor ≤ j.sequence
    → (after j cursor).gap ≡ false
    → let page = after j cursor in
      Consecutive sequence_of cursor page.events
      × (cursor + length page.events ≡ page.latest_sequence)
unfolding after
after_complete j cursor v some' high h =
    let n = j.sequence - length j.events in
    ground
      (arith, v, oldest_number sequence_of n j.events, newer_complete sequence_of n cursor j.events)

phase_code→≡ : (a b : CtiPhase) → (phase_code a == phase_code b) ≡ true → a ≡ b
phase_code→≡ a b h = ground arith

bool_eq→≡ : (a b : Bool) → bool_eq a b ≡ true → a ≡ b
bool_eq→≡ a b h = ground arith

unchanged_shows :
    (j : CtiEventJournal) (state : SipRuntimeObservation)
    → is_change j state ≡ false
    → (cti_phase state ≡ j.current.phase)
      × (cti_registered state ≡ j.current.registered)
      × (is_active state ≡ j.current.active_call)
unfolding is_change
unchanged_shows j state h = ground (
  arith,
  h,
  phase_code→≡ (cti_phase state) (j.current.phase),
  bool_eq→≡ (cti_registered state) (j.current.registered),
  bool_eq→≡ (is_active state) (j.current.active_call),
)

registered_proof :
    (state : SipRuntimeObservation)
    → cti_registered state ≡ true
    → sip_proof_is_current state state.session ≡ true
unfolding cti_registered
registered_proof state h = ground arith

active_registered :
    (state : SipRuntimeObservation) → is_active state ≡ true → cti_registered state ≡ true
unfolding is_active cti_registered
active_registered state h = ground arith

-- After every observation, journaled or not, the snapshot shows the phase, the registration and the
-- call of what is observed; a registration only under a current native proof, and a call only together
-- with a registration.
pub observe_shows :
    (j : CtiEventJournal) (state : SipRuntimeObservation)
    → let shown = (observe j state).current in
      (shown.phase ≡ cti_phase state)
      × (shown.registered ≡ cti_registered state)
      × (shown.active_call ≡ is_active state)
      × (shown.registered ≡ true → sip_proof_is_current state state.session ≡ true)
      × (shown.active_call ≡ true → shown.registered ≡ true)
unfolding observe
observe_shows j state =
    ground (arith, unchanged_shows j state, active_registered state, registered_proof state)
