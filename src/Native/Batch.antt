-- ===== src/Native/Batch.antt =====
-- src/native_session_control.h, `project_native_sdk_batch`: a batch of the SDK's own events. A batch has
-- the events that are used as a list, so `size` never passes the array.
pub mod Confirmed
use axe_voice_desktop.Prelude.{
  Bool, true, false, ℕ, zero, suc, ◌+◌, ◌-◌, ◌*◌, ◌/◌, ◌%◌, ◌^◌, ◌≤◌, ◌<◌, ◌≡◌, ◌≢◌, ◌↔◌, ◌⊎◌, ◌∙◌,
  ◌==◌, ◌!=◌, ◌||◌, ◌&&◌, not, if◌then◌else◌, leb, ltb, List, [], ◌∷◌, ◌++◌, map, Option, none,
  some, inl, inr, refl, sym, ap, arith, tests, Bool-cases, Option-cases, length, get_or, set, take,
  drop, replicate, pop_front, All, All-append, All-mono, length-append, length-set, length-take,
  get_or-set_self, get_or-set_ne, u64_mod, u64_max, inc_u64, sub_u64, Text, codes, text_eq,
  is_empty, any, all, between, is_digit, is_letter, is_alnum, text_eq→≡, text_eq_refl, lt→ltb,
  ltb→lt, leb→le, le→leb, ==_iff,
}
use axe_voice_desktop.Sip.Status.{SipStatus, status_eq}
use axe_voice_desktop.Sip.Observation.{
  SipRuntimeObservation, SipEvidence, RuntimeProcess, sip_proof_is_current,
}
use axe_voice_desktop.Sip.Reducer.{BaresipEventKind, BaresipNativeEvent}
use axe_voice_desktop.Pipeline.Mailbox.{Batch}
use axe_voice_desktop.Pipeline.Projection.Bound
use axe_voice_desktop.Pipeline.Projection.Bound.{SipEventProjection, snapshot}

abbrev pub is_live : SipStatus → Bool
is_live s =
    status_eq s SipStatus.registered
    || status_eq s SipStatus.calling
    || status_eq s SipStatus.ringing
    || status_eq s SipStatus.in_call

abbrev pub is_register_ok : BaresipEventKind → Bool
is_register_ok BaresipEventKind.register_ok = true
is_register_ok _ = false

abbrev pub observe_running : SipEventProjection → Batch → SipEventProjection
observe_running p batch =
    Bound.observe p RuntimeProcess.running SipEvidence.verified_native_api batch

-- A refresh of a registration that is live; it is passed over.
unfoldable pub is_refresh : SipEventProjection → BaresipNativeEvent → ℕ → Bool → Bool
is_refresh p e session register_confirmed =
    register_confirmed
    && is_live (snapshot p).sip
    && sip_proof_is_current (snapshot p) session
    && is_register_ok e.kind
    && e.session == session
    && e.call_id == 0

-- The loop: one event at a time.
unfoldable pub project_events :
    SipEventProjection → Batch → List BaresipNativeEvent → Bool → SipEventProjection
project_events p batch [] register_confirmed = p
project_events p batch (e ∷ es) register_confirmed =
    project_events
      (if is_refresh p e batch.session register_confirmed
        then p
        else observe_running p (record batch { events = e ∷ [] }))
      batch es register_confirmed

abbrev pub revoked_batch : Batch
revoked_batch = record { events = []; session = 0; overflow = false }

unfoldable pub project_native_sdk_batch : SipEventProjection → Batch → Bool → SipEventProjection
project_native_sdk_batch p batch register_confirmed =
    let first = observe_running p (record batch { events = [] }) in
    if batch.overflow
    then observe_running first batch
    else let last = project_events first batch batch.events register_confirmed in
      if is_live (snapshot last).sip && not register_confirmed
      then Bound.observe last RuntimeProcess.failed SipEvidence.unproved revoked_batch
      else last
