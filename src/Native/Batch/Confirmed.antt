-- ===== src/Native/Batch/Confirmed.antt =====
-- No batch shows a call or a registration that is not confirmed.
use axe_voice_desktop.Prelude.{Bool, true, false, ◌≡◌, [], refl, arith}
use axe_voice_desktop.Sip.Observation.{SipEvidence, RuntimeProcess, is_running}
use axe_voice_desktop.Sip.Identity.{invalidate_identity}
use axe_voice_desktop.Pipeline.Mailbox.{Batch}
use axe_voice_desktop.Pipeline.Projection.Legacy
use axe_voice_desktop.Pipeline.Projection.Bound
use axe_voice_desktop.Pipeline.Projection.Bound.{SipEventProjection, snapshot}
use axe_voice_desktop.Native.Batch.{
  is_live, observe_running, revoked_batch, project_native_sdk_batch, project_events,
}

-- A process that is not running shows no registration and no call.
not_running_shows_none :
    (p : SipEventProjection) (process : RuntimeProcess) (evidence : SipEvidence) (batch : Batch)
    → is_running process ≡ false
    → is_live (snapshot (Bound.observe p process evidence batch)).sip ≡ false
unfolding Bound.observe Bound.observe_account Bound.snapshot Legacy.observe invalidate_identity
not_running_shows_none p process evidence batch h = ground arith

-- Nor does a batch that has overflowed.
overflow_shows_none :
    (p : SipEventProjection) (process : RuntimeProcess) (evidence : SipEvidence) (batch : Batch)
    → batch.overflow ≡ true
    → is_live (snapshot (Bound.observe p process evidence batch)).sip ≡ false
unfolding Bound.observe Bound.observe_account Bound.snapshot Legacy.observe invalidate_identity
    Bound.reject Legacy.reject
overflow_shows_none p process evidence batch h = ground arith

-- Whatever events a batch has, what is shown after it is a registration or a call only if the
-- registration is confirmed and the batch has not overflowed.
pub project_native_sdk_batch-confirmed :
    (p : SipEventProjection) (batch : Batch) (register_confirmed : Bool)
    → is_live (snapshot (project_native_sdk_batch p batch register_confirmed)).sip ≡ true
    → (register_confirmed ≡ true) × (batch.overflow ≡ false)
unfolding project_native_sdk_batch
project_native_sdk_batch-confirmed p batch register_confirmed h = ground (
  arith,
  overflow_shows_none (observe_running p (record batch { events = [] })) RuntimeProcess.running
      SipEvidence.verified_native_api batch,
  not_running_shows_none
      (project_events (observe_running p (record batch { events = [] })) batch batch.events
        register_confirmed)
      RuntimeProcess.failed SipEvidence.unproved revoked_batch refl,
)
