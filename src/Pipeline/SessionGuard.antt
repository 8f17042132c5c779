-- ===== src/Pipeline/SessionGuard.antt =====
-- src/sip_runtime_session_guard.h: the mailbox is emptied whenever the process was not running.
use axe_voice_desktop.Prelude.{false, ℕ, ◌≡◌, ◌||◌, not, if◌then◌else◌, arith}
use axe_voice_desktop.Sip.Observation.{
  SipEvidence, RuntimeProcess, is_running, sip_proof_is_current,
}
use axe_voice_desktop.Pipeline.Mailbox.{BaresipEventMailbox, invalidate_session, drain}
use axe_voice_desktop.Pipeline.Projection.Bound
use axe_voice_desktop.Pipeline.Projection.Bound.{SipEventProjection, snapshot}
use axe_voice_desktop.Pipeline.Projection.Legacy

-- The guard with the two objects that its methods are handed.
pub record Guarded : Type 0 where
  pub previous : RuntimeProcess
  pub mailbox : BaresipEventMailbox
  pub projection : SipEventProjection

-- `projection.observe(process, evidence, mailbox.drain())`
abbrev observe_drained : Guarded → RuntimeProcess → SipEvidence → BaresipEventMailbox → Guarded
observe_drained g process evidence m =
    let (m', batch) = drain m in
    record {
      previous = process;
      mailbox = m';
      projection = Bound.observe g.projection process evidence batch;
    }

unfoldable pub observe : Guarded → RuntimeProcess → SipEvidence → Guarded
observe g process evidence = observe_drained g process evidence (
    if not (is_running process) || not (is_running g.previous)
    then invalidate_session g.mailbox
    else g.mailbox)

-- A revoked runtime is never recorded as running.
abbrev not_running : RuntimeProcess → RuntimeProcess
not_running RuntimeProcess.running = RuntimeProcess.stopped
not_running process = process

unfoldable pub revoke : Guarded → RuntimeProcess → Guarded
revoke g process =
    observe_drained g (not_running process) SipEvidence.unproved (invalidate_session g.mailbox)

-- The first observation after the process was not running, and every revocation, shows no proof for
-- any session and leaves the mailbox without a session.
pub fence_shows_nothing :
    (g : Guarded) (process : RuntimeProcess) (evidence : SipEvidence) (current : ℕ)
    → is_running g.previous ≡ false
    → let o = observe g process evidence in
      let r = revoke g process in
      (sip_proof_is_current (snapshot o.projection) current ≡ false)
      × (o.mailbox.session ≡ 0)
      × (sip_proof_is_current (snapshot r.projection) current ≡ false)
      × (r.mailbox.session ≡ 0)
      × (is_running r.previous ≡ false)
unfolding observe revoke drain invalidate_session Bound.observe Legacy.observe snapshot
    sip_proof_is_current
fence_shows_nothing g process evidence current h = ground arith
