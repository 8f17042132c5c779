-- ===== src/Pipeline/Projection/LegacyLaws.antt =====
-- The legacy projection fails closed.
use axe_voice_desktop.Prelude.{◌<◌, ◌⊎◌, ◌≤◌, true, false, ℕ, ◌≡◌, ◌≢◌, List, [], ◌∷◌, refl, arith}
use axe_voice_desktop.Sip.Status.{SipStatus}
use axe_voice_desktop.Sip.Observation.{
  sip_proof_is_current, SipRuntimeObservation, SipEvidence, RuntimeProcess, is_running, is_verified,
}
use axe_voice_desktop.Sip.Reducer.{BaresipNativeEvent, apply_baresip_event}
use axe_voice_desktop.Sip.Reducer.Laws.{
  IsConsistent, apply_baresip_event-IsConsistent, apply_baresip_event_frame,
}
use axe_voice_desktop.Pipeline.Mailbox.{Batch}
use axe_voice_desktop.Pipeline.Projection.Legacy.{
  LegacySipEventProjection, initial_projection, apply_all, enter_generation, observe, bare,
}

-- A batch keeps the state consistent, and leaves its process, evidence and session alone.
pub apply_all_lem :
    (es : List BaresipNativeEvent) (s : SipRuntimeObservation) (session : ℕ)
    → IsConsistent s
    → let s' = (apply_all s session es).0 in
      IsConsistent s'
      × (s'.process ≡ s.process)
      × (s'.evidence ≡ s.evidence)
      × (s'.session ≡ s.session)
unfolding apply_all
apply_all_lem [] s session v = (v, refl, refl, refl)
apply_all_lem (e ∷ es) s session v =
    let s' = (apply_baresip_event s session e).0 in
    let kept = apply_baresip_event-IsConsistent s session e v in
    let frame = apply_baresip_event_frame s session e in
    let later = apply_all_lem es s' session kept in ground (arith, kept, frame, later)

-- What the projection holds between two batches: it is either blank, or bound to a session that was
-- not rejected, of a running process with native evidence.
pub record IsClosed (p : LegacySipEventProjection) : Type 0 where
  pub consistent : IsConsistent p.state
  pub blank : p.state.session ≡ 0 → p.state.sip ≡ SipStatus.unavailable
  pub unproved : p.state.session ≡ 0 → is_verified p.state.evidence ≡ false
  pub live : p.state.session ≢ 0 → is_running p.state.process ≡ true
  pub proved : p.state.session ≢ 0 → is_verified p.state.evidence ≡ true
  pub admitted : p.state.session ≢ 0 → p.state.session ≢ p.rejected_session

pub initial_projection-IsClosed : IsClosed initial_projection
initial_projection-IsClosed = ground arith

bare-IsConsistent :
    (process : RuntimeProcess) (evidence : SipEvidence) (session : ℕ)
    → IsConsistent (bare process evidence session)
bare-IsConsistent process evidence session = ground arith

enter_generation-IsConsistent :
    (s : SipRuntimeObservation) (process : RuntimeProcess) (evidence : SipEvidence) (session : ℕ)
    → IsConsistent s
    → IsConsistent (enter_generation s process evidence session)
unfolding enter_generation
enter_generation-IsConsistent s process evidence session v = ground arith

-- Every observation of the runtime keeps the projection closed: what it shows as proven belongs to a
-- running process with native evidence and to a session that was not rejected.
pub observe-IsClosed :
    (p : LegacySipEventProjection) (process : RuntimeProcess) (evidence : SipEvidence)
    (batch : Batch)
    → IsClosed p
    → IsClosed (observe p process evidence batch)
unfolding observe
observe-IsClosed p process evidence batch v =
    let s = enter_generation p.state process evidence batch.session in
    ground (
      arith,
      apply_all_lem batch.events s batch.session
          (enter_generation-IsConsistent p.state process evidence batch.session v.consistent),
    )

-- A proof that is shown after an observation comes from that observation: the process runs, the
-- evidence is native, the batch is whole and of that session, and the session was not rejected.
pub observe_proof :
    (p : LegacySipEventProjection) (process : RuntimeProcess) (evidence : SipEvidence)
    (batch : Batch) (current : ℕ)
    → IsClosed p
    → sip_proof_is_current (observe p process evidence batch).state current ≡ true
    → (is_running process ≡ true)
      × (is_verified evidence ≡ true)
      × (batch.session ≡ current)
      × (batch.overflow ≡ false)
      × (current ≢ p.rejected_session)
unfolding observe sip_proof_is_current
observe_proof p process evidence batch current v h =
    let s = enter_generation p.state process evidence batch.session in
    ground (
      arith,
      apply_all_lem batch.events s batch.session
          (enter_generation-IsConsistent p.state process evidence batch.session v.consistent),
    )

-- One call of `observe`.
pub record Observed : Type 0 where
  pub process : RuntimeProcess
  pub evidence : SipEvidence
  pub batch : Batch

unfoldable pub observe_all : LegacySipEventProjection → List Observed → LegacySipEventProjection
observe_all p [] = p
observe_all p (o ∷ os) = observe_all (observe p o.process o.evidence o.batch) os

-- The sessions of the batches never go back below `n`, but for batches with no session.
abbrev pub Forward : ℕ → List Observed → Type 0
Forward n [] = Unit {0}
Forward n (o ∷ os) =
    ((o.batch.session ≡ 0) × Forward n os) ⊎ ((n ≤ o.batch.session) × Forward o.batch.session os)

-- The session `n` is shut out, where `b` is the newest session that a batch has shown.
record ShutOut (n b : ℕ) (p : LegacySipEventProjection) : Type 0 where
  reached : n ≤ b
  state_new : p.state.session ≢ 0 → n < p.state.session
  state_seen : p.state.session ≤ b
  held : p.rejected_session ≢ n → n < b
