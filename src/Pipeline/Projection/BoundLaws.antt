-- ===== src/Pipeline/Projection/BoundLaws.antt =====
-- The projection with an account fails closed.
use axe_voice_desktop.Prelude.{true, false, ℕ, ◌≡◌, ◌≢◌, List, [], ◌∷◌, refl, arith}
use axe_voice_desktop.Sip.Observation.{SipEvidence, RuntimeProcess, is_running, is_verified}
use axe_voice_desktop.Sip.Reducer.{BaresipNativeEvent}
use axe_voice_desktop.Sip.Identity.{BoundBaresipState, apply_identified_event}
use axe_voice_desktop.Sip.Identity.Laws.{
  IsBound, apply_identified_event-IsBound, apply_identified_event_frame,
}
use axe_voice_desktop.Pipeline.Mailbox.{Batch}
use axe_voice_desktop.Pipeline.Projection.Bound.{
  SipEventProjection, apply_all, enter_generation, project, observe_account,
}

apply_all_lem :
    (es : List BaresipNativeEvent) (b : BoundBaresipState) (session : ℕ)
    → IsBound b
    → let b' = (apply_all b session es).0 in
      IsBound b'
      × (b'.observation.process ≡ b.observation.process)
      × (b'.observation.evidence ≡ b.observation.evidence)
      × (b'.observation.session ≡ b.observation.session)
      × (b'.expected_account_token ≡ b.expected_account_token)
unfolding apply_all
apply_all_lem [] b session v = (v, refl, refl, refl, refl)
apply_all_lem (e ∷ es) b session v =
    let b' = (apply_identified_event b session e).0 in
    let kept = apply_identified_event-IsBound b session e v in
    let frame = apply_identified_event_frame b session e in
    let later = apply_all_lem es b' session kept in ground (arith, kept, frame, later)

-- What the projection holds between two batches: nothing, or the account and the session of a running
-- process with native evidence, the session not being the rejected one.
pub record IsClosed (p : SipEventProjection) : Type 0 where
  pub bound : IsBound p.bound
  pub unproved : p.bound.observation.session ≡ 0 → is_verified p.bound.observation.evidence ≡ false
  pub live : p.bound.observation.session ≢ 0 → is_running p.bound.observation.process ≡ true
  pub proved : p.bound.observation.session ≢ 0 → is_verified p.bound.observation.evidence ≡ true
  pub admitted : p.bound.observation.session ≢ 0 → p.bound.observation.session ≢ p.rejected_session
  pub account : p.bound.observation.session ≢ 0 → p.bound.expected_account_token ≢ 0

enter_generation-IsBound :
    (b : BoundBaresipState) (process : RuntimeProcess) (evidence : SipEvidence)
    (session account : ℕ)
    → IsBound b
    → IsBound (enter_generation b process evidence session account)
unfolding enter_generation
enter_generation-IsBound b process evidence session account v = ground arith

project-IsClosed :
    (p : SipEventProjection) (process : RuntimeProcess) (batch : Batch) (b : BoundBaresipState)
    (account : ℕ)
    → IsBound b
    → (b.observation.session ≡ batch.session)
    → is_running b.observation.process ≡ true
    → is_verified b.observation.evidence ≡ true
    → batch.session ≢ 0
    → batch.session ≢ p.rejected_session
    → account ≢ 0
    → IsClosed (project p process batch b account)
unfolding project
project-IsClosed p process batch b account v at up proved some_session fresh nz =
    ground (arith, apply_all_lem batch.events b batch.session v)

-- Every observation with an account keeps the projection closed, and the tokens of the account's call
-- equal to those of what is shown.
pub observe_account-IsClosed :
    (p : SipEventProjection) (process : RuntimeProcess) (evidence : SipEvidence) (batch : Batch)
    (account : ℕ)
    → IsClosed p
    → IsClosed (observe_account p process evidence batch account)
unfolding observe_account enter_generation
observe_account-IsClosed p process evidence batch account v =
    let b = enter_generation p.bound process evidence batch.session account in
    ground (
      arith,
      enter_generation-IsBound p.bound process evidence batch.session account v.bound,
      project-IsClosed (record p { identity_mode = true }) process batch b account,
    )
