-- ===== src/Pipeline/Projection/Bound.antt =====
-- src/sip_event_projection.h: the projection that binds one account, with the legacy one behind it.
use axe_voice_desktop.Prelude.{
  Bool, true, false, ℕ, ◌==◌, ◌!=◌, ◌||◌, not, if◌then◌else◌, ltb, List, [], ◌∷◌, length,
}
use axe_voice_desktop.Sip.Observation.{
  SipRuntimeObservation, SipEvidence, RuntimeProcess, is_running, is_verified,
}
use axe_voice_desktop.Sip.Reducer.{BaresipNativeEvent}
use axe_voice_desktop.Sip.Identity.{
  BoundBaresipState, IdentityResult, apply_identified_event, invalidate_identity,
}
use axe_voice_desktop.Pipeline.Mailbox.{Batch, k_capacity}
use axe_voice_desktop.Pipeline.Projection.Legacy
use axe_voice_desktop.Pipeline.Projection.Legacy.{
  LegacySipEventProjection, initial_projection, bare, evidence_eq,
}

pub record SipEventProjection : Type 0 where
  pub identity_mode : Bool
  pub legacy : LegacySipEventProjection
  pub bound : BoundBaresipState
  pub rejected_session : ℕ  -- uint64_t

-- `invalidate_identity(bound_); bound_.observation.process = process;`
abbrev pub invalidated : RuntimeProcess → BoundBaresipState
invalidated process =
    let b = invalidate_identity in
    record b { observation = record (b.observation) { process = process } }

unfoldable pub reject : SipEventProjection → ℕ → RuntimeProcess → SipEventProjection
unfolding invalidate_identity
reject p session process = record p { rejected_session = session; bound = invalidated process }

-- The loop of `observe`: it stops at the first event that is not applied, and says so.
unfoldable pub apply_all :
    BoundBaresipState → ℕ → List BaresipNativeEvent → BoundBaresipState × Bool
apply_all bound session [] = (bound, true)
apply_all bound session (event ∷ events) =
    let (next, r) = apply_identified_event bound session event in
    let rest = apply_all next session events in
    elim r [ IdentityResult.applied ↦ rest | _ ↦ (next, false) ]

-- The bound state at the start of a batch.
unfoldable pub enter_generation :
    BoundBaresipState → RuntimeProcess → SipEvidence → ℕ → ℕ → BoundBaresipState
unfolding invalidate_identity
enter_generation bound process evidence session account =
    if bound.observation.session != session || not (evidence_eq bound.observation.evidence evidence)
    then record invalidate_identity {
      observation = bare process evidence session;
      expected_account_token = account;
    }
    else bound

-- The batch is for this generation, and its evidence is native: the account is checked, then the
-- events are applied.
unfoldable pub project :
    SipEventProjection → RuntimeProcess → Batch → BoundBaresipState → ℕ → SipEventProjection
unfolding reject
project p process batch entered account =
    if entered.expected_account_token != account
    then reject p batch.session process
    else let (bound, complete) = apply_all entered batch.session batch.events in
      if complete then record p { bound = bound } else reject p batch.session process

-- The overload with an account, after `identity_mode_ = true`.
unfoldable pub observe_account :
    SipEventProjection → RuntimeProcess → SipEvidence → Batch → ℕ → SipEventProjection
unfolding reject invalidate_identity enter_generation project
observe_account q process evidence batch account =
    let p = record q { identity_mode = true } in
    if not (is_running process) || batch.session == 0
    then record p {
      rejected_session =
          if p.bound.observation.session != 0
          then p.bound.observation.session
          else p.rejected_session;
      bound = invalidated process;
    }
    else if batch.session == p.rejected_session
    then record p { bound = invalidated process }
    else if batch.overflow || ltb k_capacity (length batch.events)
    then reject p batch.session process
    else if not (is_verified evidence) || account == 0
    then record p {
      rejected_session =
          if is_verified p.bound.observation.evidence then batch.session else p.rejected_session;
      bound = invalidated process;
    }
    else project p process batch (enter_generation p.bound process evidence batch.session account)
        account

-- The overload with no account: once an account has been bound, it stays bound.
unfoldable pub observe :
    SipEventProjection → RuntimeProcess → SipEvidence → Batch → SipEventProjection
unfolding observe_account
observe p process evidence batch =
    if p.identity_mode
    then observe_account p process evidence batch p.bound.expected_account_token
    else record p { legacy = Legacy.observe p.legacy process evidence batch }

unfoldable pub snapshot : SipEventProjection → SipRuntimeObservation
snapshot p = if p.identity_mode then p.bound.observation else p.legacy.state
