-- ===== src/Sip/Identity/Laws.antt =====
-- The tokens of the bound state and of the observation agree.
use axe_voice_desktop.Prelude.{refl, true, ℕ, ◌≡◌, arith}
use axe_voice_desktop.Sip.Reducer.{BaresipNativeEvent, EventTransition, apply_baresip_event}
use axe_voice_desktop.Sip.Reducer.Laws.{
  apply_baresip_event-IsOrderly, IsOrderly, IsConsistent, apply_baresip_event-IsConsistent,
  tokens_after, apply_baresip_event_frame,
}
use axe_voice_desktop.Sip.Identity.{
  sip_proof_is_current, identify, SipRuntimeObservation, settle, BoundBaresipState, IdentityResult,
  apply_identified_event, invalidate_identity,
}

pub record IsBound (b : BoundBaresipState) : Type 0 where
  pub consistent : IsConsistent b.observation
  pub same_call : b.active_call_token ≡ b.observation.call_id
  pub same_last : b.last_call_token ≡ b.observation.last_call_id

-- The reducer's answer is taken over, and the tokens follow it.
settle-IsBound :
    (b : BoundBaresipState) (active : ℕ) (e : BaresipNativeEvent)
    → IsBound b
    → e.call_id ≡ e.call_token
    → IsBound (settle b e (apply_baresip_event b.observation active e)).0
settle-IsBound b active e v same = ground (
  arith,
  apply_baresip_event-IsConsistent b.observation active e v.consistent,
  tokens_after b.observation active e,
)

identify-IsBound :
    (b : BoundBaresipState) (active : ℕ) (e : BaresipNativeEvent)
    → IsBound b
    → IsBound (identify b active e).0
unfolding identify
identify-IsBound b active e v =
    ground (arith, settle-IsBound b active (record e { call_id = e.call_token }) v refl)

-- Every event keeps the bound tokens equal to those of the observation, and the observation
-- consistent.
pub apply_identified_event-IsBound :
    (b : BoundBaresipState) (active : ℕ) (e : BaresipNativeEvent)
    → IsBound b
    → IsBound (apply_identified_event b active e).0
unfolding apply_identified_event
apply_identified_event-IsBound b active e v = ground (arith, identify-IsBound b active e v)

settle_order :
    (b : BoundBaresipState) (e : BaresipNativeEvent) (o : SipRuntimeObservation × EventTransition)
    → IsOrderly o.1
    → (settle b e o).1 ≡ IdentityResult.invalid_order
    → o.1 ≡ EventTransition.invalid_order
settle_order b e (next, EventTransition.applied) f h = ground arith
settle_order b e (next, r) f h = ground arith

identify_order :
    (b : BoundBaresipState) (active : ℕ) (e : BaresipNativeEvent)
    → IsBound b
    → e.session ≡ active
    → sip_proof_is_current b.observation active ≡ true
    → (identify b active e).1 ≡ IdentityResult.invalid_order
    → (apply_baresip_event b.observation active (record e { call_id = e.call_token })).1
      ≡ EventTransition.invalid_order
unfolding identify
identify_order b active e v n p h =
    let named = record e { call_id = e.call_token } in
    ground (
      arith,
      apply_baresip_event-IsOrderly b.observation active named n p,
      settle_order b e (apply_baresip_event b.observation active named),
    )

-- Where the tokens agree, an event that passes the identity checks is refused for its order only:
-- the reducer finds no stale session, no missing proof and no stale call of its own.
pub apply_identified_event_order :
    (b : BoundBaresipState) (active : ℕ) (e : BaresipNativeEvent)
    → IsBound b
    → (apply_identified_event b active e).1 ≡ IdentityResult.invalid_order
    → (apply_baresip_event b.observation active (record e { call_id = e.call_token })).1
      ≡ EventTransition.invalid_order
unfolding apply_identified_event
apply_identified_event_order b active e v h = ground (arith, identify_order b active e v)

pub invalidate_identity-IsBound : IsBound invalidate_identity
unfolding invalidate_identity
invalidate_identity-IsBound = ground arith

settle_frame :
    (b : BoundBaresipState) (e : BaresipNativeEvent) (o : SipRuntimeObservation × EventTransition)
    → let b' = (settle b e o).0 in
      (b'.observation ≡ o.0) × (b'.expected_account_token ≡ b.expected_account_token)
settle_frame b e (next, EventTransition.applied) = ground arith
settle_frame b e (next, r) = ground arith

identify_frame :
    (b : BoundBaresipState) (active : ℕ) (e : BaresipNativeEvent)
    → let b' = (identify b active e).0 in
      (b'.observation.process ≡ b.observation.process)
      × (b'.observation.evidence ≡ b.observation.evidence)
      × (b'.observation.session ≡ b.observation.session)
      × (b'.expected_account_token ≡ b.expected_account_token)
unfolding identify
identify_frame b active e =
    let o = apply_baresip_event b.observation active (record e { call_id = e.call_token }) in
    ground (
      arith,
      apply_baresip_event_frame b.observation active (record e { call_id = e.call_token }),
      settle_frame b (record e { call_id = e.call_token }) o,
      settle_frame b e o,
    )

-- An event leaves the process, the evidence, the session and the account alone.
pub apply_identified_event_frame :
    (b : BoundBaresipState) (active : ℕ) (e : BaresipNativeEvent)
    → let b' = (apply_identified_event b active e).0 in
      (b'.observation.process ≡ b.observation.process)
      × (b'.observation.evidence ≡ b.observation.evidence)
      × (b'.observation.session ≡ b.observation.session)
      × (b'.expected_account_token ≡ b.expected_account_token)
unfolding apply_identified_event
apply_identified_event_frame b active e = ground (arith, identify_frame b active e)
