-- ===== src/Pipeline/NativeIngress/Laws.antt =====
-- A fault of the native ingress is final until the teardown, and leaves nothing behind.
use axe_voice_desktop.Prelude.{
  true, false, ℕ, ◌<◌, ◌≡◌, ◌≢◌, ◌⊎◌, ◌==◌, ◌&&◌, List, [], ◌∷◌, some, inl, inr, refl, arith,
  Option-cases, u64_mod, inc_u64,
}
use axe_voice_desktop.Pipeline.Mailbox
use axe_voice_desktop.Pipeline.Mailbox.Inv
use axe_voice_desktop.Pipeline.Ingress.{make_event}
use axe_voice_desktop.Pipeline.NativeIngress.{
  BaresipNativeIngress, NativeCallback, NativeIngressResult, NativeIngressFault, NativeSignal,
  is_fault, accept, accept_all, bind_validated_account, revoke, publish, admit_event, Decoded,
  decode,
}

-- With no session nothing is held; a session has no fault; the call has the newest token.
pub record IsValid (i : BaresipNativeIngress) : Type 0 where
  pub queue : Inv.IsValid i.queue
  pub closed : i.session ≡ 0 → (i.account ≡ 0) × (i.call ≡ 0) × (i.last_call_token ≡ 0)
  pub open' : i.session ≢ 0 → (i.account ≢ 0) × (is_fault i.fault ≡ false)
  pub token : i.call ≢ 0 → (i.call_token ≢ 0) × (i.call_token ≡ i.last_call_token)
  pub idle : i.call ≡ 0 → i.call_token ≡ 0
  pub word : i.last_call_token < u64_mod

revoke-IsValid :
    {i : BaresipNativeIngress} (why : NativeIngressFault) → IsValid i → IsValid (revoke i why).0
unfolding revoke
revoke-IsValid {i} why v = ground (arith, Inv.invalidate_session-IsValid v.queue)

publish-IsValid :
    {i : BaresipNativeIngress} (cb : NativeCallback) (d : Decoded) (token : ℕ)
    → IsValid i
    → i.session ≢ 0
    → (d.starts_call && i.call == 0 ≡ true → (cb.call ≢ 0) × (token ≢ 0) × (token < u64_mod))
    → IsValid (publish i cb d token).0
unfolding publish revoke
publish-IsValid {i} cb d token v on fresh =
    let e = make_event d.event i.session token in
    let kept = Inv.enqueue-IsValid e v.queue in
    ground (arith, kept, Inv.invalidate_session-IsValid kept)

admit_event-IsValid :
    {i : BaresipNativeIngress} (cb : NativeCallback) (d : Decoded)
    → IsValid i
    → i.session ≢ 0
    → (d.call_signal ≡ false → d.starts_call ≡ false)
    → IsValid (admit_event i cb d).0
unfolding admit_event
admit_event-IsValid {i} cb d v on call = ground (
  arith,
  revoke-IsValid NativeIngressFault.malformed v,
  revoke-IsValid NativeIngressFault.call_mismatch v,
  publish-IsValid cb d 0 v on,
  publish-IsValid cb d (inc_u64 i.last_call_token) v on,
  publish-IsValid cb d i.call_token v on,
)

decode_call :
    (s : NativeSignal) {d : Decoded}
    → decode s ≡ some d
    → d.call_signal ≡ false
    → d.starts_call ≡ false
decode_call s e h = ground arith

-- Every callback keeps the invariant: with no session nothing is held, an open session has an account
-- and no fault, and an active call has the newest token.
pub accept_invariant :
    {i : BaresipNativeIngress} (cb : NativeCallback) → IsValid i → IsValid (accept i cb).0
unfolding accept
accept_invariant {i} cb v = elim (Option-cases (decode cb.signal)) [
  | inl none' ↦ ground (
    arith,
    none',
    revoke-IsValid NativeIngressFault.session_mismatch v,
    revoke-IsValid NativeIngressFault.account_mismatch v,
    revoke-IsValid NativeIngressFault.malformed v,
  )
  | inr (d, e) ↦ ground (
    arith,
    e,
    decode_call cb.signal e,
    revoke-IsValid NativeIngressFault.session_mismatch v,
    revoke-IsValid NativeIngressFault.account_mismatch v,
    admit_event-IsValid cb d v,
  )
]

-- A revocation leaves a fault, no session, no account, no call and an empty mailbox.
abbrev pub IsRevoked : BaresipNativeIngress → NativeIngressResult → Type 0
IsRevoked j r =
    (r ≡ NativeIngressResult.revoked)
    × (j.session ≡ 0)
    × (j.account ≡ 0)
    × (j.call ≡ 0)
    × (j.queue.session ≡ 0)
    × (j.queue.pending ≡ 0)

revoke-IsRevoked :
    (i : BaresipNativeIngress) (why : NativeIngressFault)
    → let (j, r) = revoke i why in IsRevoked j r × (j.fault ≡ why)
unfolding revoke Mailbox.invalidate_session
revoke-IsRevoked i why = ground arith

-- What an event leads to: it is queued and the session goes on, or it revokes.
abbrev pub Settled : BaresipNativeIngress → BaresipNativeIngress × NativeIngressResult → Type 0
Settled i (j, r) =
    ((r ≡ NativeIngressResult.queued) × (j.session ≡ i.session) × (j.fault ≡ i.fault))
    ⊎ (IsRevoked j r × (is_fault j.fault ≡ true))

publish-Settled :
    (i : BaresipNativeIngress) (cb : NativeCallback) (d : Decoded) (token : ℕ)
    → Settled i (publish i cb d token)
unfolding publish
publish-Settled i cb d token =
    let q = Mailbox.enqueue i.queue (make_event d.event i.session token) in
    ground (arith, revoke-IsRevoked (record i { queue = q.0 }) NativeIngressFault.queue_rejected)

admit_event-Settled :
    (i : BaresipNativeIngress) (cb : NativeCallback) (d : Decoded) → Settled i (admit_event i cb d)
unfolding admit_event
admit_event-Settled i cb d = ground (
  arith,
  revoke-IsRevoked i NativeIngressFault.malformed,
  revoke-IsRevoked i NativeIngressFault.call_mismatch,
  publish-Settled i cb d 0,
  publish-Settled i cb d (inc_u64 i.last_call_token),
  publish-Settled i cb d i.call_token,
)

-- What a callback's result says: a queued one leaves the session open, one that was ignored or
-- rejected changes nothing, and one that revokes leaves a fault, no session, no account, no call and
-- an empty mailbox with no session.
pub accept_result :
    (i : BaresipNativeIngress) (cb : NativeCallback)
    → let (j, r) = accept i cb in
      Settled i (j, r)
      ⊎ (((r ≡ NativeIngressResult.ignored) ⊎ (r ≡ NativeIngressResult.rejected)) × (j ≡ i))
unfolding accept
accept_result i cb = elim (Option-cases (decode cb.signal)) [
  | inl none' ↦ ground (
    arith,
    none',
    revoke-IsRevoked i NativeIngressFault.session_mismatch,
    revoke-IsRevoked i NativeIngressFault.account_mismatch,
    revoke-IsRevoked i NativeIngressFault.malformed,
  )
  | inr (d, e) ↦ ground (
    arith,
    e,
    revoke-IsRevoked i NativeIngressFault.session_mismatch,
    revoke-IsRevoked i NativeIngressFault.account_mismatch,
    admit_event-Settled i cb d,
  )
]

accept_faulted :
    (i : BaresipNativeIngress) (cb : NativeCallback)
    → is_fault i.fault ≡ true
    → accept i cb ≡ (i, NativeIngressResult.rejected)
unfolding accept
accept_faulted i cb h = ground arith

-- After a fault no callback is accepted and no account is bound, until the teardown: the ingress and
-- its mailbox stay as they are.
pub faulted_absorbs :
    (cbs : List NativeCallback) (i : BaresipNativeIngress) (account : ℕ)
    → is_fault i.fault ≡ true
    → (accept_all i cbs ≡ i) × (bind_validated_account i account ≡ (i, 0))
unfolding accept_all bind_validated_account
faulted_absorbs [] i account h = (refl, ground arith)
faulted_absorbs (cb ∷ cbs) i account h =
    rw (accept_faulted i cb h) (faulted_absorbs cbs i account h)
