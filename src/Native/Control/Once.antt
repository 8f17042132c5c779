-- ===== src/Native/Control/Once.antt =====
-- A call is answered, hung up and transferred once at most.
use axe_voice_desktop.Prelude.{
  Bool, true, false, ℕ, ◌≡◌, ◌≢◌, ◌⊎◌, ◌∙◌, ◌&&◌, if◌then◌else◌, List, [], ◌∷◌, inl, inr, arith,
  Before, newer_session, newer_sequence, NewerFrom, NewerFrom-mono, NotAfter, newer, same_or_later,
  NotAfter-trans,
}
use axe_voice_desktop.Sip.Observation.{SipRuntimeObservation, sip_proof_is_current}
use axe_voice_desktop.Native.Control.{
  NativeCallAction, NativeCallCommand, NativeCommandAdmission, initial_admission, admit,
  native_command_is_current, action_fits,
}

-- The actions that are admitted once for each call.
pub data OnceAction : Type 0 where
  answers hangs_up transfers : OnceAction

abbrev pub is_kind : OnceAction → NativeCallAction → Bool
is_kind OnceAction.answers NativeCallAction.answer = true
is_kind OnceAction.hangs_up NativeCallAction.hangup = true
is_kind OnceAction.transfers NativeCallAction.transfer = true
is_kind _ _ = false

abbrev pub stored_session : OnceAction → NativeCommandAdmission → ℕ
stored_session OnceAction.answers a = a.answer_session
stored_session OnceAction.hangs_up a = a.hangup_session
stored_session OnceAction.transfers a = a.transfer_session

abbrev pub stored_call : OnceAction → NativeCommandAdmission → ℕ
stored_call OnceAction.answers a = a.answer_call
stored_call OnceAction.hangs_up a = a.hangup_call
stored_call OnceAction.transfers a = a.transfer_call

-- A command, and what is observed when it comes.
pub record Attempt : Type 0 where
  pub command : NativeCallCommand
  pub observed : SipRuntimeObservation

-- The sessions and calls of the actions of one kind that are admitted, in order.
unfoldable pub admitted : OnceAction → NativeCommandAdmission → List Attempt → List (ℕ × ℕ)
admitted k a [] = []
admitted k a (t ∷ ts) =
    let (a', ok) = admit a t.command t.observed in
    let rest = admitted k a' ts in
    if ok && is_kind k t.command.action then (t.command.session, t.command.call_id) ∷ rest else rest

-- The session and the call that are observed do not go back, but for there being no call.
abbrev pub Forward : ℕ → ℕ → List Attempt → Type 0
Forward s n [] = Unit {0}
Forward s n (t ∷ ts) =
    ((t.observed.call_id ≡ 0) × Forward s n ts)
    ⊎ (NotAfter s n t.observed.session t.observed.call_id
        × Forward t.observed.session t.observed.call_id ts)

Forward-mono :
    {s n s' n' : ℕ} (ts : List Attempt) → NotAfter s n s' n' → Forward s' n' ts → Forward s n ts
Forward-mono [] h f = tt
Forward-mono (t ∷ ts) h (inl (e, f)) = inl (e, Forward-mono ts h f)
Forward-mono (t ∷ ts) h (inr (g, f)) = inr (NotAfter-trans h g, f)

-- An action that is admitted is for the call that is observed, which was not the stored one, and is now
-- stored.
record Fresh (k : OnceAction) (a a' : NativeCommandAdmission) (t : Attempt) : Type 0 where
  session : t.command.session ≡ t.observed.session
  call : t.command.call_id ≡ t.observed.call_id
  some_call : t.observed.call_id ≢ 0
  unlike : stored_session k a ≡ t.command.session → stored_call k a ≢ t.command.call_id
  stored : stored_session k a' ≡ t.command.session
  stored' : stored_call k a' ≡ t.command.call_id

current_needs :
    (c : NativeCallCommand) (s : SipRuntimeObservation)
    → native_command_is_current c s ≡ true
    → (s.session ≡ c.session) × (c.call_id ≡ s.call_id) × (action_fits c s ≡ true)
unfolding native_command_is_current sip_proof_is_current
current_needs c s h = ground arith

fits_needs :
    (k : OnceAction) (c : NativeCallCommand) (s : SipRuntimeObservation)
    → is_kind k c.action ≡ true
    → action_fits c s ≡ true
    → s.call_id ≢ 0
unfolding action_fits
fits_needs k c s h f = ground arith

admit-Fresh :
    (k : OnceAction) (a : NativeCommandAdmission) (t : Attempt)
    → let (a', ok) = admit a t.command t.observed in
      ((ok && is_kind k t.command.action ≡ true) × Fresh k a a' t)
      ⊎ ((ok && is_kind k t.command.action ≡ false)
          × (stored_session k a' ≡ stored_session k a)
          × (stored_call k a' ≡ stored_call k a))
unfolding admit
admit-Fresh k a t =
    ground (arith, current_needs t.command t.observed, fits_needs k t.command t.observed)

NotAfter→Before : {s n t m : ℕ} → NotAfter s n t m → (s ≡ t → n ≢ m) → Before s n t m
NotAfter→Before (newer l) h = newer_session l
NotAfter→Before (same_or_later e l) h = newer_sequence e (omega (arith, h e))

-- What is observed later does not go back behind what is stored.
later_Forward : {s n : ℕ} (t : Attempt) (ts : List Attempt) → Forward s n (t ∷ ts) → Forward s n ts
later_Forward t ts (inl (e, f)) = f
later_Forward t ts (inr (g, f)) = Forward-mono ts g f

admitted_from :
    (k : OnceAction) (ts : List Attempt) (a : NativeCommandAdmission)
    → Forward (stored_session k a) (stored_call k a) ts
    → NewerFrom (stored_session k a) (stored_call k a) (admitted k a ts)
unfolding admitted
admitted_from k [] a f = tt
admitted_from k (t ∷ ts) a f = elim (admit-Fresh k a t) [
  | inl (e, new) ↦ rw e (elim f [
    | inl (none', later) ↦ absurd (new.some_call none')
    | inr (g, later) ↦
        let a' = (admit a t.command t.observed).0 in
        let key : NotAfter (stored_session k a) (stored_call k a) t.command.session
            t.command.call_id =
          rw (new.session, new.call) g in
        let start : NotAfter (stored_session k a') (stored_call k a') t.observed.session
            t.observed.call_id =
          same_or_later (new.stored ∙ new.session) (omega (arith, new.stored', new.call)) in
        let rest = admitted_from k ts a' (Forward-mono ts start later) in
        (
          NotAfter→Before key new.unlike,
          NewerFrom-mono t.command.session t.command.call_id (stored_session k a')
              (stored_call k a') (admitted k a' ts) (omega (arith, new.stored))
              (λ h. omega (arith, new.stored')) rest,
        )
  ])
  | inr (e, same_session, same_call) ↦ rw e (
      let a' = (admit a t.command t.observed).0 in
      let start : NotAfter (stored_session k a') (stored_call k a') (stored_session k a)
          (stored_call k a) =
        same_or_later same_session (omega (arith, same_call)) in
      NewerFrom-mono (stored_session k a) (stored_call k a) (stored_session k a') (stored_call k a')
        (admitted k a' ts) (omega (arith, same_session)) (λ h. omega (arith, same_call))
        (admitted_from k ts a' (Forward-mono ts start (later_Forward t ts f))))
]

-- As long as the calls that are observed do not go back, no call is answered twice, hung up twice or
-- transferred twice: the sessions and calls of the admitted actions of each of these kinds grow
-- strictly.
pub admitted-NewerFrom :
    (k : OnceAction) (ts : List Attempt)
    → Forward 0 0 ts
    → NewerFrom 0 0 (admitted k initial_admission ts)
admitted-NewerFrom OnceAction.answers ts f = admitted_from OnceAction.answers ts initial_admission f
admitted-NewerFrom OnceAction.hangs_up ts f =
    admitted_from OnceAction.hangs_up ts initial_admission f
admitted-NewerFrom OnceAction.transfers ts f =
    admitted_from OnceAction.transfers ts initial_admission f
