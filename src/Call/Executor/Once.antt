-- ===== src/Call/Executor/Once.antt =====
-- A request reaches the native engine at most once, and none after the executor was fenced.
use axe_voice_desktop.Sip.Observation.{SipRuntimeObservation, sip_proof_is_current}
use axe_voice_desktop.Prelude.{
  Bool, true, false, ℕ, ◌≤◌, ◌<◌, ◌≡◌, ◌≢◌, ◌⊎◌, Option, none, some, arith, Text,
}
use axe_voice_desktop.Call.Address.{WideClasses}
use axe_voice_desktop.Call.Authorization.{EngineSelection, authorize_call_command}
use axe_voice_desktop.Call.Executor.{
  SipCommandExecutor, SipCommandRequest, NativeCommand, Outcome, send, note_action,
  authorize_and_send, proceed, dispatch, new_session,
}

-- The second state comes after the first: of a newer session, or of the same one with no smaller
-- sequence, and fenced if the first is.
pub record Follows (e e' : SipCommandExecutor) : Type 0 where
  pub session : e.session ≤ e'.session
  pub sequence : e.session ≡ e'.session → e.last_sequence ≤ e'.last_sequence
  pub stays_fenced :
      e.session ≡ e'.session → e.session ≢ 0 → e.is_fenced ≡ true → e'.is_fenced ≡ true

-- The request was unknown before, the executor was not fenced for its session, and the request is now
-- the newest one that is known.
pub record Consumed (e e' : SipCommandExecutor) (r : SipCommandRequest) : Type 0 where
  pub session : e'.session ≡ r.session
  pub sequence : e'.last_sequence ≡ r.sequence
  pub unknown : e.session ≡ r.session → e.last_sequence < r.sequence
  pub open_fence : e.session ≡ r.session → e.is_fenced ≡ false

note_action_frame :
    (e : SipCommandExecutor) (r : SipCommandRequest) (live : SipRuntimeObservation)
    → let e' = note_action e r live in
      (e'.session ≡ e.session) × (e'.last_sequence ≡ e.last_sequence) × (e'.is_fenced ≡ e.is_fenced)
unfolding note_action
note_action_frame e r live = ground arith

abbrev issues : Option NativeCommand → Bool
issues none = false
issues (some c) = true

-- The session and the sequence stay; a command is made only where the answer says so, and a rejected
-- one fences.
record SentFrame (e : SipCommandExecutor) (o : Outcome) : Type 0 where
  session : o.0.session ≡ e.session
  sequence : o.0.last_sequence ≡ e.last_sequence
  fence : e.is_fenced ≡ true → o.0.is_fenced ≡ true

send-SentFrame :
    (port : NativeCommand → Bool) (e : SipCommandExecutor) (r : SipCommandRequest)
    (live : SipRuntimeObservation) (destination : Text) (now : ℕ)
    → SentFrame e (send port e r live destination now)
unfolding send
send-SentFrame port e r live destination now = ground (arith, note_action_frame e r live)

module _ (w : WideClasses) (port : NativeCommand → Bool) where
  authorize_and_send-SentFrame :
      (e : SipCommandExecutor) (r : SipCommandRequest) (live : SipRuntimeObservation) (active : ℕ)
      (selected : EngineSelection) (now : ℕ)
      → SentFrame e (authorize_and_send w port e r live active selected now)
  unfolding authorize_and_send
  authorize_and_send-SentFrame e r live active selected now =
      let p = authorize_call_command w live active selected r.action r.call_id r.destination in
      ground (arith, send-SentFrame port e r live p.1 now)

  -- Past the checks of the session.
  proceed_lem :
      (e : SipCommandExecutor) (r : SipCommandRequest) (live : SipRuntimeObservation) (active : ℕ)
      (selected : EngineSelection) (now : ℕ)
      → let o = proceed w port e r live active selected now in
        (o.0.session ≡ e.session)
        × (e.last_sequence ≤ o.0.last_sequence)
        × (e.is_fenced ≡ true → o.0.is_fenced ≡ true)
        × (issues o.2 ≡ true → (o.0.last_sequence ≡ r.sequence) × (e.last_sequence < r.sequence))
  unfolding proceed
  proceed_lem e r live active selected now =
      let e' = record e { last_now_ms = now; last_sequence = r.sequence; pending = false } in
      ground (arith, authorize_and_send-SentFrame e' r live active selected now)

  -- What a request may do: the state only moves on; and a command is made only for a request that was
  -- not known before, of the active session under a current native proof, while the executor is not
  -- fenced for that session, and then the request is the newest one known.
  pub dispatch_once :
      (e : SipCommandExecutor) (r : SipCommandRequest) (live : SipRuntimeObservation) (active : ℕ)
      (selected : EngineSelection) (now : ℕ)
      → let o = dispatch w port e r live active selected now in
        Follows e o.0
        × ((o.2 ≡ none)
            ⊎ (Consumed e o.0 r × (r.session ≡ active) × (sip_proof_is_current live active ≡ true)))
  unfolding dispatch
  dispatch_once e r live active selected now = ground (
    arith,
    proceed_lem e r live active selected now,
    proceed_lem (new_session r.session) r live active selected now,
  )
