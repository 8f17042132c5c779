-- ===== src/Sdk/CallPort/Once.antt =====
-- A call is answered, hung up and transferred once.
use axe_voice_desktop.Prelude.{Bool, true, false, ℕ, ◌≤◌, ◌≡◌, ◌≢◌, if◌then◌else◌, List, [], ◌∷◌}
use axe_voice_desktop.Call.Address.{WideClasses}
use axe_voice_desktop.Sdk.Adapter.{BaresipSdkEventAdapter}
use axe_voice_desktop.Sdk.Adapter.Moves.{Mark, mark}
use axe_voice_desktop.Sdk.Adapter.History.{Leads}
use axe_voice_desktop.Sdk.CallPort.{Sdk, BaresipSdkCallPort, may_answer, may_hangup, may_transfer}
use axe_voice_desktop.Sdk.CallPort.Life.{Op, perform, Noted, note}

abbrev flag : Noted → Mark → Bool
flag Noted.answer_noted m = m.answered
flag Noted.hangup_noted m = m.hung_up
flag Noted.transfer_noted m = m.transferred

-- The operation calls the SDK to act on the call.
unfoldable pub acts :
    {W : Type 0} → Sdk W → WideClasses → Noted → Bool → BaresipSdkCallPort W → Op W → Bool
acts sdk w Noted.answer_noted b p (Op.answered token) = may_answer sdk b p token
acts sdk w Noted.hangup_noted b p (Op.hung_up token) = may_hangup sdk b p token
acts sdk w Noted.transfer_noted b p (Op.transferred token uri) = may_transfer sdk w b p token uri
acts sdk w _ b p _ = false

-- The call that an operation asks to answer, hang up or transfer.
abbrev pub token_of : {W : Type 0} → Op W → ℕ
token_of (Op.answered token) = token
token_of (Op.hung_up token) = token
token_of (Op.transferred token uri) = token
token_of _ = 0

-- The sessions and calls on which the SDK is called to act in this way, in order.
unfoldable pub acted :
    {W : Type 0}
    → Sdk W
    → WideClasses
    → Noted
    → BaresipSdkCallPort W
    → List (Bool × Op W)
    → List (ℕ × ℕ)
acted sdk w k p [] = []
acted sdk w k p ((b, op) ∷ ops) =
    let rest = acted sdk w k (perform sdk w b p op) ops in
    if acts sdk w k b p op then (p.captured_session, token_of op) ∷ rest else rest

-- The latest action was not after the mark; if it was on the call that is active, that is noted.
record Logged (k : Noted) (s t : ℕ) (m : Mark) : Type 0 where
  begun : s ≤ m.generation
  some_call : s ≡ m.session → m.session ≢ 0 → t ≢ 0
  not_newer : s ≡ m.session → m.session ≢ 0 → t ≤ m.last
  is_noted : s ≡ m.session → m.session ≢ 0 → t ≡ m.token → flag k m ≡ true

-- What holds when the SDK is called to act: the call is the active one, of the open session, and the
-- action is not yet noted; it is noted before the callbacks run.
record Acting (k : Noted) (session token : ℕ) (a b : BaresipSdkEventAdapter) : Type 0 where
  open_session : a.lifecycle.ingress.session ≡ session
  some_session : session ≢ 0
  active_call : a.active_token ≡ token
  some_token : token ≢ 0
  first : flag k (mark a) ≡ false
  after : Leads (note k a) b
