-- ===== src/Sdk/Adapter/Moves.antt =====
-- How the session, the token and the flags of the call change as the adapter runs.
use axe_voice_desktop.Prelude.{
  Bool, true, ℕ, ◌≤◌, ◌<◌, ◌≡◌, ◌≢◌, ◌⊎◌, ◌∙◌, inl, inr, refl, arith, u64_mod, inc_u64,
}
use axe_voice_desktop.Sip.Reducer.{BaresipEventKind}
use axe_voice_desktop.Pipeline.Ingress
use axe_voice_desktop.Pipeline.Ingress.{BaresipCallbackIngress}
use axe_voice_desktop.Pipeline.Mailbox
use axe_voice_desktop.Pipeline.Mailbox.{BaresipEventMailbox}
use axe_voice_desktop.Pipeline.Lifecycle
use axe_voice_desktop.Pipeline.Lifecycle.{BaresipCallbackLifecycle, CapturedSession, Report}
use axe_voice_desktop.Sdk.Adapter.{BaresipSdkEventAdapter}

-- What is followed of the adapter: the session, the number of sessions begun, the call and the last one,
-- and what has been done with the call.
pub record Mark : Type 0 where
  pub generation : ℕ
  pub session : ℕ
  pub last : ℕ
  pub token : ℕ
  pub answered : Bool
  pub hung_up : Bool
  pub transferred : Bool

abbrev pub mark : BaresipSdkEventAdapter → Mark
mark a = record {
  generation = a.lifecycle.ingress.mailbox.generation;
  session = a.lifecycle.ingress.session;
  last = a.lifecycle.ingress.last_token;
  token = a.active_token;
  answered = a.answer_sent;
  hung_up = a.hangup_sent;
  transferred = a.transfer_attempted;
}

-- Only the latest session may be open, and only the latest call of it.
pub record IsPlaced (m : Mark) : Type 0 where
  pub latest : m.session ≢ 0 → m.session ≡ m.generation
  pub newest : m.token ≢ 0 → m.token ≡ m.last

-- What was done stays done.
pub record Keeps (m n : Mark) : Type 0 where
  pub token : n.token ≡ m.token
  pub answered : m.answered ≡ true → n.answered ≡ true
  pub hung_up : m.hung_up ≡ true → n.hung_up ≡ true
  pub transferred : m.transferred ≡ true → n.transferred ≡ true

-- The session is closed, or a later one is open, or it is the same one; then the call is the same one,
-- or none, or a later one.
pub data Moves (m n : Mark) : Type 0 where
  closed : n.session ≡ 0 → Moves m n
  reopened : m.generation < n.session → Moves m n
  within :
      n.session ≡ m.session
      → m.last ≤ n.last
      → Keeps m n ⊎ (n.token ≡ 0) ⊎ (m.last < n.token)
      → Moves m n

-- A step that keeps the marks in place.
pub record Step (m n : Mark) : Type 0 where
  pub grows : m.generation ≤ n.generation
  pub bounded : m.generation < u64_mod → n.generation < u64_mod
  pub placed : IsPlaced n
  pub moves : Moves m n

module _ (m n k : Mark) where
  Keeps-trans : Keeps m n → Keeps n k → Keeps m k
  Keeps-trans f g = record {
    token = g.token ∙ f.token;
    answered = λ h. g.answered (f.answered h);
    hung_up = λ h. g.hung_up (f.hung_up h);
    transferred = λ h. g.transferred (f.transferred h);
  }

pub Step-refl : (m : Mark) → IsPlaced m → Step m m
Step-refl m v = record {
  grows = omega arith;
  bounded = λ h. h;
  placed = v;
  moves =
      within refl (omega arith)
        (inl (record { token = refl; answered = λ h. h; hung_up = λ h. h; transferred = λ h. h }));
}

-- The same session, twice.
within_trans :
    (m n k : Mark)
    → k.session ≡ m.session
    → m.last ≤ n.last
    → n.last ≤ k.last
    → Keeps m n ⊎ (n.token ≡ 0) ⊎ (m.last < n.token)
    → Keeps n k ⊎ (k.token ≡ 0) ⊎ (n.last < k.token)
    → Moves m k
within_trans m n k e f g (inl v) (inl w) = within e (omega arith) (inl (Keeps-trans m n k v w))
within_trans m n k e f g (inr (inl z)) (inl w) = within e (omega arith) (inr (inl (w.token ∙ z)))
within_trans m n k e f g (inr (inr l)) (inl w) =
    within e (omega arith) (inr (inr (omega (arith, w.token))))
within_trans m n k e f g v (inr (inl z)) = within e (omega arith) (inr (inl z))
within_trans m n k e f g v (inr (inr l)) = within e (omega arith) (inr (inr (omega arith)))

Moves-trans : (m n k : Mark) → m.generation ≤ n.generation → Moves m n → Moves n k → Moves m k
Moves-trans m n k g v (closed e) = closed e
Moves-trans m n k g v (reopened l) = reopened (omega arith)
Moves-trans m n k g (closed e) (within e' l w) = closed (e' ∙ e)
Moves-trans m n k g (reopened l) (within e' l' w) = reopened (omega (arith, e'))
Moves-trans m n k g (within e l v) (within e' l' w) = within_trans m n k (e' ∙ e) l l' v w

pub Step-trans : (m n k : Mark) → Step m n → Step n k → Step m k
Step-trans m n k v w = record {
  grows = omega (arith, v.grows, w.grows);
  bounded = λ h. w.bounded (v.bounded h);
  placed = w.placed;
  moves = Moves-trans m n k v.grows v.moves w.moves;
}

-- No report changes the number of sessions that were begun.
abbrev Numbered : BaresipCallbackIngress → BaresipCallbackIngress → Type 0
Numbered i j = j.mailbox.generation ≡ i.mailbox.generation

enqueue_generation :
    (i : BaresipCallbackIngress) (kind : BaresipEventKind) (token : ℕ)
    → Numbered i (Ingress.enqueue i kind token).0
unfolding Ingress.enqueue Mailbox.enqueue Ingress.revoke Mailbox.invalidate_session
enqueue_generation i kind token = ground arith

revoke_generation : (i : BaresipCallbackIngress) → Numbered i (Ingress.revoke i)
unfolding Ingress.revoke Mailbox.invalidate_session
revoke_generation i = refl

admit_generation :
    (i : BaresipCallbackIngress) (s account : ℕ) → Numbered i (Ingress.admit i s account).0
unfolding Ingress.admit
admit_generation i s account = ground (arith, revoke_generation i)

registration_generation :
    (i : BaresipCallbackIngress) (s account : ℕ) (kind : BaresipEventKind)
    → Numbered i (Ingress.registration i s account kind).0
unfolding Ingress.registration Ingress.register
registration_generation i s account kind =
    let j = (Ingress.admit i s account).0 in
    let k = record j { active_native_key = 0; active_token = 0 } in
    ground (
      arith,
      admit_generation i s account,
      enqueue_generation j kind 0,
      enqueue_generation k kind 0,
      revoke_generation j,
    )

call_started_generation :
    (i : BaresipCallbackIngress) (s account key : ℕ) (kind : BaresipEventKind)
    → Numbered i (Ingress.call_started i s account key kind).0
unfolding Ingress.call_started Ingress.start_call
call_started_generation i s account key kind =
    let j = (Ingress.admit i s account).0 in
    ground (
      arith,
      admit_generation i s account,
      enqueue_generation j kind (inc_u64 j.last_token),
      revoke_generation j,
    )

call_changed_generation :
    (i : BaresipCallbackIngress) (s account key : ℕ) (kind : BaresipEventKind)
    → Numbered i (Ingress.call_changed i s account key kind).0
unfolding Ingress.call_changed Ingress.change_call
call_changed_generation i s account key kind =
    let j = (Ingress.admit i s account).0 in
    ground (
      arith,
      admit_generation i s account,
      enqueue_generation j kind j.active_token,
      revoke_generation j,
    )

pub report_generation :
    (l : BaresipCallbackLifecycle) (c : CapturedSession) (r : Report)
    → Numbered l.ingress (Lifecycle.report l c r).0.ingress
unfolding Lifecycle.report Ingress.accept
report_generation l c (Report.registration kind) =
    ground (arith, registration_generation l.ingress c.mailbox_session c.account_identity kind)
report_generation l c (Report.call_started key kind) =
    ground (arith, call_started_generation l.ingress c.mailbox_session c.account_identity key kind)
report_generation l c (Report.call_changed key kind) =
    ground (arith, call_changed_generation l.ingress c.mailbox_session c.account_identity key kind)
