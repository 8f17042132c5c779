-- ===== src/Sdk/Adapter/History.antt =====
-- The adapter over its whole life: it is started and stopped, and callbacks come in between.
use axe_voice_desktop.Prelude.{true, false, ℕ, ◌<◌, ◌≡◌, ◌⊎◌, List, [], ◌∷◌, arith, u64_mod}
use axe_voice_desktop.Pipeline.Fence
use axe_voice_desktop.Pipeline.Ingress
use axe_voice_desktop.Pipeline.Mailbox.{empty_mailbox}
use axe_voice_desktop.Pipeline.Lifecycle
use axe_voice_desktop.Pipeline.Lifecycle.{
  BaresipCallbackLifecycle, CapturedSession, is_captured, make_lifecycle, nothing,
}
use axe_voice_desktop.Sdk.Event.{Delivery}
use axe_voice_desktop.Sdk.Adapter.{
  BaresipSdkEventAdapter, make_adapter, stop, start, register, callback, run,
}
use axe_voice_desktop.Sdk.Adapter.Moves.{mark, IsPlaced, Step, Step-refl, Step-trans}
use axe_voice_desktop.Sdk.Adapter.Steps.{start-Step, stop-Step, callback-Step}
use axe_voice_desktop.Sdk.Adapter.Inv.{IsAgreed, stop-IsAgreed, callback-IsAgreed}

register-IsAgreed :
    (a : BaresipSdkEventAdapter) (owner : ℕ) (c : CapturedSession) (error : ℕ)
    → a.lifecycle.ingress.session ≡ c.mailbox_session
    → a.lifecycle.ingress.account ≡ c.account_identity
    → owner ≡ c.account_identity
    → a.lifecycle.fence.accepting ≡ true
    → a.lifecycle.fence.closing ≡ false
    → a.lifecycle.fence.generation ≡ c.fence_generation
    → a.lifecycle.ingress.last_native_key ≡ 0
    → a.lifecycle.ingress.active_token ≡ 0
    → a.lifecycle.ingress.last_token ≡ 0
    → is_captured c ≡ true
    → IsAgreed (register a owner c error).0
unfolding register Lifecycle.revoke_and_wait Lifecycle.reject_current Ingress.revoke
register-IsAgreed a owner c error h1 h2 h3 h4 h5 h6 h7 h8 h9 h = ground arith

-- What a session that could not be begun, and one that was begun, look like.
begin_shape :
    (l : BaresipCallbackLifecycle) (account : ℕ)
    → l.ingress.session ≡ 0
    → l.ingress.active_token ≡ 0
    → l.ingress.last_token < u64_mod
    → let (l', c) = Lifecycle.begin l account in
      (l'.ingress.active_token ≡ 0)
      × (l'.ingress.last_token < u64_mod)
      × (((is_captured c ≡ false) × (l'.ingress.session ≡ 0))
          ⊎ ((is_captured c ≡ true)
              × (l'.ingress.session ≡ c.mailbox_session)
              × (l'.ingress.account ≡ c.account_identity)
              × (account ≡ c.account_identity)
              × (l'.fence.accepting ≡ true)
              × (l'.fence.closing ≡ false)
              × (l'.fence.generation ≡ c.fence_generation)
              × (l'.ingress.last_native_key ≡ 0)
              × (l'.ingress.last_token ≡ 0)))
unfolding Lifecycle.begin Fence.begin Ingress.begin_session
begin_shape l account h1 h2 h3 = ground arith

idle-IsAgreed :
    (a : BaresipSdkEventAdapter) (l : BaresipCallbackLifecycle)
    → IsAgreed a
    → is_captured a.captured ≡ false
    → a.lifecycle.ingress.active_token ≡ 0
    → l.ingress.active_token ≡ 0
    → l.ingress.session ≡ 0
    → l.ingress.last_token < u64_mod
    → IsAgreed (record a { lifecycle = l })
idle-IsAgreed a l v h1 h2 h3 h4 h5 = ground arith

pub start-IsAgreed :
    (a : BaresipSdkEventAdapter) (owner error : ℕ) → IsAgreed a → IsAgreed (start a owner error).0
unfolding start
start-IsAgreed a owner error v =
    let (l, c) = Lifecycle.begin a.lifecycle owner in
    ground (
      arith,
      begin_shape a.lifecycle owner,
      idle-IsAgreed a l v,
      register-IsAgreed (record a { lifecycle = l }) owner c error,
    )

-- What is kept over the whole life.
pub record IsSound (a : BaresipSdkEventAdapter) : Type 0 where
  pub agreed : IsAgreed a
  pub placed : IsPlaced (mark a)
  pub counted : a.lifecycle.ingress.mailbox.generation < u64_mod

-- What leads from one adapter to another.
pub record Leads (a b : BaresipSdkEventAdapter) : Type 0 where
  pub sound : IsSound b
  pub step : Step (mark a) (mark b)

pub Leads-refl : (a : BaresipSdkEventAdapter) → IsSound a → Leads a a
Leads-refl a v = record { sound = v; step = Step-refl (mark a) v.placed }

pub Leads-trans : (a b c : BaresipSdkEventAdapter) → Leads a b → Leads b c → Leads a c
Leads-trans a b c v w = record {
  sound = w.sound;
  step = Step-trans (mark a) (mark b) (mark c) v.step w.step;
}

pub leads :
    (a b : BaresipSdkEventAdapter) → IsSound a → IsAgreed b → Step (mark a) (mark b) → Leads a b
leads a b v w s = record {
  sound = record { agreed = w; placed = s.placed; counted = s.bounded v.counted };
  step = s;
}

pub stop-Leads : (a : BaresipSdkEventAdapter) → IsSound a → Leads a (stop a)
stop-Leads a v = leads a (stop a) v (stop-IsAgreed a) (stop-Step a)

pub start-Leads :
    (a : BaresipSdkEventAdapter) (owner error : ℕ) → IsSound a → Leads a (start a owner error).0
start-Leads a owner error v =
    leads a (start a owner error).0 v (start-IsAgreed a owner error v.agreed)
      (start-Step a owner error v.agreed v.placed v.counted)

pub callback-Leads :
    (a : BaresipSdkEventAdapter) (d : Delivery) → IsSound a → Leads a (callback a d)
callback-Leads a d v =
    leads a (callback a d) v (callback-IsAgreed a d v.agreed) (callback-Step a d v.agreed v.placed)

pub run-Leads : (ds : List Delivery) (a : BaresipSdkEventAdapter) → IsSound a → Leads a (run a ds)
unfolding run
run-Leads [] a v = Leads-refl a v
run-Leads (d ∷ ds) a v =
    let first = callback-Leads a d v in
    Leads-trans a (callback a d) (run (callback a d) ds) first
      (run-Leads ds (callback a d) first.sound)

-- The adapter of a mailbox that is new.
abbrev pub new_adapter : BaresipSdkEventAdapter
new_adapter = make_adapter (make_lifecycle empty_mailbox)

pub new_adapter-IsSound : IsSound new_adapter
new_adapter-IsSound = record { agreed = ground arith; placed = ground arith; counted = omega arith }
