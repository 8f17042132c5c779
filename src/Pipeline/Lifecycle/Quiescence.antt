-- ===== src/Pipeline/Lifecycle/Quiescence.antt =====
-- No callback of an older generation is in flight once a new one is open.
use axe_voice_desktop.Pipeline.Ingress.Session.{accept_session}
use axe_voice_desktop.Prelude.{
  true, false, ℕ, suc, ◌<◌, ◌≡◌, ◌≢◌, List, [], ◌∷◌, refl, ap, arith, length, All, u64_mod, inc_u64,
}
use axe_voice_desktop.Pipeline.Mailbox.{BaresipEventMailbox}
use axe_voice_desktop.Pipeline.Fence
use axe_voice_desktop.Pipeline.Ingress
use axe_voice_desktop.Pipeline.Ingress.{BaresipCallbackIngress, Callback}
use axe_voice_desktop.Pipeline.Lifecycle.{to_callback, is_captured, begin, reject_current}
use axe_voice_desktop.Pipeline.Lifecycle.Threads.{
  World, Manager, start, Released, Step, Reach, begins, enters, reports, leaves, rejects, revokes,
  waits, clears, ui_changes, here, more, this, next,
}

-- Every number of the list is `n`.
pub AreAll : ℕ → List ℕ → Type 0
AreAll n gs = All (λ g. g ≡ n) gs

-- Every lease counts, and is of the current generation; callbacks are admitted only for the current
-- session; the ingress has a session only while they are; and when nothing is captured, or once the
-- wait of a revocation is over, no lease is out and none is given.
pub record Inv (w : World) : Type 0 where
  pub word : w.life.fence.generation < u64_mod
  pub counted : w.life.fence.in_flight ≡ length w.leases
  pub bounded : length w.leases < u64_mod
  pub same : AreAll w.life.fence.generation w.leases
  pub shut : w.life.fence.accepting ≡ true → w.life.fence.closing ≡ false
  pub captured : w.life.fence.accepting ≡ true → is_captured w.life.current ≡ true
  pub generation :
      w.life.fence.accepting ≡ true → w.life.current.fence_generation ≡ w.life.fence.generation
  pub serial : w.life.fence.accepting ≡ true → w.manager ≡ Manager.idle
  pub session :
      w.life.ingress.session ≢ 0
      → (w.life.fence.accepting ≡ true)
        × (w.life.ingress.session ≡ w.life.current.mailbox_session)
        × (w.life.ingress.account ≡ w.life.current.account_identity)
  pub none : is_captured w.life.current ≡ false → length w.leases ≡ 0
  pub quiet : w.manager ≡ Manager.clearing → length w.leases ≡ 0

length-Released : {g : ℕ} {gs hs : List ℕ} → Released g gs hs → length gs ≡ suc (length hs)
length-Released this = refl
length-Released (next r) = ap suc (length-Released r)

AreAll-Released : {g : ℕ} {gs hs : List ℕ} (n : ℕ) → Released g gs hs → AreAll n gs → AreAll n hs
unfolding AreAll
AreAll-Released n this a = a.1
AreAll-Released n (next r) a = (a.0, AreAll-Released n r a.1)

AreAll-none : (m : ℕ) (gs : List ℕ) → length gs ≡ 0 → AreAll m gs
unfolding AreAll
AreAll-none m [] e = tt
AreAll-none m (g ∷ gs) e = absurd (omega arith)

AreAll-cons : (n g : ℕ) (gs : List ℕ) → g ≡ n → AreAll n gs → AreAll n (g ∷ gs)
unfolding AreAll
AreAll-cons n g gs e a = (e, a)

begin_session_result :
    (i : BaresipCallbackIngress) (account : ℕ)
    → let (j, n) = Ingress.begin_session i account in
      (n ≡ 0 → j.session ≢ 0 → (j.session ≡ i.session) × (j.account ≡ i.account))
      × (n ≢ 0 → (j.session ≡ n) × (j.account ≡ account))
unfolding Ingress.begin_session
begin_session_result i account = ground arith

begin-Inv :
    {w : World} (account : ℕ)
    → w.manager ≡ Manager.idle
    → Inv w
    → Inv (record w { life = (begin w.life account).0 })
unfolding begin Fence.begin Fence.close Fence.finish_wait
begin-Inv {w} account m v = ground (
  arith,
  AreAll-none (inc_u64 w.life.fence.generation) w.leases,
  begin_session_result w.life.ingress account,
)

-- Every step keeps the invariant.
pub Step-Inv : {w u : World} → Step w u → Inv w → Inv u
unfolding reject_current Fence.admit Fence.close Fence.can_wait Fence.finish_wait Fence.release_one
    Ingress.revoke
Step-Inv (begins account m) v = begin-Inv account m v
Step-Inv {w} (enters captured h room) v =
    ground (arith, AreAll-cons w.life.fence.generation captured.fence_generation w.leases)
Step-Inv {w} (reports captured r) v =
    ground (arith, accept_session w.life.ingress (to_callback captured r))
Step-Inv {w} (leaves g gs r) v =
    ground (arith, length-Released r, AreAll-Released w.life.fence.generation r v.same)
Step-Inv rejects v = ground arith
Step-Inv (revokes m) v = ground arith
Step-Inv (waits m h) v = ground arith
Step-Inv (clears m) v = ground arith
Step-Inv (ui_changes m) v = ground arith

start-Inv : (m : BaresipEventMailbox) → Inv (start m)
start-Inv m = ground (arith, AreAll-none 0 [])

-- However the threads interleave, from a life cycle that was just made: as many leases are out as the
-- fence counts, all of them of the current generation; callbacks are admitted, and the ingress has a
-- session, only for what is captured; and none is out once nothing is captured or the wait of a
-- revocation is over.
pub Reach-Inv : {m : BaresipEventMailbox} {w : World} → Reach (start m) w → Inv w
Reach-Inv {m} here = start-Inv m
Reach-Inv (more r s) = Step-Inv s (Reach-Inv r)
