-- ===== src/Pipeline/Lifecycle/Threads.antt =====
-- The callback threads, the management thread and the UI thread round one life cycle, interleaved.
use axe_voice_desktop.Prelude.{true, ℕ, ◌<◌, ◌≡◌, List, [], ◌∷◌, length, u64_max}
use axe_voice_desktop.Pipeline.Mailbox.{BaresipEventMailbox}
use axe_voice_desktop.Pipeline.Fence
use axe_voice_desktop.Pipeline.Fence.{BaresipCallbackFence, initial_fence}
use axe_voice_desktop.Pipeline.Ingress
use axe_voice_desktop.Pipeline.Ingress.{BaresipCallbackIngress, Callback, make_ingress}
use axe_voice_desktop.Pipeline.Lifecycle.{
  CapturedSession, BaresipCallbackLifecycle, Report, to_callback, nothing, make_lifecycle, begin,
  reject_current,
}

-- Where the management thread stands: in no call, or in `revoke_and_wait` before or after its wait.
pub data Manager : Type 0 where
  idle waiting clearing : Manager

-- `leases` has the generation under which each lease that is not yet released was handed out.
pub record World : Type 0 where
  pub life : BaresipCallbackLifecycle
  pub leases : List ℕ
  pub manager : Manager

abbrev pub start : BaresipEventMailbox → World
start m = record { life = make_lifecycle m; leases = []; manager = Manager.idle }

-- One of several equal leases goes.
pub data Released (g : ℕ) : List ℕ → List ℕ → Type 0 where
  this : {gs : List ℕ} → Released g (g ∷ gs) gs
  next : {h : ℕ} {gs hs : List ℕ} → Released g gs hs → Released g (h ∷ gs) (h ∷ hs)

-- Methods under `lifecycle_`, and critical sections of the fence and the ingress, are the steps. The
-- management thread serializes `begin` and `revoke_and_wait`, as the source requires; callback
-- threads enter, report and leave as they like, and may reject the current session; that they report
-- only under a lease is not used. The UI thread changes the mailbox as it likes. Fewer than 2 ^ 64
-- leases fit into memory.
pub data Step (w : World) : World → Type 0 where
  begins :
      (account : ℕ)
      → w.manager ≡ Manager.idle
      → Step w (record w { life = (begin w.life account).0 })
  enters :
      (captured : CapturedSession)
      → (Fence.admit w.life.fence captured.fence_generation).1 ≡ true
      → length w.leases < u64_max
      → Step w (record w {
        life = record (w.life) { fence = (Fence.admit w.life.fence captured.fence_generation).0 };
        leases = captured.fence_generation ∷ w.leases;
      })
  reports :
      (captured : CapturedSession) (r : Report)
      → Step w (record w {
        life = record (w.life) {
          ingress = (Ingress.accept w.life.ingress (to_callback captured r)).0;
        };
      })
  leaves :
      (g : ℕ) (gs : List ℕ)
      → Released g w.leases gs
      → Step w (record w {
        life = record (w.life) { fence = Fence.release_one w.life.fence };
        leases = gs;
      })
  rejects : Step w (record w { life = reject_current w.life })
  revokes :
      w.manager ≡ Manager.idle
      → Step w (record w { life = reject_current w.life; manager = Manager.waiting })
  waits :
      w.manager ≡ Manager.waiting
      → Fence.can_wait w.life.fence ≡ true
      → Step w (record w {
        life = record (w.life) { fence = Fence.finish_wait w.life.fence };
        manager = Manager.clearing;
      })
  clears :
      w.manager ≡ Manager.clearing
      → Step w (record w { life = record (w.life) { current = nothing }; manager = Manager.idle })
  ui_changes :
      (m : BaresipEventMailbox)
      → Step w (record w {
        life = record (w.life) { ingress = record (w.life.ingress) { mailbox = m } };
      })

pub data Reach (s : World) : World → Type 0 where
  here : Reach s s
  more : {w v : World} → Reach s w → Step w v → Reach s v
