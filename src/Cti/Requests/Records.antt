-- ===== src/Cti/Requests/Records.antt =====
-- The records of the requests.
use axe_voice_desktop.Prelude.{
  true, ℕ, ◌+◌, ◌≤◌, ◌<◌, ◌≡◌, List, [], ◌∷◌, ◌++◌, some, refl, arith, length, All, length-append,
}
use axe_voice_desktop.Cti.Log.{push_bounded}
use axe_voice_desktop.Cti.Request.{CtiRequestState, CtiRequestResult, CtiPendingRequest}
use axe_voice_desktop.Cti.Requests.{
  capacity, find_record, set_state, has_queued, reject_queued, is_queued,
}

-- All identifiers are below `n`.
pub IdsBelow : ℕ → List CtiRequestResult → Type 0
IdsBelow n rs = All (λ r. r.id < n) rs

pub IdsBelow-none : (n : ℕ) → IdsBelow n []
unfolding IdsBelow
IdsBelow-none n = tt

pub IdsBelow-mono : (m n : ℕ) (rs : List CtiRequestResult) → m ≤ n → IdsBelow m rs → IdsBelow n rs
unfolding IdsBelow
IdsBelow-mono m n [] h v = tt
IdsBelow-mono m n (r ∷ rs) h v = (omega (arith, v.0), IdsBelow-mono m n rs h v.1)

IdsBelow-append :
    (n : ℕ) (rs : List CtiRequestResult) (r : CtiRequestResult)
    → r.id < n
    → IdsBelow n rs
    → IdsBelow n (rs ++ r ∷ [])
unfolding IdsBelow
IdsBelow-append n [] r h v = (h, tt)
IdsBelow-append n (x ∷ rs) r h v = (v.0, IdsBelow-append n rs r h v.1)

IdsBelow-tail :
    (n : ℕ) (r : CtiRequestResult) (rs : List CtiRequestResult)
    → IdsBelow n (r ∷ rs)
    → IdsBelow n rs
unfolding IdsBelow
IdsBelow-tail n r rs v = v.1

find-append :
    (rs : List CtiRequestResult) (r : CtiRequestResult)
    → IdsBelow r.id rs
    → find_record (rs ++ r ∷ []) r.id ≡ some r
unfolding IdsBelow
find-append [] r v = ground arith
find-append (x ∷ rs) r v = ground (arith, find-append rs r v.1, v.0)

-- A new record is found under its identifier, and the list stays within its capacity.
pub record Pushed (r : CtiRequestResult) (rs : List CtiRequestResult) : Type 0 where
  pub room : length rs ≤ capacity
  pub below : IdsBelow (r.id + 1) rs
  pub found : find_record rs r.id ≡ some r

pub push_bounded-Pushed :
    (rs : List CtiRequestResult) (r : CtiRequestResult)
    → length rs ≤ capacity
    → IdsBelow r.id rs
    → Pushed r (push_bounded capacity rs r)
push_bounded-Pushed [] r room v =
    ground (arith, IdsBelow-append (r.id + 1) [] r, find-append [] r v, IdsBelow-none (r.id + 1))
push_bounded-Pushed (x ∷ xs) r room v =
    let w = IdsBelow-mono r.id (r.id + 1) (x ∷ xs) (omega arith) v in
    ground (
      arith,
      length-append xs (r ∷ []),
      IdsBelow-append (r.id + 1) (x ∷ xs) r (omega arith) w,
      IdsBelow-append (r.id + 1) xs r (omega arith) (IdsBelow-tail (r.id + 1) x xs w),
      find-append (x ∷ xs) r v,
      find-append xs r (IdsBelow-tail r.id x xs v),
    )

-- The state of a record is set: the list keeps its length and its identifiers.
pub IdsBelow-set_state :
    (n id : ℕ) (s : CtiRequestState) (rs : List CtiRequestResult)
    → IdsBelow n rs
    → IdsBelow n (set_state rs id s)
unfolding IdsBelow
IdsBelow-set_state n id s [] v = tt
IdsBelow-set_state n id s (r ∷ rs) v = ground (arith, v, IdsBelow-set_state n id s rs v.1)

pub length-set_state :
    (id : ℕ) (s : CtiRequestState) (rs : List CtiRequestResult)
    → length (set_state rs id s) ≡ length rs
length-set_state id s [] = refl
length-set_state id s (r ∷ rs) = ground (arith, length-set_state id s rs)

pub find-set_state :
    (id : ℕ) (s : CtiRequestState) (rs : List CtiRequestResult) (r : CtiRequestResult)
    → find_record rs id ≡ some r
    → find_record (set_state rs id s) id ≡ some (record r { state = s })
find-set_state id s [] r h = ground arith
find-set_state id s (x ∷ rs) r h = ground (arith, find-set_state id s rs r)

pub IdsBelow-reject_queued :
    (n id : ℕ) (rs : List CtiRequestResult) → IdsBelow n rs → IdsBelow n (reject_queued rs id)
unfolding IdsBelow
IdsBelow-reject_queued n id [] v = tt
IdsBelow-reject_queued n id (r ∷ rs) v = ground (arith, v, IdsBelow-reject_queued n id rs v.1)

pub length-reject_queued :
    (id : ℕ) (rs : List CtiRequestResult) → length (reject_queued rs id) ≡ length rs
length-reject_queued id [] = refl
length-reject_queued id (r ∷ rs) = ground (arith, length-reject_queued id rs)

-- The request, if there is one, has a record in the state.
pub record Held (rs : List CtiRequestResult) (p : CtiPendingRequest) (s : CtiRequestState)
    : Type 0 where
  pub entry : CtiRequestResult
  pub found : find_record rs p.id ≡ some entry
  pub state : entry.state ≡ s

find-has_queued :
    (rs : List CtiRequestResult) (id : ℕ) (r : CtiRequestResult)
    → find_record rs id ≡ some r
    → is_queued r.state ≡ true
    → has_queued rs id ≡ true
find-has_queued [] id r h q = ground arith
find-has_queued (x ∷ rs) id r h q = ground (arith, find-has_queued rs id r)

pub Held-has_queued :
    (rs : List CtiRequestResult) (p : CtiPendingRequest)
    → Held rs p CtiRequestState.queued
    → has_queued rs p.id ≡ true
Held-has_queued rs p v = find-has_queued rs p.id v.entry v.found (ground (arith, v.state))
