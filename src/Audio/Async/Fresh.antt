-- ===== src/Audio/Async/Fresh.antt =====
-- An inventory that is taken is not older than what was asked for last.
use axe_voice_desktop.Prelude.{
  Bool, true, false, ℕ, ◌+◌, ◌≤◌, ◌<◌, ◌≡◌, if◌then◌else◌, List, [], ◌∷◌, Option, none, some, refl,
  arith, u64_mod,
}
use axe_voice_desktop.Audio.Devices.{AudioInventory, empty_inventory}
use axe_voice_desktop.Audio.Async.{
  AudioInventoryAsync, make_async, invalidate, request, start_pending, complete, complete_for,
  take_result, cancel, close,
}

-- The calls, and the end of the worker with what it has found.
pub data Op : Type 0 where
  requested : Op
  launched : Bool → Op
  completed : AudioInventory → Op
  taken cancelled closed : Op

unfoldable pub step : AudioInventoryAsync → Op → AudioInventoryAsync
step s requested = (request s).0
step s (launched ok) = (start_pending s ok).0
step s (completed inventory) = complete s inventory
step s taken = (take_result s).0
step s cancelled = cancel s
step s closed = close s

-- The calls that make what was probed before worthless.
abbrev pub supersedes : Op → Bool
supersedes requested = true
supersedes cancelled = true
supersedes closed = true
supersedes _ = false

-- What is told of a history: how often the inventory was asked for, given up or closed so far; the count
-- at which the worker that runs was started; the count at which the one was that ended last, and what it
-- found.
pub record Story : Type 0 where
  pub now : ℕ
  pub working : ℕ
  pub found : ℕ
  pub result : AudioInventory

abbrev pub counted : Op → Story → Story
counted op t = if supersedes op then record t { now = t.now + 1 } else t

abbrev pub ended : Option ℕ → AudioInventory → Story → Story
ended none inventory t = t
ended (some generation) inventory t = record t { found = t.working; result = inventory }

unfoldable pub tell : AudioInventoryAsync → Op → Story → Story
tell s (launched ok) t = if (start_pending s ok).1 then record t { working = t.now } else t
tell s (completed inventory) t = ended s.worker inventory t
tell s op t = counted op t

abbrev is_working : Option ℕ → Bool
is_working none = false
is_working (some generation) = true

abbrev generation_of : Option ℕ → ℕ
generation_of none = 0
generation_of (some generation) = generation

-- A worker that runs for the present generation was started after the last call that superseded it, and
-- a result that is ready is of such a worker; none is ready while a worker runs or waits.
pub record IsFresh (s : AudioInventoryAsync) (t : Story) : Type 0 where
  pub word : s.status.generation < u64_mod
  pub at_work : s.status.busy ≡ is_working s.worker
  pub older : generation_of s.worker ≤ s.status.generation
  pub current :
      s.status.closed ≡ false
      → is_working s.worker ≡ true
      → generation_of s.worker ≡ s.status.generation
      → t.working ≡ t.now
  pub begun :
      s.status.closed ≡ false
      → is_working s.worker ≡ true
      → generation_of s.worker ≡ s.status.generation
      → s.status.pending ≡ false
  pub quiet : s.status.ready ≡ true → s.status.busy ≡ false
  pub waiting : s.status.pending ≡ true → s.status.ready ≡ false
  pub shut : s.status.closed ≡ true → s.status.ready ≡ false
  pub ready_count : s.status.ready ≡ true → t.found ≡ t.now
  pub ready_result : s.status.ready ≡ true → s.result ≡ t.result

module _ (s : AudioInventoryAsync) (t : Story) (v : IsFresh s t) where
  invalidate-IsFresh :
      s.status.closed ≡ false → IsFresh (invalidate s).0 (record t { now = t.now + 1 })
  unfolding invalidate
  invalidate-IsFresh h = ground arith

  request-IsFresh : IsFresh (request s).0 (record t { now = t.now + 1 })
  unfolding request invalidate
  request-IsFresh = ground arith

  start_pending-IsFresh :
      (ok : Bool)
      → IsFresh
          (start_pending s ok).0
          (if (start_pending s ok).1 then record t { working = t.now } else t)
  unfolding start_pending
  start_pending-IsFresh ok = ground arith

  take_result-IsFresh : IsFresh (take_result s).0 t
  unfolding take_result
  take_result-IsFresh = ground arith

  cancel-IsFresh : IsFresh (cancel s) (record t { now = t.now + 1 })
  unfolding cancel
  cancel-IsFresh = ground (arith, invalidate-IsFresh)

shut-IsFresh :
    (s : AudioInventoryAsync) (t : Story)
    → IsFresh s t
    → s.status.ready ≡ false
    → IsFresh (record s { status = record (s.status) { closed = true } }) t
shut-IsFresh s t v h = ground arith

cancel_unready :
    (s : AudioInventoryAsync) (t : Story) → IsFresh s t → (cancel s).status.ready ≡ false
unfolding cancel invalidate
cancel_unready s t v = ground arith

close-IsFresh :
    (s : AudioInventoryAsync) (t : Story)
    → IsFresh s t
    → IsFresh (close s) (record t { now = t.now + 1 })
unfolding close
close-IsFresh s t v =
    shut-IsFresh (cancel s) (record t { now = t.now + 1 }) (cancel-IsFresh s t v)
      (cancel_unready s t v)

complete-IsFresh :
    (worker : Option ℕ) (s : AudioInventoryAsync) (t : Story) (inventory : AudioInventory)
    → s.worker ≡ worker
    → IsFresh s t
    → IsFresh (complete_for s worker inventory) (ended worker inventory t)
unfolding complete_for
complete-IsFresh none s t inventory e v = v
complete-IsFresh (some g) s t inventory e v = ground (arith, e)

step-IsFresh :
    (op : Op) (s : AudioInventoryAsync) (t : Story)
    → IsFresh s t
    → IsFresh (step s op) (tell s op t)
unfolding step tell
step-IsFresh requested s t v = request-IsFresh s t v
step-IsFresh (launched ok) s t v = start_pending-IsFresh s t v ok
step-IsFresh (completed inventory) s t v = complete-IsFresh s.worker s t inventory refl v
step-IsFresh taken s t v = take_result-IsFresh s t v
step-IsFresh cancelled s t v = cancel-IsFresh s t v
step-IsFresh closed s t v = close-IsFresh s t v

unfoldable pub run : AudioInventoryAsync → Story → List Op → AudioInventoryAsync × Story
run s t [] = (s, t)
run s t (op ∷ ops) = run (step s op) (tell s op t) ops

abbrev pub first_story : AudioInventory → Story
first_story inventory = record { now = 0; working = 0; found = 0; result = inventory }

run-IsFresh :
    (ops : List Op) (s : AudioInventoryAsync) (t : Story)
    → IsFresh s t
    → IsFresh (run s t ops).0 (run s t ops).1
unfolding run
run-IsFresh [] s t v = v
run-IsFresh (op ∷ ops) s t v = run-IsFresh ops (step s op) (tell s op t) (step-IsFresh op s t v)

make_async-IsFresh : IsFresh make_async (first_story empty_inventory)
make_async-IsFresh = ground arith

-- Whatever calls come and whenever workers end, an inventory that is taken is the one that the worker
-- found that ended last, and that worker was started after the inventory was last asked for, given up or
-- closed.
pub taken_is_fresh :
    (ops : List Op) (inventory : AudioInventory)
    → let (s, t) = run make_async (first_story empty_inventory) ops in
      (take_result s).1 ≡ some inventory → (inventory ≡ t.result) × (t.found ≡ t.now)
unfolding take_result
taken_is_fresh ops inventory h =
    let v = run-IsFresh ops make_async (first_story empty_inventory) make_async-IsFresh in
    ground (arith, h, v.ready_count, v.ready_result)
