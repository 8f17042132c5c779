-- ===== src/Audio/Async.antt =====
-- src/audio_inventory_async.cpp: the inventory that a worker makes. Each method, and the end of a
-- worker, is one critical section. The probe is the operating system's.
pub mod Fresh
use axe_voice_desktop.Prelude.{
  Bool, true, false, ℕ, zero, suc, ◌+◌, ◌-◌, ◌*◌, ◌/◌, ◌%◌, ◌^◌, ◌≤◌, ◌<◌, ◌≡◌, ◌≢◌, ◌↔◌, ◌⊎◌, ◌∙◌,
  ◌==◌, ◌!=◌, ◌||◌, ◌&&◌, not, if◌then◌else◌, leb, ltb, List, [], ◌∷◌, ◌++◌, map, append_assoc,
  append-nil, Option, none, some, inl, inr, refl, sym, ap, arith, tests, Bool-cases, Option-cases,
  length, get_or, set, take, drop, replicate, pop_front, All, All-append, All-mono, All-take,
  length-append, length-set, length-take, get_or-set_self, get_or-set_ne, u64_mod, u64_max, inc_u64,
  sub_u64, Text, codes, text_eq, is_empty, any, all, between, is_digit, is_letter, is_alnum,
  text_eq→≡, text_eq_refl, Before, newer_session, newer_sequence, NewerFrom, NewerFrom-mono,
  NotAfter, newer, same_or_later, NotAfter-trans, lt→ltb, ltb→lt, leb→le, le→leb, ==_iff,
}
use axe_voice_desktop.Audio.Devices.{AudioInventory, empty_inventory}

pub record AudioInventoryAsyncSnapshot : Type 0 where
  pub generation : ℕ  -- uint64_t
  pub busy : Bool
  pub pending : Bool
  pub ready : Bool
  pub closed : Bool
  pub launch_failed : Bool

-- `State`, and the generation that the worker has captured while it runs.
pub record AudioInventoryAsync : Type 0 where
  pub status : AudioInventoryAsyncSnapshot
  pub result : AudioInventory
  pub worker : Option ℕ

abbrev pub make_async : AudioInventoryAsync
make_async = record {
  status = record {
    generation = 0;
    busy = false;
    pending = false;
    ready = false;
    closed = false;
    launch_failed = false;
  };
  result = empty_inventory;
  worker = none;
}

unfoldable pub invalidate : AudioInventoryAsync → AudioInventoryAsync × Bool
invalidate s =
    let dropped = record s {
      status = record (s.status) { pending = false; ready = false };
      result = empty_inventory;
    } in
    if s.status.generation == u64_max
    then (record dropped { status = record (dropped.status) { closed = true } }, false)
    else (
      record dropped {
        status = record (dropped.status) { generation = inc_u64 s.status.generation };
      },
      true,
    )

unfoldable pub request : AudioInventoryAsync → AudioInventoryAsync × Bool
request s =
    let (t, valid) = invalidate s in
    if s.status.closed
    then (s, false)
    else if not valid
    then (t, false)
    else (record t { status = record (t.status) { pending = true } }, true)

-- `launched` says whether the thread could be made.
unfoldable pub start_pending : AudioInventoryAsync → Bool → AudioInventoryAsync × Bool
start_pending s launched =
    if s.status.closed || s.status.busy || not s.status.pending
    then (s, false)
    else if not launched
    then (record s { status = record (s.status) { busy = false; launch_failed = true } }, false)
    else (
      record s {
        status = record (s.status) { busy = true; pending = false; launch_failed = false };
        worker = some s.status.generation;
      },
      true,
    )

-- The worker of a generation has its result.
unfoldable pub complete_for : AudioInventoryAsync → Option ℕ → AudioInventory → AudioInventoryAsync
complete_for s none inventory = s
complete_for s (some generation) inventory =
    let idle = record s { status = record (s.status) { busy = false }; worker = none } in
    if not s.status.closed && s.status.generation == generation
    then record idle { status = record (idle.status) { ready = true }; result = inventory }
    else idle

abbrev pub complete : AudioInventoryAsync → AudioInventory → AudioInventoryAsync
complete s inventory = complete_for s s.worker inventory

unfoldable pub take_result : AudioInventoryAsync → AudioInventoryAsync × Option AudioInventory
take_result s =
    if s.status.closed || not s.status.ready
    then (s, none)
    else (record s { status = record (s.status) { ready = false } }, some s.result)

unfoldable pub cancel : AudioInventoryAsync → AudioInventoryAsync
cancel s = if s.status.closed then s else (invalidate s).0

unfoldable pub close : AudioInventoryAsync → AudioInventoryAsync
close s = let t = cancel s in record t { status = record (t.status) { closed = true } }
