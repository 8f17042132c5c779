-- ===== src/Pipeline/Fence.antt =====
-- src/baresip_callback_lifecycle.h, `BaresipCallbackFence`: the gate that counts the callbacks in
-- flight. A `Lease` is the right to call `release_one` once. Each method is one critical section,
-- but for `wait`, which blocks until its condition holds: `can_wait` says when it goes on.
use axe_voice_desktop.Prelude.{
  Bool, true, false, ℕ, ◌==◌, ◌!=◌, ◌||◌, not, if◌then◌else◌, u64_max, inc_u64, sub_u64,
}

pub record BaresipCallbackFence : Type 0 where
  pub generation : ℕ  -- uint64_t
  pub in_flight : ℕ  -- uint64_t
  pub accepting : Bool
  pub closing : Bool

abbrev pub initial_fence : BaresipCallbackFence
initial_fence = record { generation = 0; in_flight = 0; accepting = false; closing = false }

unfoldable pub begin : BaresipCallbackFence → BaresipCallbackFence × ℕ
begin f =
    if f.accepting || f.closing || f.in_flight != 0 || f.generation == u64_max
    then (f, 0)
    else let next = inc_u64 f.generation in (record f { accepting = true; generation = next }, next)

-- True if the caller is handed a lease.
unfoldable pub admit : BaresipCallbackFence → ℕ → BaresipCallbackFence × Bool
admit f captured_generation =
    if not f.accepting
      || f.closing
      || captured_generation == 0
      || captured_generation != f.generation
    then (f, false)
    else (record f { in_flight = inc_u64 f.in_flight }, true)

unfoldable pub close : BaresipCallbackFence → BaresipCallbackFence
close f = record f { accepting = false; closing = true }

unfoldable pub can_wait : BaresipCallbackFence → Bool
can_wait f = f.in_flight == 0

-- The rest of `wait`, once its condition holds.
unfoldable pub finish_wait : BaresipCallbackFence → BaresipCallbackFence
finish_wait f = record f { closing = false }

unfoldable pub release_one : BaresipCallbackFence → BaresipCallbackFence
release_one f = record f { in_flight = sub_u64 f.in_flight 1 }
