-- ===== src/Registration/Queue.antt =====
-- src/baresip_registration_command_queue.h: the requests for the thread that owns the registration.
-- Each method holds the mutex throughout.
pub mod Commands
pub mod Inv
pub mod Closing
use axe_voice_desktop.Registration.Command.{
  RegistrationCommand, RegistrationCommandKind, is_cancel, no_command,
}
use axe_voice_desktop.Prelude.{
  Bool, true, false, ℕ, zero, suc, ◌+◌, ◌-◌, ◌*◌, ◌/◌, ◌%◌, ◌^◌, ◌≤◌, ◌<◌, ◌≡◌, ◌≢◌, ◌↔◌, ◌⊎◌, ◌∙◌,
  ◌==◌, ◌!=◌, ◌||◌, ◌&&◌, not, if◌then◌else◌, leb, ltb, List, [], ◌∷◌, ◌++◌, map, Option, none,
  some, inl, inr, refl, sym, ap, arith, tests, Bool-cases, Option-cases, length, get_or, set, take,
  drop, replicate, pop_front, All, All-append, All-mono, length-append, length-set, get_or-set_self,
  get_or-set_ne, u64_mod, u64_max, inc_u64, sub_u64, lt→ltb, ltb→lt, leb→le, le→leb, ==_iff,
}

abbrev pub k_capacity : ℕ
k_capacity = 16

abbrev pub k_min_timeout_ms : ℕ
k_min_timeout_ms = 1000

abbrev pub k_max_timeout_ms : ℕ
k_max_timeout_ms = 120000

-- The list holds the first `size` entries of the array, the ones that are used.
pub record Batch : Type 0 where
  pub commands : List RegistrationCommand
  pub generation : ℕ
  pub revision : ℕ
  pub overflow : Bool

abbrev pub no_batch : Batch
no_batch = record { commands = []; generation = 0; revision = 0; overflow = false }

pub record RegistrationCommandQueue : Type 0 where
  pub entries : List RegistrationCommand  -- std::array of kCapacity
  pub size : ℕ
  pub generation : ℕ  -- uint64_t
  pub last_generation : ℕ  -- uint64_t
  pub revision : ℕ  -- uint64_t
  pub is_open : Bool
  pub overflow : Bool

abbrev pub initial_queue : RegistrationCommandQueue
initial_queue = record {
  entries = replicate k_capacity no_command;
  size = 0;
  generation = 0;
  last_generation = 0;
  revision = 0;
  is_open = false;
  overflow = false;
}

unfoldable pub begin_generation : RegistrationCommandQueue → RegistrationCommandQueue × ℕ
begin_generation q =
    if q.is_open || q.size != 0 || q.overflow || q.last_generation == u64_max
    then (q, 0)
    else let next = inc_u64 q.last_generation in
      (record q { generation = next; last_generation = next; is_open = true }, next)

-- A cancellation goes first even when the queue is full, and shuts it.
unfoldable pub enqueue :
    RegistrationCommandQueue → RegistrationCommand → RegistrationCommandQueue × Bool
enqueue q command =
    if not q.is_open || command.generation == 0 || command.generation != q.generation || q.overflow
    then (q, false)
    else if is_cancel command.kind
    then (
      record q {
        entries = set q.entries 0 command;
        size = 1;
        is_open = false;
        revision = inc_u64 q.revision;
      },
      true,
    )
    else if q.size == k_capacity
    then (
      record q { size = 0; is_open = false; overflow = true; revision = inc_u64 q.revision },
      false,
    )
    else (record q { entries = set q.entries q.size command; size = q.size + 1 }, true)

unfoldable pub submit : RegistrationCommandQueue → ℕ → ℕ → RegistrationCommandQueue × Bool
submit q generation timeout_ms =
    if ltb timeout_ms k_min_timeout_ms || ltb k_max_timeout_ms timeout_ms
    then (q, false)
    else enqueue q (record {
      kind = RegistrationCommandKind.submit_selected_account;
      generation = generation;
      timeout_ms = timeout_ms;
    })

unfoldable pub cancel : RegistrationCommandQueue → ℕ → RegistrationCommandQueue × Bool
cancel q generation =
    enqueue q
      (record { kind = RegistrationCommandKind.cancel; generation = generation; timeout_ms = 0 })

unfoldable pub drain : RegistrationCommandQueue → ℕ → RegistrationCommandQueue × Batch
drain q expected_generation =
    if expected_generation == 0 || q.generation != expected_generation
    then (q, no_batch)
    else if not q.is_open && q.size == 0 && not q.overflow
    then (q, no_batch)
    else (
      record q { size = 0; overflow = false },
      record {
        commands = if q.overflow then [] else take q.size q.entries;
        generation = q.generation;
        revision = q.revision;
        overflow = q.overflow;
      },
    )

unfoldable pub still_admitted : RegistrationCommandQueue → Batch → Bool
still_admitted q batch =
    batch.generation != 0
    && batch.generation == q.generation
    && batch.revision == q.revision
    && q.is_open
    && not q.overflow

unfoldable pub invalidate : RegistrationCommandQueue → RegistrationCommandQueue
invalidate q = record q {
  is_open = false;
  size = 0;
  overflow = false;
  revision = inc_u64 q.revision;
}
