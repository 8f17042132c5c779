-- ===== src/Registration/Queue/Inv.antt =====
-- The invariant of the command queue.
use axe_voice_desktop.Prelude.{
  true, false, ℕ, ◌≤◌, ◌<◌, ◌≡◌, not, arith, length, take, length-set, u64_mod, inc_u64,
}
use axe_voice_desktop.Registration.Command.{RegistrationCommand, RegistrationCommandKind, is_cancel}
use axe_voice_desktop.Registration.Queue.{
  RegistrationCommandQueue, k_capacity, begin_generation, enqueue, submit, cancel, drain,
  invalidate,
}
use axe_voice_desktop.Registration.Queue.Commands.{
  IsCommand, AreCommands, AreCommands-take_none, AreCommands-set, AreCommands-first,
}

-- The array has its fixed length and the used part fits; the generation is the last one; an overflow
-- has shut and emptied the queue; the commands are of the current generation, submissions while the
-- queue is open and one cancellation at most when it is shut.
pub record IsValid (q : RegistrationCommandQueue) : Type 0 where
  pub array : length q.entries ≡ k_capacity
  pub room : q.size ≤ k_capacity
  pub same : q.generation ≡ q.last_generation
  pub word : q.generation < u64_mod
  pub shut : q.overflow ≡ true → q.is_open ≡ false
  pub empty : q.overflow ≡ true → q.size ≡ 0
  pub one : q.is_open ≡ false → q.size ≤ 1
  pub commands : AreCommands q.generation q.is_open (take q.size q.entries)

-- One call of a method.
pub data Op : Type 0 where
  begins invalidates : Op
  submits : ℕ → ℕ → Op
  cancels drains : ℕ → Op

unfoldable pub step : RegistrationCommandQueue → Op → RegistrationCommandQueue
step q Op.begins = (begin_generation q).0
step q Op.invalidates = invalidate q
step q (Op.submits generation timeout_ms) = (submit q generation timeout_ms).0
step q (Op.cancels generation) = (cancel q generation).0
step q (Op.drains generation) = (drain q generation).0

begin_generation-IsValid :
    {q : RegistrationCommandQueue} → IsValid q → IsValid (begin_generation q).0
unfolding begin_generation
begin_generation-IsValid {q} v =
    ground (arith, AreCommands-take_none (inc_u64 q.last_generation) true q.entries)

enqueue-IsValid :
    {q : RegistrationCommandQueue} (c : RegistrationCommand)
    → IsValid q
    → (q.generation ≡ c.generation → IsCommand q.generation (not (is_cancel c.kind)) c)
    → IsValid (enqueue q c).0
unfolding enqueue
enqueue-IsValid {q} c v k = ground (
  arith,
  length-set q.entries 0 c,
  length-set q.entries q.size c,
  AreCommands-take_none q.generation false q.entries,
  AreCommands-first q.generation false q.entries c,
  AreCommands-set q.generation true q.entries q.size c,
)

drain-IsValid : {q : RegistrationCommandQueue} (n : ℕ) → IsValid q → IsValid (drain q n).0
unfolding drain
drain-IsValid {q} n v = ground (arith, AreCommands-take_none q.generation q.is_open q.entries)

invalidate-IsValid : {q : RegistrationCommandQueue} → IsValid q → IsValid (invalidate q)
unfolding invalidate
invalidate-IsValid {q} v = ground (arith, AreCommands-take_none q.generation false q.entries)

-- Every call keeps the invariant of the command queue.
pub step-IsValid : {q : RegistrationCommandQueue} (op : Op) → IsValid q → IsValid (step q op)
unfolding step submit cancel
step-IsValid Op.begins v = begin_generation-IsValid v
step-IsValid Op.invalidates v = invalidate-IsValid v
step-IsValid {q} (Op.submits n t) v =
    let c : RegistrationCommand = record {
      kind = RegistrationCommandKind.submit_selected_account;
      generation = n;
      timeout_ms = t;
    } in
    ground (arith, enqueue-IsValid c v)
step-IsValid {q} (Op.cancels n) v =
    let c : RegistrationCommand = record {
      kind = RegistrationCommandKind.cancel;
      generation = n;
      timeout_ms = 0;
    } in
    enqueue-IsValid c v (λ e. ground arith)
step-IsValid (Op.drains n) v = drain-IsValid n v
