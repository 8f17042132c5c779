-- ===== src/Registration/Queue/Closing.antt =====
-- A generation that was shut stays shut.
use axe_voice_desktop.Prelude.{
  length-take, true, false, ℕ, ◌≤◌, ◌≡◌, ◌⊎◌, List, [], ◌∷◌, arith, length,
}
use axe_voice_desktop.Registration.Queue.{
  k_capacity, RegistrationCommandQueue, Batch, drain, still_admitted, begin_generation, enqueue,
  submit, cancel, invalidate,
}
use axe_voice_desktop.Registration.Queue.Commands.{AreCommands, AreCommands-none}
use axe_voice_desktop.Registration.Queue.Inv.{IsValid, Op, step, step-IsValid}

unfoldable pub run : RegistrationCommandQueue → List Op → RegistrationCommandQueue
run q [] = q
run q (op ∷ ops) = run (step q op) ops

-- The generation `n` was begun, and is no longer open.
record IsOver (n : ℕ) (q : RegistrationCommandQueue) : Type 0 where
  begun : n ≤ q.generation
  shut : q.generation ≡ n → q.is_open ≡ false

step-IsOver :
    (n : ℕ) (op : Op) (q : RegistrationCommandQueue) → IsValid q → IsOver n q → IsOver n (step q op)
unfolding step begin_generation enqueue submit cancel drain invalidate
step-IsOver n Op.begins q v h = ground (arith, v.same, v.word)
step-IsOver n Op.invalidates q v h = ground (arith, h)
step-IsOver n (Op.submits g t) q v h = ground (arith, h)
step-IsOver n (Op.cancels g) q v h = ground (arith, h)
step-IsOver n (Op.drains g) q v h = ground (arith, h)

run-IsOver :
    (ops : List Op) (n : ℕ) (q : RegistrationCommandQueue)
    → IsValid q
    → IsOver n q
    → IsOver n (run q ops)
unfolding run
run-IsOver [] n q v h = h
run-IsOver (op ∷ ops) n q v h =
    run-IsOver ops n (step q op) (step-IsValid op v) (step-IsOver n op q v h)

IsOver-refused :
    (n : ℕ) (q : RegistrationCommandQueue) (b : Batch)
    → b.generation ≡ n
    → IsOver n q
    → still_admitted q b ≡ false
unfolding still_admitted
IsOver-refused n q b e h = ground arith

-- Once a call, such as a cancellation, an overflow or an invalidation, has shut an open queue, no batch
-- of its generation is admitted again, whatever calls follow.
pub shut_stays_shut :
    (q : RegistrationCommandQueue) (op : Op) (ops : List Op) (b : Batch)
    → IsValid q
    → q.is_open ≡ true
    → (step q op).is_open ≡ false
    → b.generation ≡ q.generation
    → still_admitted (run (step q op) ops) b ≡ false
unfolding step begin_generation enqueue submit cancel drain invalidate
shut_stays_shut q op ops b v on off same =
    IsOver-refused q.generation (run (step q op) ops) b same
      (run-IsOver ops q.generation (step q op) (step-IsValid op v) (ground (arith, v.same)))

-- What a batch holds, from a valid queue: nothing at all, or the commands of the expected generation,
-- which is the current one, whose submissions have admissible timeouts, or else its one cancellation.
-- The batch is admitted right after exactly if the queue is open.
pub drain_batch :
    (q : RegistrationCommandQueue) (n : ℕ)
    → IsValid q
    → let (q', b) = drain q n in
      ((b.generation ≡ 0) × (b.commands ≡ []))
      ⊎ ((b.generation ≡ n)
          × AreCommands q.generation q.is_open b.commands
          × (length b.commands ≤ k_capacity)
          × (still_admitted q' b ≡ q.is_open))
unfolding drain still_admitted
drain_batch q n v =
    ground (arith, v, length-take q.size q.entries, AreCommands-none q.generation q.is_open)
