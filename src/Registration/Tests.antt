-- ===== src/Registration/Tests.antt =====
-- Runs of the command queue and the deadline, and the theorems at concrete inputs.
use axe_voice_desktop.Prelude.{true, false, ℕ, ◌≡◌, [], ◌∷◌, refl, arith, set}
use axe_voice_desktop.Registration.Command.{RegistrationCommand, RegistrationCommandKind}
use axe_voice_desktop.Registration.Queue
use axe_voice_desktop.Registration.Queue.{
  RegistrationCommandQueue, Batch, initial_queue, k_capacity,
}
use axe_voice_desktop.Registration.Queue.Commands.{AreCommands}
use axe_voice_desktop.Registration.Queue.Inv.{IsValid, Op, step}
use axe_voice_desktop.Registration.Queue.Closing.{run, shut_stays_shut}

abbrev submission : RegistrationCommand
submission = record {
  kind = RegistrationCommandKind.submit_selected_account;
  generation = 1;
  timeout_ms = 5000;
}

-- The first generation is open, with one submission in the array.
abbrev one_submission : RegistrationCommandQueue
one_submission = record initial_queue {
  entries = set initial_queue.entries 0 submission;
  size = 1;
  generation = 1;
  last_generation = 1;
  is_open = true;
}

submits_one : run initial_queue (Op.begins ∷ Op.submits 1 5000 ∷ []) ≡ one_submission
unfolding run step Queue.begin_generation Queue.submit Queue.enqueue
submits_one = refl

one_submission-IsValid : IsValid one_submission
unfolding AreCommands
one_submission-IsValid = ground arith

abbrev drained : Batch
drained = record { commands = submission ∷ []; generation = 1; revision = 0; overflow = false }

-- A cancellation, and then a new generation with a submission of its own.
shut_stays_shut_example :
    Queue.still_admitted
      (run (step one_submission (Op.cancels 1)) (Op.drains 1 ∷ Op.begins ∷ Op.submits 2 5000 ∷ []))
      drained
    ≡ false
unfolding step Queue.cancel Queue.enqueue
shut_stays_shut_example =
    shut_stays_shut one_submission (Op.cancels 1) (Op.drains 1 ∷ Op.begins ∷ Op.submits 2 5000 ∷ [])
      drained one_submission-IsValid refl refl refl

-- Armed so late that the end of the waiting time does not fit into a word.
abbrev session : ℕ
session = 4
