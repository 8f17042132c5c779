-- ===== src/Cti/Tests.antt =====
-- Runs of the queue of requests, and the theorems at concrete inputs.
use axe_voice_desktop.Sip.Reducer.Laws.{IncreasingFrom}
use axe_voice_desktop.Cti.Log.{IsLog-none}
use axe_voice_desktop.Cti.Request.{CtiRequestState, CtiSubmitOutcome}
use axe_voice_desktop.Prelude.{true, false, ◌≡◌, List, [], ◌∷◌, refl, arith, Text}
use axe_voice_desktop.Cti.Requests
use axe_voice_desktop.Cti.Requests.{CtiRequestQueue, initial_queue, sequence_of, event_capacity}
use axe_voice_desktop.Cti.Requests.Records.{IdsBelow-none}
use axe_voice_desktop.Cti.Requests.Inv.{IsValid, IsBounded, free-IsValid}
use axe_voice_desktop.Cti.Requests.Step.{Op, step, step_invariant}
use axe_voice_desktop.Cti.Requests.Order.{taken, taken-IncreasingFrom}

abbrev destination : Text
destination = 49 ∷ 48 ∷ 48 ∷ 49 ∷ []

abbrev key : Text
key = 107 ∷ 49 ∷ []

-- A request is taken and completed, another is cancelled, and a third is taken after `clear`.
abbrev script : List Op
script =
    Op.submits_idempotent destination key true
    ∷ Op.takes
    ∷ Op.takes
    ∷ Op.completes 1 true
    ∷ Op.submits destination
    ∷ Op.cancels 2
    ∷ Op.takes
    ∷ Op.clears
    ∷ Op.submits destination
    ∷ Op.takes
    ∷ []

takes_two : taken initial_queue script ≡ 1 ∷ 3 ∷ []
unfolding taken step Requests.submit Requests.submit_idempotent Requests.submit_new
    Requests.key_record Requests.create Requests.append_event Requests.take_request Requests.move_to
    Requests.complete Requests.cancel Requests.clear
takes_two = refl

taken-IncreasingFrom_example : IncreasingFrom 0 (taken initial_queue script)
taken-IncreasingFrom_example = taken-IncreasingFrom script

initial_queue-IsValid : IsValid initial_queue
initial_queue-IsValid =
    let b : IsBounded initial_queue =
      ground (arith, IdsBelow-none 1, IsLog-none sequence_of event_capacity 0) in
    free-IsValid b refl refl

-- One request waits.
abbrev waiting : CtiRequestQueue
waiting = (step initial_queue (Op.submits_idempotent destination key true)).0

waiting-IsValid : IsValid waiting
waiting-IsValid =
    step_invariant {q = initial_queue} (Op.submits_idempotent destination key true)
      initial_queue-IsValid

-- A retry is answered with the request that was made first.
retry_replays :
    (Requests.submit_idempotent waiting destination key false).1
    ≡ record { outcome = CtiSubmitOutcome.replayed; id = 1; state = CtiRequestState.queued }
unfolding step Requests.submit_idempotent Requests.submit_new Requests.key_record Requests.create
    Requests.append_event
retry_replays = refl
