-- ===== src/Pipeline/Mailbox/Refine.antt =====
-- A valid mailbox behaves as the inbox of the events that it holds.
use axe_voice_desktop.Prelude.{
  ℕ, zero, suc, ◌+◌, ◌%◌, ◌<◌, ◌≡◌, List, [], ◌∷◌, ◌++◌, refl, ap, arith, length, set,
  get_or-set_self, get_or-set_ne, true,
}
use mathlib.Core.Path.{ap₂}
use axe_voice_desktop.Sip.Reducer.{BaresipNativeEvent}
use axe_voice_desktop.Pipeline.Mailbox.{
  BaresipEventMailbox, k_capacity, blank_event, begin_session, invalidate_session, enqueue, drain,
  copy_entries,
}
use axe_voice_desktop.Pipeline.Mailbox.Inbox
use axe_voice_desktop.Pipeline.Mailbox.Inbox.{Inbox, Op, Reply}
use axe_voice_desktop.Pipeline.Mailbox.Inv.{
  IsValid, begin_session-IsValid, invalidate_session-IsValid, enqueue-IsValid, drain-IsValid,
}

-- One call on the mailbox, with what the caller sees of it.
unfoldable pub step : BaresipEventMailbox → Op → BaresipEventMailbox × Reply
step m Op.begin_session = let (m', s) = begin_session m in (m', Reply.began s)
step m Op.invalidate_session = (invalidate_session m, Reply.done)
step m (Op.enqueue e) = let (m', sent) = enqueue m e in (m', Reply.queued sent)
step m Op.drain = let (m', b) = drain m in (m', Reply.drained b.events b.session b.overflow)

unfoldable pub run : BaresipEventMailbox → List Op → List Reply
run m [] = []
run m (op ∷ ops) = let (m', r) = step m op in r ∷ run m' ops

pub contents : BaresipEventMailbox → Inbox
contents m = record {
  queue = copy_entries m.entries m.first m.pending;
  issued = m.generation;
  session = m.session;
  lost = m.overflow;
}

length-copy_entries : (xs : List BaresipNativeEvent) (h n : ℕ) → length (copy_entries xs h n) ≡ n
unfolding copy_entries
length-copy_entries xs h zero = refl
length-copy_entries xs h (suc n) = ap suc (length-copy_entries xs (h + 1) n)

-- Writing just past a run of entries extends it by what is written.
copy_entries-set :
    (xs : List BaresipNativeEvent) (h n i : ℕ) (e : BaresipNativeEvent)
    → length xs ≡ k_capacity
    → n < k_capacity
    → i ≡ (h + n) % k_capacity
    → copy_entries (set xs i e) h (suc n) ≡ copy_entries xs h n ++ e ∷ []
unfolding copy_entries
copy_entries-set xs h zero i e room hn at =
    let here : i ≡ h % k_capacity = omega arith in
    rw (here, get_or-set_self xs (h % k_capacity) e blank_event (omega arith))
copy_entries-set xs h (suc n) i e room hn at =
    ap₂ ◌∷◌ (get_or-set_ne xs e blank_event (λ same. omega arith))
      (copy_entries-set xs (h + 1) n i e room (omega arith) (omega arith))

step-IsValid : {m : BaresipEventMailbox} (op : Op) → IsValid m → IsValid (step m op).0
unfolding step
step-IsValid Op.begin_session v = begin_session-IsValid v
step-IsValid Op.invalidate_session v = invalidate_session-IsValid v
step-IsValid (Op.enqueue e) v = enqueue-IsValid e v
step-IsValid Op.drain v = drain-IsValid v

-- Each call returns what the inbox returns, and leaves the mailbox holding the inbox's events.
pub step_refines :
    {m : BaresipEventMailbox} (op : Op)
    → IsValid m
    → let (m', r) = step m op in (contents m', r) ≡ Inbox.step (contents m) op
unfolding step contents Inbox.step begin_session invalidate_session enqueue drain copy_entries
step_refines Op.begin_session v = ground arith
step_refines Op.invalidate_session v = ground arith
step_refines {m} (Op.enqueue e) v = ground (
  arith,
  length-copy_entries m.entries m.first m.pending,
  copy_entries-set m.entries m.first m.pending ((m.first + m.pending) % k_capacity) e,
)
step_refines {m} Op.drain v = ground arith

-- No sequence of calls tells the ring buffer from a queue that holds at most 32 events of the current
-- session, in order, and drops all of them when one more is offered.
pub run_refines :
    (ops : List Op) {m : BaresipEventMailbox} → IsValid m → run m ops ≡ Inbox.run (contents m) ops
unfolding run Inbox.run
run_refines [] v = refl
run_refines (op ∷ ops) v = rw (run_refines ops (step-IsValid op v), ← step_refines op v)

-- An accepted event is appended to the queue of the mailbox.
pub enqueue_sent :
    {m : BaresipEventMailbox} (e : BaresipNativeEvent)
    → IsValid m
    → (enqueue m e).1 ≡ true
    → (contents (enqueue m e).0).queue ≡ (contents m).queue ++ e ∷ []
unfolding enqueue contents
enqueue_sent {m} e v h =
    ground
      (arith, copy_entries-set m.entries m.first m.pending ((m.first + m.pending) % k_capacity) e)
