-- ===== src/Pipeline/Mailbox/Inbox.antt =====
-- What the mailbox promises: a queue of at most 32 events of the current session, which is lost whole
-- when one more is offered, and stays lost until the next session.
use axe_voice_desktop.Prelude.{
  Bool, true, false, ℕ, ◌+◌, ◌==◌, ◌!=◌, ◌||◌, if◌then◌else◌, List, [], ◌∷◌, ◌++◌, length, u64_max,
}
use axe_voice_desktop.Sip.Reducer.{BaresipNativeEvent}

pub record Inbox : Type 0 where
  pub queue : List BaresipNativeEvent
  pub issued : ℕ  -- how many sessions were begun
  pub session : ℕ
  pub lost : Bool

pub data Op : Type 0 where
  begin_session invalidate_session drain : Op
  enqueue : BaresipNativeEvent → Op

pub data Reply : Type 0 where
  began : ℕ → Reply
  done : Reply
  queued : Bool → Reply
  drained : List BaresipNativeEvent → ℕ → Bool → Reply

unfoldable pub step : Inbox → Op → Inbox × Reply
step b Op.begin_session =
    if b.issued == u64_max then (record b { queue = []; session = 0; lost = true }, began 0) else (
      record { queue = []; issued = b.issued + 1; session = b.issued + 1; lost = false },
      began (b.issued + 1),
    )
step b Op.invalidate_session = (record b { queue = []; session = 0; lost = false }, done)
step b (Op.enqueue e) =
    if b.session == 0 || e.session != b.session || b.lost
    then (b, queued false)
    else if length b.queue == 32
    then (record b { queue = []; lost = true }, queued false)
    else (record b { queue = b.queue ++ e ∷ [] }, queued true)
step b Op.drain = (record b { queue = [] }, drained b.queue b.session b.lost)

unfoldable pub run : Inbox → List Op → List Reply
run b [] = []
run b (op ∷ ops) = let (b', r) = step b op in r ∷ run b' ops
