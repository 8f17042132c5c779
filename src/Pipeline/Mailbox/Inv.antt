-- ===== src/Pipeline/Mailbox/Inv.antt =====
-- The representation invariant of the mailbox.
use axe_voice_desktop.Prelude.{true, ◌+◌, ◌%◌, ◌≤◌, ◌<◌, ◌≡◌, arith, length, length-set, u64_mod}
use axe_voice_desktop.Sip.Reducer.{BaresipNativeEvent}
use axe_voice_desktop.Pipeline.Mailbox.{
  BaresipEventMailbox, k_capacity, empty_mailbox, begin_session, invalidate_session, enqueue, drain,
}

pub record IsValid (m : BaresipEventMailbox) : Type 0 where
  pub room : length m.entries ≡ k_capacity
  pub within : m.pending ≤ k_capacity
  pub start : m.first < k_capacity
  pub word : m.generation < u64_mod
  pub issued : m.session ≤ m.generation
  pub cleared : m.overflow ≡ true → m.pending ≡ 0

pub empty_mailbox-IsValid : IsValid empty_mailbox
empty_mailbox-IsValid = ground arith

pub begin_session-IsValid : {m : BaresipEventMailbox} → IsValid m → IsValid (begin_session m).0
unfolding begin_session
begin_session-IsValid v = ground arith

pub invalidate_session-IsValid :
    {m : BaresipEventMailbox} → IsValid m → IsValid (invalidate_session m)
unfolding invalidate_session
invalidate_session-IsValid v = ground arith

pub enqueue-IsValid :
    {m : BaresipEventMailbox} (e : BaresipNativeEvent) → IsValid m → IsValid (enqueue m e).0
unfolding enqueue
enqueue-IsValid {m} e v =
    ground (arith, length-set m.entries ((m.first + m.pending) % k_capacity) e)

pub drain-IsValid : {m : BaresipEventMailbox} → IsValid m → IsValid (drain m).0
unfolding drain
drain-IsValid v = ground arith
