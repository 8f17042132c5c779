-- ===== src/Pipeline/Mailbox.antt =====
-- src/baresip_event_mailbox.h: the bounded mailbox from the callback thread to the UI thread. Each
-- method holds the mutex throughout, so a call is one step on the state.
pub mod Inbox
pub mod Inv
pub mod Refine
use axe_voice_desktop.Prelude.{
  Bool, true, false, ℕ, zero, suc, ◌+◌, ◌-◌, ◌*◌, ◌/◌, ◌%◌, ◌^◌, ◌≤◌, ◌<◌, ◌≡◌, ◌≢◌, ◌↔◌, ◌⊎◌, ◌∙◌,
  ◌==◌, ◌!=◌, ◌||◌, ◌&&◌, not, if◌then◌else◌, leb, ltb, List, [], ◌∷◌, ◌++◌, map, Option, none,
  some, inl, inr, refl, sym, ap, arith, tests, Bool-cases, Option-cases, length, get_or, set, take,
  drop, replicate, pop_front, All, All-append, All-mono, length-append, length-set, get_or-set_self,
  get_or-set_ne, u64_mod, u64_max, inc_u64, sub_u64, lt→ltb, ltb→lt, leb→le, le→leb, ==_iff,
}
use axe_voice_desktop.Sip.Reducer.{BaresipEventKind, BaresipNativeEvent}

abbrev pub k_capacity : ℕ
k_capacity = 32

-- `BaresipNativeEvent{}`: the kind is the first enumerator.
abbrev pub blank_event : BaresipNativeEvent
blank_event = record {
  kind = BaresipEventKind.registering;
  session = 0;
  call_id = 0;
  account_token = 0;
  call_token = 0;
}

-- `Batch`: the list holds the first `size` entries of its array, the ones that are used.
pub record Batch : Type 0 where
  pub events : List BaresipNativeEvent
  pub session : ℕ
  pub overflow : Bool

pub record BaresipEventMailbox : Type 0 where
  pub entries : List BaresipNativeEvent  -- std::array of kCapacity
  pub pending : ℕ
  pub first : ℕ
  pub generation : ℕ  -- uint64_t
  pub session : ℕ  -- uint64_t
  pub overflow : Bool

abbrev pub empty_mailbox : BaresipEventMailbox
empty_mailbox = record {
  entries = replicate k_capacity blank_event;
  pending = 0;
  first = 0;
  generation = 0;
  session = 0;
  overflow = false;
}

unfoldable pub begin_session : BaresipEventMailbox → BaresipEventMailbox × ℕ
begin_session m =
    if m.generation == u64_max
    then (record m { session = 0; overflow = true; pending = 0 }, 0)
    else let next = inc_u64 m.generation in
      (
        record m { generation = next; session = next; pending = 0; first = 0; overflow = false },
        next,
      )

unfoldable pub invalidate_session : BaresipEventMailbox → BaresipEventMailbox
invalidate_session m = record m { session = 0; pending = 0; first = 0; overflow = false }

unfoldable pub enqueue : BaresipEventMailbox → BaresipNativeEvent → BaresipEventMailbox × Bool
enqueue m event =
    if m.session == 0 || event.session != m.session || m.overflow
    then (m, false)
    else if m.pending == k_capacity
    then (record m { pending = 0; first = 0; overflow = true }, false)
    else (
      record m {
        entries = set m.entries ((m.first + m.pending) % k_capacity) event;
        pending = m.pending + 1;
      },
      true,
    )

-- The loop of `drain`: `n` entries from `first + i` on, going round at the capacity.
unfoldable pub copy_entries : List BaresipNativeEvent → ℕ → ℕ → List BaresipNativeEvent
copy_entries entries start zero = []
copy_entries entries start (suc n) =
    get_or entries (start % k_capacity) blank_event ∷ copy_entries entries (start + 1) n

unfoldable pub drain : BaresipEventMailbox → BaresipEventMailbox × Batch
drain m = (
  record m { first = 0; pending = 0 },
  record {
    events = if m.overflow then [] else copy_entries m.entries m.first m.pending;
    session = m.session;
    overflow = m.overflow;
  },
)
