-- ===== src/Audio/Changes.antt =====
-- src/audio_device_change_policy.h, src/audio_device_change_signal.h, src/audio_inventory_retry.h and
-- src/shutdown_policy.h: when the devices are looked at again, and what waits for how long.
pub mod Due
use axe_voice_desktop.Prelude.{
  Bool, true, false, ℕ, zero, suc, ◌+◌, ◌-◌, ◌*◌, ◌/◌, ◌%◌, ◌^◌, ◌≤◌, ◌<◌, ◌≡◌, ◌≢◌, ◌↔◌, ◌⊎◌, ◌∙◌,
  ◌==◌, ◌!=◌, ◌||◌, ◌&&◌, not, if◌then◌else◌, leb, ltb, List, [], ◌∷◌, ◌++◌, map, append_assoc,
  append-nil, Option, none, some, inl, inr, refl, sym, ap, arith, tests, Bool-cases, Option-cases,
  length, get_or, set, take, drop, replicate, pop_front, All, All-append, All-mono, All-take,
  length-append, length-set, length-take, get_or-set_self, get_or-set_ne, u64_mod, u64_max, inc_u64,
  sub_u64, Text, codes, text_eq, is_empty, any, all, between, is_digit, is_letter, is_alnum,
  text_eq→≡, text_eq_refl, Before, newer_session, newer_sequence, NewerFrom, NewerFrom-mono,
  NotAfter, newer, same_or_later, NotAfter-trans, lt→ltb, ltb→lt, leb→le, le→leb, ==_iff,
}
use axe_voice_desktop.Audio.Async.{AudioInventoryAsyncSnapshot}

abbrev pub is_audio_device_change : ℕ → Bool
is_audio_device_change kind = kind == 32768 || kind == 32772 || kind == 7 || kind == 24

pub record AudioDeviceChangePolicy : Type 0 where
  pub active : Bool
  pub dirty : Bool
  pub last_ms : ℕ  -- uint64_t
  pub dirty_ms : ℕ  -- uint64_t
  pub periodic_ms : ℕ  -- uint64_t

abbrev pub initial_policy : AudioDeviceChangePolicy
initial_policy = record {
  active = false;
  dirty = false;
  last_ms = 0;
  dirty_ms = 0;
  periodic_ms = 0;
}

unfoldable pub deadline : ℕ → ℕ → ℕ
deadline now delay = if ltb (u64_max - delay) now then u64_max else now + delay

-- `observe`: the latest time seen.
unfoldable pub observe : AudioDeviceChangePolicy → ℕ → AudioDeviceChangePolicy
observe p now_ms = if ltb p.last_ms now_ms then record p { last_ms = now_ms } else p

unfoldable pub enter : AudioDeviceChangePolicy → ℕ → AudioDeviceChangePolicy
enter p now_ms = record p {
  active = true;
  dirty = false;
  last_ms = now_ms;
  periodic_ms = deadline now_ms 5000;
}

unfoldable pub leave : AudioDeviceChangePolicy → AudioDeviceChangePolicy
leave p = record p { active = false; dirty = false }

unfoldable pub changed : AudioDeviceChangePolicy → ℕ → AudioDeviceChangePolicy
changed p now_ms =
    let q = observe p now_ms in
    if not p.active then p else record q { dirty = true; dirty_ms = deadline q.last_ms 250 }

unfoldable pub should_refresh : AudioDeviceChangePolicy → ℕ → Bool → Bool
should_refresh p now_ms dropdown_open =
    p.active
    && not dropdown_open
    && ((p.dirty && leb p.dirty_ms now_ms) || leb p.periodic_ms now_ms)

unfoldable pub completed : AudioDeviceChangePolicy → ℕ → AudioDeviceChangePolicy
completed p now_ms =
    let q = observe p now_ms in
    if not p.active then p else record q { periodic_ms = deadline q.last_ms 5000 }

unfoldable pub refreshed : AudioDeviceChangePolicy → ℕ → AudioDeviceChangePolicy
refreshed p now_ms =
    let q = observe p now_ms in
    if not p.active then p else record q { dirty = false; periodic_ms = deadline q.last_ms 5000 }

unfoldable pub audio_device_refresh_due :
    AudioDeviceChangePolicy → ℕ → Bool → AudioInventoryAsyncSnapshot → Bool
audio_device_refresh_due policy now_ms dropdown_open inventory =
    not (inventory.closed || inventory.busy || inventory.pending || inventory.ready)
    && should_refresh policy now_ms dropdown_open

-- `AudioDeviceChangeSignal`: one atomic word.
pub data Signal : Type 0 where
  clean dirty closed : Signal

abbrev pub notify : Signal → Signal
notify Signal.clean = Signal.dirty
notify s = s

abbrev pub take_signal : Signal → Signal × Bool
take_signal Signal.dirty = (Signal.clean, true)
take_signal s = (s, false)

abbrev pub close_signal : Signal → Signal
close_signal s = Signal.closed

-- `AudioInventoryRetry`, of which the state is its deadline.
abbrev pub retry_ready : ℕ → ℕ → Bool
retry_ready deadline_ms now_ms = leb deadline_ms now_ms

unfoldable pub retry_failed : ℕ → ℕ → ℕ
retry_failed deadline_ms now_ms =
    let next = if ltb (u64_max - 1000) now_ms then u64_max else now_ms + 1000 in
    if ltb deadline_ms next then next else deadline_ms

-- `ShutdownDeadline`
pub record ShutdownDeadline : Type 0 where
  pub started_at : ℕ  -- uint64_t
  pub pending : Bool

unfoldable pub begin : ShutdownDeadline → ℕ → ShutdownDeadline × Bool
begin d now_ms =
    if d.pending then (d, false) else (record { started_at = now_ms; pending = true }, true)

unfoldable pub expired : ShutdownDeadline → ℕ → ℕ → Bool
expired d now_ms timeout_ms = d.pending && leb timeout_ms (sub_u64 now_ms d.started_at)

abbrev pub clear : ShutdownDeadline → ShutdownDeadline
clear d = record { started_at = 0; pending = false }
