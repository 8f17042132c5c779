-- ===== src/Registration/Deadline.antt =====
-- src/baresip_registration_watchdog.h: the deadline of a registration, polled from outside.
use axe_voice_desktop.Prelude.{
  ◌≡◌, ◌!=◌, ◌||◌, not, u64_mod, ◌==◌, ◌<◌, if◌then◌else◌, Bool, false, true, ℕ, ◌+◌, ◌≤◌, ◌↔◌, leb,
  ltb, arith, sub_u64,
}

pub data RegistrationDeadlineVerdict : Type 0 where
  unarmed pending callback_confirmed expired clock_regressed session_revoked :
      RegistrationDeadlineVerdict
  wrong_event_loop_thread : RegistrationDeadlineVerdict

pub record RegistrationDeadline : Type 0 where
  pub armed : Bool
  pub session : ℕ  -- uint64_t
  pub started_ms : ℕ  -- uint64_t
  pub max_wait_ms : ℕ  -- uint64_t

abbrev pub initial_deadline : RegistrationDeadline
initial_deadline = record { armed = false; session = 0; started_ms = 0; max_wait_ms = 0 }

unfoldable pub arm : RegistrationDeadline → ℕ → ℕ → ℕ → RegistrationDeadline × Bool
arm d session monotonic_ms max_wait_ms =
    if session == 0 || max_wait_ms == 0 || d.armed then (d, false) else (
      record {
        armed = true;
        session = session;
        started_ms = monotonic_ms;
        max_wait_ms = max_wait_ms;
      },
      true,
    )

unfoldable pub check : RegistrationDeadline → ℕ → ℕ → Bool → RegistrationDeadlineVerdict
check d session monotonic_ms native_callback_confirmed =
    if not d.armed
    then RegistrationDeadlineVerdict.unarmed
    else if session != d.session || session == 0
    then RegistrationDeadlineVerdict.session_revoked
    else if ltb monotonic_ms d.started_ms
    then RegistrationDeadlineVerdict.clock_regressed
    else if leb d.max_wait_ms (sub_u64 monotonic_ms d.started_ms)
    then RegistrationDeadlineVerdict.expired
    else if native_callback_confirmed
    then RegistrationDeadlineVerdict.callback_confirmed
    else RegistrationDeadlineVerdict.pending

unfoldable pub clear : RegistrationDeadline → RegistrationDeadline
clear d = initial_deadline

-- A deadline that was armed is confirmed exactly by a native callback of its session within the
-- waiting time: neither early, nor late, though the end of that time may not fit into a word.
pub check_confirmed :
    (d : RegistrationDeadline) (session started wait session' now : ℕ) (confirmed : Bool)
    → started < u64_mod
    → now < u64_mod
    → (arm d session started wait).1 ≡ true
    → (check (arm d session started wait).0 session' now confirmed
        ≡ RegistrationDeadlineVerdict.callback_confirmed)
      ↔ ((session' ≡ session) × (started ≤ now) × (now < started + wait) × (confirmed ≡ true))
unfolding arm check
check_confirmed d session started wait session' now confirmed w w' h = ground arith
