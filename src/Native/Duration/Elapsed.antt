-- ===== src/Native/Duration/Elapsed.antt =====
-- The duration that is shown, against the history of what was observed.
use axe_voice_desktop.Prelude.{
  true, ℕ, ◌-◌, ◌≤◌, ◌<◌, ◌≡◌, ◌==◌, ◌&&◌, ◌∙◌, if◌then◌else◌, ltb, List, [], ◌∷◌, All, ap, arith,
  u64_mod, sub_u64,
}
use axe_voice_desktop.Sip.Observation.{SipRuntimeObservation}
use axe_voice_desktop.Native.Duration.{
  NativeCallDuration, CallDurationSnapshot, idle, is_measured, advance, observe,
}

-- An observation, and the time at which it was made.
pub record Seen : Type 0 where
  pub observation : SipRuntimeObservation
  pub now_ms : ℕ  -- uint64_t

-- The clock after a history, whose latest observation stands first.
unfoldable pub run : List Seen → NativeCallDuration
run [] = idle
run (x ∷ xs) = (observe (run xs) x.observation x.now_ms).0

-- What the latest observation of a history shows.
unfoldable pub shown : Seen → List Seen → CallDurationSnapshot
shown x xs = (observe (run xs) x.observation x.now_ms).1

-- The times at which a call was seen without a break, the latest first.
unfoldable pub times_of : ℕ → ℕ → List Seen → List ℕ
times_of session call [] = []
times_of session call (x ∷ xs) =
    let rest = times_of session call xs in
    if is_measured x.observation
      && x.observation.session == session
      && x.observation.call_id == call
    then x.now_ms ∷ rest
    else []

-- The first of the times, which stands last.
unfoldable pub first_time : ℕ → List ℕ → ℕ
first_time t [] = t
first_time t (u ∷ us) = first_time u us

-- The latest of the times.
unfoldable pub latest_time : ℕ → List ℕ → ℕ
latest_time t [] = t
latest_time t (u ∷ us) = let rest = latest_time u us in if ltb rest t then t else rest

first-le-latest : (t : ℕ) (us : List ℕ) → first_time t us ≤ latest_time t us
unfolding first_time latest_time
first-le-latest t [] = ground arith
first-le-latest t (u ∷ us) = ground (arith, first-le-latest u us)

abbrev pub IsWord : Seen → Type 0
IsWord x = x.now_ms < u64_mod

latest-IsWord :
    (session call : ℕ) (xs : List Seen) (t : ℕ)
    → t < u64_mod
    → All IsWord xs
    → latest_time t (times_of session call xs) < u64_mod
unfolding times_of latest_time
latest-IsWord session call [] t h a = h
latest-IsWord session call (x ∷ xs) t h a =
    ground (arith, latest-IsWord session call xs x.now_ms a.0 a.1)

-- The clock that a history should leave.
abbrev clock_of : List Seen → NativeCallDuration
clock_of [] = idle
clock_of (x ∷ xs) =
    let times = times_of x.observation.session x.observation.call_id xs in
    if is_measured x.observation
    then record {
      active = true;
      session = x.observation.session;
      call_id = x.observation.call_id;
      start_ms = first_time x.now_ms times;
      last_ms = latest_time x.now_ms times;
    }
    else idle

observe-clock_of :
    (x : Seen) (xs : List Seen)
    → (observe (clock_of xs) x.observation x.now_ms).0 ≡ clock_of (x ∷ xs)
unfolding observe advance times_of first_time latest_time
observe-clock_of x [] = ground arith
observe-clock_of x (y ∷ ys) = ground arith

run-clock_of : (xs : List Seen) → run xs ≡ clock_of xs
unfolding run
run-clock_of [] = ground arith
run-clock_of (x ∷ xs) =
    ap (λ (d : NativeCallDuration). (observe d x.observation x.now_ms).0) (run-clock_of xs)
    ∙ observe-clock_of x xs

observe_shows :
    (d : NativeCallDuration) (o : SipRuntimeObservation) (now_ms : ℕ)
    → ((observe d o now_ms).1.active ≡ is_measured o)
      × ((observe d o now_ms).1.elapsed_ms ≡ (
          if is_measured o
          then sub_u64 (observe d o now_ms).0.last_ms (observe d o now_ms).0.start_ms
          else 0))
unfolding observe
observe_shows d o now_ms = ground arith

sub_small : (a b : ℕ) → b ≤ a → a < u64_mod → sub_u64 a b ≡ a - b
sub_small a b h k = omega arith

-- Whatever was observed before: a duration is shown exactly for a call that is connected under a native
-- proof, and it is the time from the first observation of that call since it was last not seen so, to
-- the latest time at which it was seen since, as a number without wrap-around, also where the clock
-- goes back; else 0 is shown. The times are words of 64 bits.
pub shown_elapsed :
    (x : Seen) (xs : List Seen)
    → All IsWord (x ∷ xs)
    → let times = times_of x.observation.session x.observation.call_id xs in
      ((shown x xs).active ≡ is_measured x.observation)
      × ((shown x xs).elapsed_ms ≡ (
          if is_measured x.observation
          then latest_time x.now_ms times - first_time x.now_ms times
          else 0))
unfolding shown
shown_elapsed x xs words =
    let o = x.observation in
    let times = times_of o.session o.call_id xs in
    let clock : (observe (run xs) o x.now_ms).0 ≡ clock_of (x ∷ xs) =
      ap (λ (d : NativeCallDuration). (observe d o x.now_ms).0) (run-clock_of xs)
      ∙ observe-clock_of x xs in
    ground (
      arith,
      clock,
      observe_shows (run xs) o x.now_ms,
      sub_small (latest_time x.now_ms times) (first_time x.now_ms times),
      first-le-latest x.now_ms times,
      latest-IsWord o.session o.call_id xs x.now_ms words.0 words.1,
    )
