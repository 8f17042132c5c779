-- ===== src/Native/Duration.antt =====
-- src/native_call_duration.h: how long a call has been seen as connected.
pub mod Elapsed
use axe_voice_desktop.Prelude.{
  Bool, true, false, ℕ, zero, suc, ◌+◌, ◌-◌, ◌*◌, ◌/◌, ◌%◌, ◌^◌, ◌≤◌, ◌<◌, ◌≡◌, ◌≢◌, ◌↔◌, ◌⊎◌, ◌∙◌,
  ◌==◌, ◌!=◌, ◌||◌, ◌&&◌, not, if◌then◌else◌, leb, ltb, List, [], ◌∷◌, ◌++◌, map, Option, none,
  some, inl, inr, refl, sym, ap, arith, tests, Bool-cases, Option-cases, length, get_or, set, take,
  drop, replicate, pop_front, All, All-append, All-mono, length-append, length-set, length-take,
  get_or-set_self, get_or-set_ne, u64_mod, u64_max, inc_u64, sub_u64, Text, codes, text_eq,
  is_empty, any, all, between, is_digit, is_letter, is_alnum, text_eq→≡, text_eq_refl, lt→ltb,
  ltb→lt, leb→le, le→leb, ==_iff,
}
use axe_voice_desktop.Sip.Status.{SipStatus, status_eq}
use axe_voice_desktop.Sip.Observation.{SipRuntimeObservation, is_running, is_verified}

pub record CallDurationSnapshot : Type 0 where
  pub active : Bool
  pub elapsed_ms : ℕ  -- uint64_t

pub record NativeCallDuration : Type 0 where
  pub active : Bool
  pub session : ℕ  -- uint64_t, as all numbers here
  pub call_id : ℕ
  pub start_ms : ℕ
  pub last_ms : ℕ

abbrev pub idle : NativeCallDuration
idle = record { active = false; session = 0; call_id = 0; start_ms = 0; last_ms = 0 }

-- A call that is connected, under a native proof.
unfoldable pub is_measured : SipRuntimeObservation → Bool
is_measured o =
    is_running o.process
    && is_verified o.evidence
    && o.session != 0
    && o.call_id != 0
    && status_eq o.sip SipStatus.in_call

-- The clock of the call that is measured.
unfoldable pub advance : NativeCallDuration → SipRuntimeObservation → ℕ → NativeCallDuration
advance d o now_ms =
    if not d.active || d.session != o.session || d.call_id != o.call_id
    then record {
      active = true;
      session = o.session;
      call_id = o.call_id;
      start_ms = now_ms;
      last_ms = now_ms;
    }
    else if ltb d.last_ms now_ms
    then record d { last_ms = now_ms }
    else d

unfoldable pub observe :
    NativeCallDuration → SipRuntimeObservation → ℕ → NativeCallDuration × CallDurationSnapshot
observe d o now_ms =
    if not (is_measured o)
    then (idle, record { active = false; elapsed_ms = 0 })
    else let d' = advance d o now_ms in
      (d', record { active = true; elapsed_ms = sub_u64 d'.last_ms d'.start_ms })
