-- ===== src/Audio/Changes/Due.antt =====
-- The devices are looked at again in time, and not too early.
use axe_voice_desktop.Prelude.{true, ℕ, ◌+◌, ◌≤◌, ◌≡◌, List, [], ◌∷◌}
use axe_voice_desktop.Audio.Changes.{
  AudioDeviceChangePolicy, enter, leave, changed, completed, refreshed,
}

pub data Op : Type 0 where
  entered changed_at completed_at refreshed_at : ℕ → Op
  left : Op

unfoldable pub step : AudioDeviceChangePolicy → Op → AudioDeviceChangePolicy
step p (entered now) = enter p now
step p (changed_at now) = changed p now
step p (completed_at now) = completed p now
step p (refreshed_at now) = refreshed p now
step p left = leave p

unfoldable pub run : AudioDeviceChangePolicy → List Op → AudioDeviceChangePolicy
run p [] = p
run p (op ∷ ops) = run (step p op) ops

-- Both deadlines lie within reach of the latest time seen.
pub record IsTimely (p : AudioDeviceChangePolicy) : Type 0 where
  pub periodic : p.active ≡ true → p.periodic_ms ≤ p.last_ms + 5000
  pub prompt : p.dirty ≡ true → p.dirty_ms ≤ p.last_ms + 250
  pub only_active : p.dirty ≡ true → p.active ≡ true
