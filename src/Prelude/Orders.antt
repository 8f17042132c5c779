-- ===== src/Prelude/Orders.antt =====
-- Pairs of numbers that grow: such as a session and what counts up within it.
use Prim.Native.Nat.{ℕ, ◌≤◌, ◌<◌}
use mathlib.Core.Path.{◌≡◌}
use mathlib.Core.List.{List, [], ◌∷◌}
use native.Mathlib.Omega.{arith}

-- One pair comes before another.
pub data Before (s n t m : ℕ) : Type 0 where
  newer_session : s < t → Before s n t m
  newer_sequence : s ≡ t → n < m → Before s n t m

-- The pairs grow strictly, from above the first one on.
abbrev pub NewerFrom : ℕ → ℕ → List (ℕ × ℕ) → Type 0
NewerFrom s n [] = Unit {0}
NewerFrom s n ((t, m) ∷ rest) = Before s n t m × NewerFrom t m rest

pub Before-mono :
    (s n s' n' t m : ℕ) → s ≤ s' → (s ≡ s' → n ≤ n') → Before s' n' t m → Before s n t m
Before-mono s n s' n' t m h k (newer_session l) = newer_session (omega arith)
Before-mono s n s' n' t m h k (newer_sequence e l) = ground (arith, h, k, e, l)

pub NewerFrom-mono :
    (s n s' n' : ℕ) (xs : List (ℕ × ℕ))
    → s ≤ s'
    → (s ≡ s' → n ≤ n')
    → NewerFrom s' n' xs
    → NewerFrom s n xs
NewerFrom-mono s n s' n' [] h k v = tt
NewerFrom-mono s n s' n' ((t, m) ∷ xs) h k v = (Before-mono s n s' n' t m h k v.0, v.1)

-- One pair comes before another, or is the same.
pub data NotAfter (s n t m : ℕ) : Type 0 where
  newer : s < t → NotAfter s n t m
  same_or_later : s ≡ t → n ≤ m → NotAfter s n t m

pub NotAfter-trans : {s n t m u k : ℕ} → NotAfter s n t m → NotAfter t m u k → NotAfter s n u k
NotAfter-trans (newer a) (newer b) = newer (omega arith)
NotAfter-trans (newer a) (same_or_later b c) = newer (omega arith)
NotAfter-trans (same_or_later a b) (newer c) = newer (omega arith)
NotAfter-trans (same_or_later a b) (same_or_later c d) = same_or_later (omega arith) (omega arith)
