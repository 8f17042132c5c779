-- ===== src/Prelude/Words.antt =====
-- Machine words: `std::uint64_t` as a number below 2 ^ 64, with its wrap-around written out.
use Prim.Native.Nat.{ℕ, ◌+◌, ◌-◌, ◌%◌, ◌^◌}

abbrev pub u64_mod : ℕ
u64_mod = 2 ^ 64

-- `(std::numeric_limits<std::uint64_t>::max)()`
abbrev pub u64_max : ℕ
u64_max = 2 ^ 64 - 1

abbrev pub inc_u64 : ℕ → ℕ
inc_u64 n = (n + 1) % u64_mod

-- `a - b` on `std::uint64_t`, for `b` below 2 ^ 64.
abbrev pub sub_u64 : ℕ → ℕ → ℕ
sub_u64 a b = (a + u64_mod - b) % u64_mod
