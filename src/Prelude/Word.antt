-- ===== src/Prelude/Word.antt =====
-- Go's uint64: a number below `2 ^ 64`, whose increment wraps.
use Prim.Native.Nat.{ℕ, ◌+◌, ◌%◌, ◌^◌, ◌<◌}
use mathlib.Core.Path.{◌≡◌}
use native.Mathlib.Omega.{arith}

abbrev pub u64_mod : ℕ
u64_mod = 2 ^ 64

unfoldable pub add64 : ℕ → ℕ → ℕ
add64 a b = (a + b) % u64_mod

-- `x + 1` on uint64
unfoldable pub inc64 : ℕ → ℕ
inc64 x = (x + 1) % u64_mod

pub inc64-lt : (x : ℕ) → inc64 x < u64_mod
unfolding inc64
inc64-lt x = omega arith

-- Below the largest value the increment is exact.
pub inc64_exact : (x : ℕ) → x + 1 < u64_mod → inc64 x ≡ x + 1
unfolding inc64
inc64_exact x h = omega arith

-- An increment that is not 0 did not wrap.
pub inc64_pos : (x : ℕ) → x < u64_mod → 0 < inc64 x → inc64 x ≡ x + 1
unfolding inc64
inc64_pos x h p = omega arith

pub add64_exact : (a b : ℕ) → a + b < u64_mod → add64 a b ≡ a + b
unfolding add64
add64_exact a b h = omega arith
