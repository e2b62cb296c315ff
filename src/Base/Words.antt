-- ===== src/Base/Words.antt =====
-- Machine integers as bit patterns: a signed word is compared through its biased value.
use Prim.Native.Nat.{ℕ, ◌+◌, ◌-◌, ◌%◌, ◌^◌, ◌≤◌, ◌<◌}
use mathlib.Core.Bool.{Bool}
use native.Mathlib.Omega.{arith}
use winsock_tut.Base.Tests.{ltb, leb, if◌then◌else◌}

-- The order of the int64_t values is that of the patterns with the top bit flipped.
unfoldable pub i64_rank : ℕ → ℕ
i64_rank x = (x + 2 ^ 63) % 2 ^ 64

-- The same for int.
unfoldable pub i32_rank : ℕ → ℕ
i32_rank x = (x + 2 ^ 31) % 2 ^ 32

-- Sign extension of an int to 64 bits, as the conversion to an unsigned 64-bit integer makes it.
unfoldable pub i32_extend : ℕ → ℕ
i32_extend x = if ltb x (2 ^ 31) then x else x + 2 ^ 64 - 2 ^ 32

-- Is the int negative?
abbrev pub i32_negative : ℕ → Bool
i32_negative x = leb (2 ^ 31) x

pub i32_rank-lt : (x y : ℕ) → x < 2 ^ 31 → y < 2 ^ 31 → i32_rank x < i32_rank y → x < y
unfolding i32_rank
i32_rank-lt x y hx hy h = omega arith

pub i32_rank-le : (x y : ℕ) → x < 2 ^ 31 → y < 2 ^ 31 → i32_rank x ≤ i32_rank y → x ≤ y
unfolding i32_rank
i32_rank-le x y hx hy h = omega arith

pub i32_rank_mono : (x y : ℕ) → x < 2 ^ 31 → y < 2 ^ 31 → x ≤ y → i32_rank x ≤ i32_rank y
unfolding i32_rank
i32_rank_mono x y hx hy h = omega arith
