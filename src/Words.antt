-- ===== src/Words.antt =====
-- Go's fixed-width integers as native numbers. A uint64 is below 2 ^ 64 and wraps by `%`. An int32
-- is its bit pattern, a number below 2 ^ 32: patterns from 2 ^ 31 on are the negative numbers.
use go_ipc.Prelude.{ℕ, ◌+◌, ◌-◌, ◌%◌, ◌^◌, Bool, ◌||◌, leb, ◌==◌, if◌then◌else◌}

abbrev pub u64_add : ℕ → ℕ → ℕ
u64_add a b = (a + b) % 2 ^ 64

abbrev pub u64_sub : ℕ → ℕ → ℕ
u64_sub a b = (a + 2 ^ 64 - b) % 2 ^ 64

abbrev pub i32_add : ℕ → ℕ → ℕ
i32_add a b = (a + b) % 2 ^ 32

-- `-n` of an int32.
abbrev pub i32_neg : ℕ → ℕ
i32_neg n = (2 ^ 32 - n) % 2 ^ 32

abbrev pub i32_is_negative : ℕ → Bool
i32_is_negative n = leb (2 ^ 31) n

-- `n <= 0` of an int32.
abbrev pub i32_not_positive : ℕ → Bool
i32_not_positive n = n == 0 || leb (2 ^ 31) n

-- `int32(n)` of a uint64 or an int.
abbrev pub i32_of : ℕ → ℕ
i32_of n = n % 2 ^ 32

-- `uint64(n)` of an int32: the sign is extended.
abbrev pub u64_of_i32 : ℕ → ℕ
u64_of_i32 n = if leb (2 ^ 31) n then n + 2 ^ 64 - 2 ^ 32 else n

abbrev pub max_int32 : ℕ
max_int32 = 2 ^ 31 - 1
