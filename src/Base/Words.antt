-- ===== src/Base/Words.antt =====
-- `u64`: addition that saturates, and the width of `u32`.
use Prim.Native.Nat.{ℕ, ◌+◌, ◌-◌, ◌^◌, max, min}

abbrev pub u64_max : ℕ
u64_max = 2 ^ 64 - 1

abbrev pub u32_mod : ℕ
u32_mod = 2 ^ 32

-- `u64::saturating_add`
abbrev pub saturating_add : ℕ → ℕ → ℕ
saturating_add a b = min (a + b) u64_max

-- `Ord::clamp`
abbrev pub clamp : ℕ → ℕ → ℕ → ℕ
clamp x lo hi = min (max x lo) hi
