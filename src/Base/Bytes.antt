-- ===== src/Base/Bytes.antt =====
-- Byte strings, and numbers written in them from the least byte up. A byte is a number below 256.
use Prim.Native.Nat.{ℕ, zero, suc, ◌+◌, ◌*◌, ◌/◌, ◌%◌, ◌^◌, ◌<◌}
use mathlib.Core.Path.{◌≡◌, refl}
use mathlib.Core.List.{List, [], ◌∷◌, ◌++◌}
use native.Mathlib.Omega.{arith}
use beatblock_online.Base.Lists.{All, length, take}

-- `to_le_bytes` of an integer of the given number of bytes, and `from_le_bytes`
abbrev pub to_le_bytes : ℕ → ℕ → List ℕ
to_le_bytes zero n = []
to_le_bytes (suc w) n = n % 256 ∷ to_le_bytes w (n / 256)

abbrev pub from_le_bytes : List ℕ → ℕ
from_le_bytes [] = 0
from_le_bytes (b ∷ bs) = b + 256 * from_le_bytes bs

abbrev pub drop : ℕ → List ℕ → List ℕ
drop zero bs = bs
drop (suc n) [] = []
drop (suc n) (b ∷ bs) = drop n bs

-- `bytes[i..i + n]`, in range
abbrev pub slice : ℕ → ℕ → List ℕ → List ℕ
slice i n bs = take n (drop i bs)

-- `out[i..i + data.len()].copy_from_slice(data)`, in range
abbrev pub write_at : ℕ → List ℕ → List ℕ → List ℕ
write_at i src out = take i out ++ src ++ drop (i + length src) out

abbrev pub replicate : ℕ → ℕ → List ℕ
replicate zero b = []
replicate (suc n) b = b ∷ replicate n b

abbrev pub IsByte : ℕ → Type 0
IsByte b = b < 256

pub to_le_bytes-All : (w n : ℕ) → All IsByte (to_le_bytes w n)
to_le_bytes-All zero n = tt
to_le_bytes-All (suc w) n = (omega arith, to_le_bytes-All w (n / 256))

pow_suc : (w : ℕ) → 256 ^ suc w ≡ 256 * 256 ^ w
pow_suc w = omega arith

pub from_le_bytes-to : (w n : ℕ) → n < 256 ^ w → from_le_bytes (to_le_bytes w n) ≡ n
from_le_bytes-to zero n h = omega arith
from_le_bytes-to (suc w) n h =
    omega (arith, pow_suc w, from_le_bytes-to w (n / 256) (omega (arith, pow_suc w)))

pub to_le_bytes-from :
    (bs : List ℕ) → All IsByte bs → to_le_bytes (length bs) (from_le_bytes bs) ≡ bs
to_le_bytes-from [] h = refl
to_le_bytes-from (b ∷ bs) h =
    let low : (b + 256 * from_le_bytes bs) % 256 ≡ b = omega (arith, h.0) in
    let high : (b + 256 * from_le_bytes bs) / 256 ≡ from_le_bytes bs = omega (arith, h.0) in
    rw (low, high, to_le_bytes-from bs h.1) refl

pub from_le_bytes-take-lt :
    (n : ℕ) (bs : List ℕ) → All IsByte bs → from_le_bytes (take n bs) < 256 ^ n
from_le_bytes-take-lt zero bs h = omega arith
from_le_bytes-take-lt (suc n) [] h = omega (arith, pow_suc n, from_le_bytes-take-lt n [] tt)
from_le_bytes-take-lt (suc n) (b ∷ bs) h =
    omega (arith, h.0, pow_suc n, from_le_bytes-take-lt n bs h.1)
