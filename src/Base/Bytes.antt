-- ===== src/Base/Bytes.antt =====
-- Bytes as numbers, machine words in little-endian order, and single-bit tests on a byte.
use Prim.Native.Nat.{ℕ, zero, suc, ◌+◌, ◌*◌, ◌/◌, ◌%◌, ◌^◌, ◌<◌}
use mathlib.Core.Path.{◌≡◌, refl, ap, ap₂}
use mathlib.Core.List.{List, [], ◌∷◌}
use native.Mathlib.Omega.{arith}
use native.Mathlib.Nat.{pow-suc}
use stross.Base.Lists.{length, All, set, get_or}

abbrev pub IsByte : ℕ → Type 0
IsByte b = b < 256

abbrev pub IsU32 : ℕ → Type 0
IsU32 v = v < 2 ^ 32

abbrev pub IsU64 : ℕ → Type 0
IsU64 v = v < 2 ^ 64

abbrev pub u32_mod : ℕ
u32_mod = 2 ^ 32

-- `v.to_le_bytes()` for a word of `k` bytes, and `from_le_bytes`.
abbrev pub to_le : ℕ → ℕ → List ℕ
to_le zero v = []
to_le (suc k) v = (v % 256) ∷ to_le k (v / 256)

abbrev pub from_le : List ℕ → ℕ
from_le [] = 0
from_le (b ∷ bs) = b + 256 * from_le bs

pub length-to_le : (k v : ℕ) → length (to_le k v) ≡ k
length-to_le zero v = refl
length-to_le (suc k) v = ap suc (length-to_le k (v / 256))

pub to_le-IsByte : (k v : ℕ) → All IsByte (to_le k v)
to_le-IsByte zero v = tt
to_le-IsByte (suc k) v = (omega arith, to_le-IsByte k (v / 256))

pub from_le-to_le : (k v : ℕ) → v < 256 ^ k → from_le (to_le k v) ≡ v
from_le-to_le zero v h = omega arith
from_le-to_le (suc k) v h =
    omega (arith, pow-suc 256 k, from_le-to_le k (v / 256) (omega (arith, pow-suc 256 k)))

pub to_le-from_le : (bs : List ℕ) → All IsByte bs → to_le (length bs) (from_le bs) ≡ bs
to_le-from_le [] h = refl
to_le-from_le (b ∷ bs) h = ap₂ ◌∷◌ (omega (arith, h.0)) (rw (high_part) (to_le-from_le bs h.1))
  where
    high_part : (b + 256 * from_le bs) / 256 ≡ from_le bs
    high_part = omega (arith, h.0)

-- `buf[i]`, which every caller guards by a test of the length.
abbrev pub byte_at : List ℕ → ℕ → ℕ
byte_at buf i = get_or buf i 0

-- `buf[i..i + bytes.len()].copy_from_slice(bytes)`.
abbrev pub copy_at : List ℕ → ℕ → List ℕ → List ℕ
copy_at buf i [] = buf
copy_at buf i (b ∷ bs) = copy_at (set buf i b) (suc i) bs
