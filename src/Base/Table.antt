-- ===== src/Base/Table.antt =====
-- Facts about single bits of a byte, checked for all 256 values by evaluation.
use Prim.Native.Nat.{ℕ, zero, suc, ◌<◌, ◌%◌, bit_and}
use mathlib.Core.Path.{◌≡◌, refl}
use mathlib.Core.Bool.{Bool, true, ◌&&◌}
use native.Mathlib.Omega.{arith}
use stross.Base.Tests.{◌==◌, ==→eq}

all_below : ℕ → (ℕ → Bool) → Bool
all_below zero p = true
all_below (suc n) p = p n && all_below n p

all_below→holds : (n : ℕ) (p : ℕ → Bool) (x : ℕ) → all_below n p ≡ true → x < n → p x ≡ true
unfolding all_below
all_below→holds zero p x h lt = absurd (omega arith)
all_below→holds (suc n) p x h lt = ground (arith, all_below→holds n p x)

-- `b & 0x1f`.
pub bit_and_31 : (b : ℕ) → b < 256 → bit_and b 0x1f ≡ b % 32
unfolding all_below
bit_and_31 b h = ==→eq _ _ (all_below→holds 256 (λ x. bit_and x 0x1f == (x % 32)) b refl h)

-- `b & 1`.
pub bit_and_1 : (b : ℕ) → b < 256 → bit_and b 1 ≡ b % 2
unfolding all_below
bit_and_1 b h = ==→eq _ _ (all_below→holds 256 (λ x. bit_and x 1 == (x % 2)) b refl h)
