-- ===== src/Base/Decimal.antt =====
-- Numbers in decimal, as Rust prints and parses unsigned integers, over the codes of characters.
use Prim.Native.Nat.{ℕ, zero, suc, ◌+◌, ◌-◌, ◌*◌, ◌/◌, ◌%◌, ◌^◌, ◌<◌, ◌≤◌}
use mathlib.Core.Path.{◌≡◌, refl, ap, ◌∙◌}
use mathlib.Core.Bool.{Bool, true, ◌&&◌}
use mathlib.Core.List.{List, [], ◌∷◌, ◌++◌}
use mathlib.Core.Logic.{inl, inr, ◌≢◌}
use mathlib.Core.Option.{Option, none, some}
use native.Mathlib.Omega.{arith}
use native.Mathlib.Nat.{pow-suc}
use stross.Base.Tests.{ltb, leb, ◌==◌, if◌then◌else◌, Bool-cases, ltb→lt, ltb_false→le}
use stross.Base.Lists.{All, All-append, length, length-append}

abbrev pub is_digit : ℕ → Bool
is_digit c = leb 48 c && leb c 57

-- The digits of a number that has at most so many of them.
unfoldable pub to_decimal : ℕ → ℕ → List ℕ
to_decimal zero n = []
to_decimal (suc k) n =
    if ltb n 10 then (48 + n) ∷ [] else to_decimal k (n / 10) ++ ((48 + n % 10) ∷ [])

-- The loop of `from_str_radix`: a character that is no digit or a value past the bound of the type is an
-- error.
unfoldable pub read_digits : ℕ → ℕ → List ℕ → Option ℕ
read_digits bound acc [] = some acc
read_digits bound acc (c ∷ cs) =
    let acc' = acc * 10 + (c - 48) in
    let rest = read_digits bound acc' cs in if is_digit c && ltb acc' bound then rest else none

-- `parse` of an unsigned type: a plus sign may stand in front of at least one digit.
unfoldable pub from_decimal : ℕ → List ℕ → Option ℕ
unfolding read_digits
from_decimal bound [] = none
from_decimal bound (c ∷ []) = if c == 43 then none else read_digits bound 0 (c ∷ [])
from_decimal bound (c ∷ d ∷ cs) =
    if c == 43 then read_digits bound 0 (d ∷ cs) else read_digits bound 0 (c ∷ d ∷ cs)

abbrev pub IsDigits : List ℕ → Type 0
IsDigits = All (λ c. is_digit c ≡ true)

pub to_decimal-IsDigits : (k n : ℕ) → IsDigits (to_decimal k n)
unfolding to_decimal
to_decimal-IsDigits zero n = tt
to_decimal-IsDigits (suc k) n = elim (Bool-cases (ltb n 10)) [
  | inl small ↦ rw small (ground arith, tt)
  | inr large ↦ rw large (
      All-append (λ c. is_digit c ≡ true) (to_decimal k (n / 10)) ((48 + n % 10) ∷ [])
        (to_decimal-IsDigits k (n / 10)) (ground arith, tt))
]

then_read : ℕ → Option ℕ → ℕ → Option ℕ
then_read bound none c = none
then_read bound (some acc) c = read_digits bound acc (c ∷ [])

read_digits-append :
    (bound acc : ℕ) (cs : List ℕ) (c : ℕ)
    → read_digits bound acc (cs ++ (c ∷ [])) ≡ then_read bound (read_digits bound acc cs) c
unfolding read_digits then_read
read_digits-append bound acc [] c = refl
read_digits-append bound acc (d ∷ cs) c =
    ground (arith, read_digits-append bound (acc * 10 + (d - 48)) cs c)

read_digits-to_decimal :
    (bound k n : ℕ) → n < bound → n < 10 ^ k → read_digits bound 0 (to_decimal k n) ≡ some n
unfolding to_decimal read_digits then_read
read_digits-to_decimal bound zero n h l = ap some (omega (arith, l))
read_digits-to_decimal bound (suc k) n h l = elim (Bool-cases (ltb n 10)) [
  | inl small ↦ rw small (ground (arith, ltb→lt n 10 small))
  | inr large ↦ rw large (
      read_digits-append bound 0 (to_decimal k (n / 10)) (48 + n % 10)
      ∙ ap (λ o. then_read bound o (48 + n % 10))
          (read_digits-to_decimal bound k (n / 10) (omega arith) (omega (arith, pow-suc 10 k)))
      ∙ ground (arith, ltb_false→le n 10 large))
]

pub from_decimal-IsDigits :
    (bound c : ℕ) (cs : List ℕ)
    → IsDigits (c ∷ cs)
    → from_decimal bound (c ∷ cs) ≡ read_digits bound 0 (c ∷ cs)
unfolding from_decimal
from_decimal-IsDigits bound c [] h = ground arith
from_decimal-IsDigits bound c (d ∷ cs) h = ground arith

from_digits :
    (bound : ℕ) (cs : List ℕ)
    → IsDigits cs
    → cs ≢ []
    → from_decimal bound cs ≡ read_digits bound 0 cs
from_digits bound [] h n = absurd (n refl)
from_digits bound (c ∷ cs) h n = from_decimal-IsDigits bound c cs h

append-ne-nil : (cs : List ℕ) (c : ℕ) → cs ++ (c ∷ []) ≢ []
append-ne-nil [] c e = cc
append-ne-nil (d ∷ cs) c e = cc

pub to_decimal-ne-nil : (k n : ℕ) → to_decimal (suc k) n ≢ []
unfolding to_decimal
to_decimal-ne-nil k n e = elim (Bool-cases (ltb n 10)) [
  | inl small ↦ ground (arith, e, small)
  | inr large ↦ append-ne-nil (to_decimal k (n / 10)) (48 + n % 10) (ground (arith, e, large))
]

-- A number below the bound of its type reads back from its digits.
pub from_decimal-to_decimal :
    (bound k n : ℕ)
    → n < bound
    → n < 10 ^ suc k
    → from_decimal bound (to_decimal (suc k) n) ≡ some n
from_decimal-to_decimal bound k n h l =
    from_digits bound (to_decimal (suc k) n) (to_decimal-IsDigits (suc k) n) (to_decimal-ne-nil k n)
    ∙ read_digits-to_decimal bound (suc k) n h l

pub length-to_decimal-le : (k n : ℕ) → length (to_decimal k n) ≤ k
unfolding to_decimal
length-to_decimal-le zero n = omega arith
length-to_decimal-le (suc k) n = ground (
  arith,
  length-to_decimal-le k (n / 10),
  length-append (to_decimal k (n / 10)) ((48 + n % 10) ∷ []),
)
