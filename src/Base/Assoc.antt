-- ===== src/Base/Assoc.antt =====
-- Rust's `HashMap` with numbers as keys: an association list with one entry for a key.
use Prim.Native.Nat.{ℕ}
use mathlib.Core.Path.{◌≡◌, refl, sym, subst}
use mathlib.Core.Logic.{◌≢◌}
use mathlib.Core.List.{List, [], ◌∷◌}
use mathlib.Core.Option.{Option, none, some}
use native.Mathlib.Omega.{arith}
use mathlib.Core.Logic.{inl, inr}
use stross.Base.Tests.{◌==◌, if◌then◌else◌, Bool-cases, ==→eq}
use stross.Base.Lists.{All}

module _ {ℓ} {A : Type ℓ} where
  abbrev pub lookup : ℕ → List (ℕ × A) → Option A
  lookup k [] = none
  lookup k ((i, a) ∷ m) = if k == i then some a else lookup k m

  abbrev pub remove : ℕ → List (ℕ × A) → List (ℕ × A)
  remove k [] = []
  remove k ((i, a) ∷ m) = if k == i then remove k m else (i, a) ∷ remove k m

  abbrev pub insert : ℕ → A → List (ℕ × A) → List (ℕ × A)
  insert k a m = (k, a) ∷ remove k m

  pub lookup-remove : (k : ℕ) (m : List (ℕ × A)) → lookup k (remove k m) ≡ none
  lookup-remove k [] = refl
  lookup-remove k ((i, a) ∷ m) = ground (arith, lookup-remove k m)

  pub lookup-remove_other :
      (k i : ℕ) (m : List (ℕ × A)) → k ≢ i → lookup k (remove i m) ≡ lookup k m
  lookup-remove_other k i [] n = refl
  lookup-remove_other k i ((j, a) ∷ m) n = ground (arith, lookup-remove_other k i m n)

  pub lookup-insert : (k : ℕ) (a : A) (m : List (ℕ × A)) → lookup k (insert k a m) ≡ some a
  lookup-insert k a m = ground arith

  pub lookup-insert_other :
      (k i : ℕ) (a : A) (m : List (ℕ × A)) → k ≢ i → lookup k (insert i a m) ≡ lookup k m
  lookup-insert_other k i a m n = ground (arith, lookup-remove_other k i m n)

  pub remove-All {κ} :
      (P : ℕ × A → Type κ) (k : ℕ) (m : List (ℕ × A)) → All P m → All P (remove k m)
  remove-All P k [] h = tt
  remove-All P k ((i, a) ∷ m) h = elim (Bool-cases (k == i)) [
    | inl e ↦ rw e (remove-All P k m h.1)
    | inr e ↦ rw e (h.0, remove-All P k m h.1)
  ]

  pub lookup-All {κ} :
      (P : ℕ × A → Type κ) (k : ℕ) (a : A) (m : List (ℕ × A))
      → lookup k m ≡ some a
      → All P m
      → P (k, a)
  lookup-All P k a [] e h = cc
  lookup-All P k a ((i, b) ∷ m) e h = elim (Bool-cases (k == i)) [
    | inl here ↦
        subst (λ j. P (j, a)) (sym (==→eq k i here))
          (subst (λ c. P (i, c)) (ground (arith, here, e)) h.0)
    | inr there ↦ lookup-All P k a m (ground (arith, there, e)) h.1
  ]
