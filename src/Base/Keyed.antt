-- ===== src/Base/Keyed.antt =====
-- Rust's `HashMap` and `HashSet` with keys of any type whose equality is decidable: an association
-- list with one entry for a key.
use mathlib.Core.Path.{◌≡◌, refl, sym, ap, ◌∙◌}
use mathlib.Core.Logic.{ite, if_pos, if_neg}
use mathlib.Core.Bool.{Bool, true, false}
use mathlib.Core.List.{List, [], ◌∷◌, ◌++◌}
use mathlib.Core.Option.{Option, none, some}
use native.Mathlib.Omega.{arith}

abbrev pub is_some {ℓ} : {A : Type ℓ} → Option A → Bool
is_some none = false
is_some (some a) = true

pub none_of_is_some {ℓ} : {A : Type ℓ} (o : Option A) → is_some o ≡ false → o ≡ none
none_of_is_some none e = refl
none_of_is_some (some a) e = cc

module _ {ℓ} {K : Type 0} (dec : Discrete K) {A : Type ℓ} where
  abbrev pub lookup : K → List (K × A) → Option A
  lookup k [] = none
  lookup k ((i, a) ∷ m) = ite (dec k i) (some a) (lookup k m)

  abbrev pub remove : K → List (K × A) → List (K × A)
  remove k [] = []
  remove k ((i, a) ∷ m) = ite (dec k i) (remove k m) ((i, a) ∷ remove k m)

  abbrev pub insert : K → A → List (K × A) → List (K × A)
  insert k a m = (k, a) ∷ remove k m

  pub lookup-remove :
      (k j : K) (m : List (K × A)) → lookup j (remove k m) ≡ (ite (dec j k) none (lookup j m))
  lookup-remove k j [] = ground arith
  lookup-remove k j ((i, a) ∷ m) = ground (arith, lookup-remove k j m)

  pub lookup-insert :
      (k j : K) (a : A) (m : List (K × A))
      → lookup j (insert k a m) ≡ (ite (dec j k) (some a) (lookup j m))
  lookup-insert k j a m = ground (arith, lookup-remove k j m)

  pub lookup-append :
      (k : K) (m n : List (K × A)) → lookup k m ≡ none → lookup k (m ++ n) ≡ lookup k n
  lookup-append k [] n h = refl
  lookup-append k ((i, a) ∷ m) n h = ground (arith, lookup-append k m n)

  pub lookup-append_some :
      (k : K) (m n : List (K × A)) (a : A) → lookup k m ≡ some a → lookup k (m ++ n) ≡ some a
  lookup-append_some k [] n a h = cc
  lookup-append_some k ((i, b) ∷ m) n a h = ground (arith, lookup-append_some k m n a)

  -- An entry that was put in for a new key and taken out again.
  pub lookup-remove-insert :
      (k j : K) (a : A) (m : List (K × A))
      → is_some (lookup k m) ≡ false
      → lookup j (remove k (insert k a m)) ≡ lookup j m
  lookup-remove-insert k j a m fresh = elim (dec j k) [
    | yes same ↦
        lookup-remove k j (insert k a m)
        ∙ if_pos (dec j k) same none (lookup j (insert k a m))
        ∙ sym (ap (λ i. lookup i m) same ∙ none_of_is_some (lookup k m) fresh)
    | no other ↦
        lookup-remove k j (insert k a m)
        ∙ if_neg (dec j k) other none (lookup j (insert k a m))
        ∙ lookup-insert k j a m
        ∙ if_neg (dec j k) other (some a) (lookup j m)
  ]
