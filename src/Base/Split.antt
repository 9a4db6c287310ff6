-- ===== src/Base/Split.antt =====
-- Rust's `strip_prefix`, `split_once` and `rsplit_once` on the codes of a text.
use Prim.Native.Nat.{ℕ}
use mathlib.Core.Path.{◌≡◌, refl, sym, ap, ◌∙◌}
use mathlib.Core.Bool.{Bool, true, false}
use mathlib.Core.List.{List, [], ◌∷◌, ◌++◌}
use mathlib.Core.Logic.{◌≢◌}
use mathlib.Core.Option.{Option, none, some}
use native.Mathlib.Omega.{arith}
use stross.Base.Tests.{◌==◌, if◌then◌else◌}
use stross.Base.Lists.{All}

abbrev pub strip_prefix : List ℕ → List ℕ → Option (List ℕ)
strip_prefix [] cs = some cs
strip_prefix (p ∷ ps) [] = none
strip_prefix (p ∷ ps) (c ∷ cs) = if p == c then strip_prefix ps cs else none

abbrev pub with_head : ℕ → Option (List ℕ × List ℕ) → Option (List ℕ × List ℕ)
with_head c none = none
with_head c (some (a, b)) = some (c ∷ a, b)

-- What stands before and after the first `sep`.
unfoldable pub split_once : ℕ → List ℕ → Option (List ℕ × List ℕ)
split_once sep [] = none
split_once sep (c ∷ cs) = if c == sep then some ([], cs) else with_head c (split_once sep cs)

abbrev pub or_else {ℓ} : {A : Type ℓ} → Option A → Option A → Option A
or_else none o = o
or_else (some a) o = some a

-- What stands before and after the last `sep`.
unfoldable pub rsplit_once : ℕ → List ℕ → Option (List ℕ × List ℕ)
rsplit_once sep [] = none
rsplit_once sep (c ∷ cs) =
    or_else (with_head c (rsplit_once sep cs)) (if c == sep then some ([], cs) else none)

-- The text does not have the code.
abbrev pub Lacks : ℕ → List ℕ → Type 0
Lacks sep = All (λ c. c ≢ sep)

pub strip_prefix-append : (ps cs : List ℕ) → strip_prefix ps (ps ++ cs) ≡ some cs
strip_prefix-append [] cs = refl
strip_prefix-append (p ∷ ps) cs = ground (arith, strip_prefix-append ps cs)

pub split_once-append :
    (sep : ℕ) (a b : List ℕ) → Lacks sep a → split_once sep (a ++ sep ∷ b) ≡ some (a, b)
unfolding split_once
split_once-append sep [] b h = ground arith
split_once-append sep (c ∷ a) b h = ground (arith, split_once-append sep a b h.1, h.0)

pub split_once-Lacks : (sep : ℕ) (a : List ℕ) → Lacks sep a → split_once sep a ≡ none
unfolding split_once
split_once-Lacks sep [] h = refl
split_once-Lacks sep (c ∷ a) h = ground (arith, split_once-Lacks sep a h.1, h.0)

rsplit_once-Lacks : (sep : ℕ) (a : List ℕ) → Lacks sep a → rsplit_once sep a ≡ none
unfolding rsplit_once
rsplit_once-Lacks sep [] h = refl
rsplit_once-Lacks sep (c ∷ a) h = ground (arith, rsplit_once-Lacks sep a h.1, h.0)

pub rsplit_once-append :
    (sep : ℕ) (a b : List ℕ) → Lacks sep b → rsplit_once sep (a ++ sep ∷ b) ≡ some (a, b)
unfolding rsplit_once
rsplit_once-append sep [] b h = ground (arith, rsplit_once-Lacks sep b h)
rsplit_once-append sep (c ∷ a) b h = ground (arith, rsplit_once-append sep a b h)

-- Whether the text has the code.
abbrev pub contains : List ℕ → ℕ → Bool
contains [] sep = false
contains (c ∷ cs) sep = if c == sep then true else contains cs sep

pub contains_false→Lacks : (sep : ℕ) (cs : List ℕ) → contains cs sep ≡ false → Lacks sep cs
contains_false→Lacks sep [] h = tt
contains_false→Lacks sep (c ∷ cs) h =
    (λ e. ground (arith, e, h), contains_false→Lacks sep cs (ground (arith, h)))

-- Two texts that are equal are equal before and after their first separator.
pub split_eq :
    (sep : ℕ) (a a' b b' : List ℕ)
    → Lacks sep a
    → Lacks sep a'
    → a ++ sep ∷ b ≡ a' ++ sep ∷ b'
    → (a ≡ a') × (b ≡ b')
split_eq sep a a' b b' h h' e =
    let same : ◌≡◌ {A = Option (List ℕ × List ℕ)} (some (a, b)) (some (a', b')) =
      sym (split_once-append sep a b h) ∙ ap (split_once sep) e ∙ split_once-append sep a' b' h' in
    (ground (arith, same), ground (arith, same))
