-- ===== src/Pick/Jitter/Slots.antt =====
-- The ring of slots: what a slot holds after a write, and how many slots are taken.
use stross.Base.{
  ℕ, zero, suc, ◌≤◌, ◌<◌, ◌≡◌, refl, List, [], ◌∷◌, Option, none, some, arith, length, set,
  replicate, ◌==◌, ==→eq, ==_false→ne, ◌≢◌, if◌then◌else◌, Bool-cases, inl, inr,
}
use stross.Proto.Frame.{Frame}
use stross.Pick.Jitter.{slot_at, clear_slots, count_occupied}

-- `P i f` for each slot `i` that holds a frame `f`.
abbrev pub Each : (ℕ → Frame → Type 0) → List (Option Frame) → Type 0
Each P slots = (i : ℕ) (f : Frame) → slot_at slots i ≡ some f → P i f

pub slot_at-set :
    (slots : List (Option Frame)) (i j : ℕ) (v : Option Frame)
    → i < length slots
    → slot_at (set slots i v) j ≡ (if i == j then v else slot_at slots j)
slot_at-set [] i j v h = absurd (omega arith)
slot_at-set (s ∷ slots) zero zero v h = refl
slot_at-set (s ∷ slots) zero (suc j) v h = ground arith
slot_at-set (s ∷ slots) (suc i) zero v h = ground arith
slot_at-set (s ∷ slots) (suc i) (suc j) v h = ground (arith, slot_at-set slots i j v (omega arith))

pub slot_at-clear : (slots : List (Option Frame)) (i : ℕ) → slot_at (clear_slots slots) i ≡ none
slot_at-clear [] i = refl
slot_at-clear (s ∷ slots) zero = refl
slot_at-clear (s ∷ slots) (suc i) = slot_at-clear slots i

pub slot_at-replicate : (n i : ℕ) → slot_at (replicate n none) i ≡ none
slot_at-replicate zero i = refl
slot_at-replicate (suc n) zero = refl
slot_at-replicate (suc n) (suc i) = slot_at-replicate n i

pub length-clear : (slots : List (Option Frame)) → length (clear_slots slots) ≡ length slots
length-clear [] = refl
length-clear (s ∷ slots) = omega (arith, length-clear slots)

pub Each-set :
    (P : ℕ → Frame → Type 0) (slots : List (Option Frame)) (i : ℕ) (g : Frame)
    → i < length slots
    → P i g
    → Each P slots
    → Each P (set slots i (some g))
Each-set P slots i g h p each j f e = elim (Bool-cases (i == j)) [
  | inl here ↦
      let same : g ≡ f = ground (arith, slot_at-set slots i j (some g) h) in
      rw (← ==→eq i j here, ← same) p
  | inr away ↦ each j f (ground (arith, slot_at-set slots i j (some g) h))
]

-- What is left after a slot has been emptied.
pub slot_at-set-none :
    (slots : List (Option Frame)) (i j : ℕ) (f : Frame)
    → i < length slots
    → slot_at (set slots i none) j ≡ some f
    → (i ≢ j) × (slot_at slots j ≡ some f)
slot_at-set-none slots i j f h e = elim (Bool-cases (i == j)) [
  | inl here ↦ absurd (ground (arith, slot_at-set slots i j none h))
  | inr away ↦ (==_false→ne i j away, ground (arith, slot_at-set slots i j none h))
]

pub Each-clear : (P : ℕ → Frame → Type 0) (slots : List (Option Frame)) → Each P (clear_slots slots)
Each-clear P slots i f e = absurd (ground (arith, slot_at-clear slots i))

-- A frame put into a free slot, and into a taken one.
pub count-set_free :
    (slots : List (Option Frame)) (i : ℕ) (g : Frame)
    → count_occupied (set slots i (some g)) ≤ suc (count_occupied slots)
unfolding count_occupied
count-set_free [] i g = omega arith
count-set_free (none ∷ slots) zero g = omega arith
count-set_free (some f ∷ slots) zero g = omega arith
count-set_free (none ∷ slots) (suc i) g = count-set_free slots i g
count-set_free (some f ∷ slots) (suc i) g = omega (arith, count-set_free slots i g)

pub count-set_taken :
    (slots : List (Option Frame)) (i : ℕ) (f g : Frame)
    → slot_at slots i ≡ some f
    → count_occupied (set slots i (some g)) ≡ count_occupied slots
unfolding count_occupied
count-set_taken [] i f g e = refl
count-set_taken (none ∷ slots) zero f g e = cc
count-set_taken (some x ∷ slots) zero f g e = refl
count-set_taken (none ∷ slots) (suc i) f g e = count-set_taken slots i f g e
count-set_taken (some x ∷ slots) (suc i) f g e = omega (arith, count-set_taken slots i f g e)

pub count-set-none :
    (slots : List (Option Frame)) (i : ℕ) (f : Frame)
    → slot_at slots i ≡ some f
    → suc (count_occupied (set slots i none)) ≡ count_occupied slots
unfolding count_occupied
count-set-none [] i f e = cc
count-set-none (none ∷ slots) zero f e = cc
count-set-none (some x ∷ slots) zero f e = refl
count-set-none (none ∷ slots) (suc i) f e = count-set-none slots i f e
count-set-none (some x ∷ slots) (suc i) f e = omega (arith, count-set-none slots i f e)

pub count-clear : (slots : List (Option Frame)) → count_occupied (clear_slots slots) ≡ 0
unfolding count_occupied
count-clear [] = refl
count-clear (s ∷ slots) = count-clear slots

pub count-replicate : (n : ℕ) → count_occupied (replicate n none) ≡ 0
unfolding count_occupied
count-replicate zero = refl
count-replicate (suc n) = count-replicate n
