-- ===== src/Codec/Emulation/Equivalence.antt =====
-- The search before the loop changes nothing, and the loop undoes the escaping of H.264.
use stross.Base.{
  ℕ, suc, zero, ◌+◌, ◌%◌, ◌≤◌, ◌≡◌, ◌≢◌, refl, sym, ap, subst, List, [], ◌∷◌, Option, none, arith,
  leb, ◌==◌, ==→eq, ◌&&◌, Bool-cases, inl, inr, if◌then◌else◌, Option-cases,
}
use stross.Codec.Emulation.{strip, de_emulation_prevention}

-- No `00 00 03` stands anywhere in the bytes.
abbrev pub Clean : List ℕ → Type 0
Clean [] = Unit {0}
Clean (a ∷ []) = Unit {0}
Clean (a ∷ b ∷ []) = Unit {0}
Clean (a ∷ b ∷ c ∷ bs) = (a ≡ 0 → b ≡ 0 → c ≢ 3) × Clean (b ∷ c ∷ bs)

Clean-tail : (a : ℕ) (bs : List ℕ) → Clean (a ∷ bs) → Clean bs
Clean-tail a [] h = tt
Clean-tail a (b ∷ []) h = tt
Clean-tail a (b ∷ c ∷ bs) h = h.1

-- What the counter knows of the bytes before `bs`.
record After (run : ℕ) (bs : List ℕ) : Type 0 where
  two : 2 ≤ run → Clean (0 ∷ 0 ∷ bs)
  one : run ≡ 1 → Clean (0 ∷ bs)
  none_before : Clean bs

After-kept : (run b : ℕ) (bs : List ℕ) → After run (b ∷ bs) → After 0 bs
After-kept run b bs a = record {
  two = λ h. absurd (omega (arith, h));
  one = λ h. absurd (omega (arith, h));
  none_before = Clean-tail b bs a.none_before;
}

After-two : (run : ℕ) (bs : List ℕ) → After run (0 ∷ bs) → 2 ≤ (run + 1) % 256 → Clean (0 ∷ 0 ∷ bs)
After-two zero bs a h = absurd (omega (arith, h))
After-two (suc zero) bs a h = a.one refl
After-two (suc (suc run)) bs a h = Clean-tail 0 (0 ∷ 0 ∷ bs) (a.two (omega arith))

After-zero : (run : ℕ) (bs : List ℕ) → After run (0 ∷ bs) → After ((run + 1) % 256) bs
After-zero run bs a = record {
  two = After-two run bs a;
  one = λ h. a.none_before;
  none_before = Clean-tail 0 bs a.none_before;
}

strip-After : (bs : List ℕ) (run : ℕ) → After run bs → strip run bs ≡ bs
unfolding strip
strip-After [] run a = refl
strip-After (b ∷ bs) run a = elim (Bool-cases (leb 2 run && b == 3)) [
  | inl e ↦
      let far : 2 ≤ run = ground (arith, e) in
      let three : b ≡ 3 = ground (arith, e) in
      let pair = a.two far in absurd (pair.0 refl refl three)
  | inr e ↦ elim (Bool-cases (b == 0)) [
    | inl z ↦
        let here = ==→eq b 0 z in
        rw (e, z)
          (ap (◌∷◌ b) (
            strip-After bs ((run + 1) % 256)
              (After-zero run bs (subst (λ c. After run (c ∷ bs)) here a))))
    | inr z ↦ rw (e, z) (ap (◌∷◌ b) (strip-After bs 0 (After-kept run b bs a)))
  ]
]

-- Given a search that reports nothing only where nothing is to be found, looking for `00 00 03` before
-- the loop gives what the loop alone gives.
pub de_emulation_prevention-strip :
    (find : List ℕ → Option ℕ)
    → ((bs : List ℕ) → find bs ≡ none → Clean bs)
    → (ebsp : List ℕ) → de_emulation_prevention find ebsp ≡ strip 0 ebsp
unfolding de_emulation_prevention
de_emulation_prevention-strip find honest ebsp = elim (Option-cases (find ebsp)) [
  | inl e ↦
      rw (de_emulation_prevention, e)
        (sym (
          strip-After ebsp 0 (record {
            two = λ h. absurd (omega (arith, h));
            one = λ h. absurd (omega (arith, h));
            none_before = honest ebsp e;
          })))
  | inr (i, e) ↦ rw (de_emulation_prevention, e) refl
]

-- The escaping of H.264, 7.4.1: a 3 goes in before a byte of at most 3 that follows two zeros.
unfoldable pub escape : ℕ → List ℕ → List ℕ
escape run [] = []
escape run (b ∷ bs) =
    let after_zero = escape 1 bs in
    let one_more = escape (suc run) bs in
    let fresh = escape 0 bs in
    if leb 2 run && leb b 3
    then 3 ∷ b ∷ (if b == 0 then after_zero else fresh)
    else b ∷ (if b == 0 then one_more else fresh)

-- The loop gives back what was escaped, when both start after the same number of zeros, at most
-- two.
pub strip-escape : (bs : List ℕ) (run : ℕ) → run ≤ 2 → strip run (escape run bs) ≡ bs
unfolding strip escape
strip-escape [] run h = refl
strip-escape (b ∷ bs) zero h =
    ground (arith, strip-escape bs 0 (omega arith), strip-escape bs 1 (omega arith))
strip-escape (b ∷ bs) (suc zero) h =
    ground (arith, strip-escape bs 0 (omega arith), strip-escape bs 2 (omega arith))
strip-escape (b ∷ bs) (suc (suc zero)) h =
    ground (arith, strip-escape bs 0 (omega arith), strip-escape bs 1 (omega arith))
strip-escape (b ∷ bs) (suc (suc (suc run))) h = absurd (omega (arith, h))
