-- ===== src/Codec/Splitter/Tests.antt =====
-- The splitter over a search by comparison, and its theorem at concrete bytes.
use stross.Base.{
  ℕ, ◌+◌, ◌≤◌, ◌≡◌, refl, List, [], ◌∷◌, Option, none, some, arith, ◌==◌, ◌&&◌, if◌then◌else◌,
  Option-cases, inl, inr, All, length, max,
}
use stross.Codec.Splitter.{feed, feed_loop, segment_len}
use stross.Codec.Splitter.Memory.{Fits, IsNal, feed-Bounded}

-- The first `00 00 01`.
start_code : List ℕ → Option ℕ
start_code [] = none
start_code (a ∷ []) = none
start_code (a ∷ b ∷ []) = none
start_code (a ∷ b ∷ c ∷ bs) =
    let later = start_code (b ∷ c ∷ bs) in
    if a == 0 && b == 0 && c == 1
    then some 0
    else elim later [ none ↦ none | some i ↦ some (i + 1) ]

start_code-Fits : Fits start_code
unfolding start_code
start_code-Fits [] i e = absurd (ground (arith, e))
start_code-Fits (a ∷ []) i e = absurd (ground (arith, e))
start_code-Fits (a ∷ b ∷ []) i e = absurd (ground (arith, e))
start_code-Fits (a ∷ b ∷ c ∷ bs) i e = elim (Option-cases (start_code (b ∷ c ∷ bs))) [
  | inl gone ↦ ground (arith, e, gone)
  | inr (j, later) ↦ ground (arith, e, later, start_code-Fits (b ∷ c ∷ bs) j later)
]

feeds : List ℕ → List ℕ → Option (List (List ℕ) × List ℕ)
unfolding feed feed_loop segment_len start_code
feeds old added = feed start_code old added

-- Two units, a start code of four bytes, and a third unit that has begun.
feeds_units :
    feeds [] (0 ∷ 0 ∷ 1 ∷ 7 ∷ 9 ∷ 0 ∷ 0 ∷ 0 ∷ 1 ∷ 8 ∷ 0 ∷ 0 ∷ 1 ∷ 5 ∷ [])
    ≡ some ((7 ∷ 9 ∷ []) ∷ (8 ∷ []) ∷ [], 5 ∷ [])
unfolding feeds
feeds_units = refl

-- A start code over the border of two reads.
feeds_border : feeds (7 ∷ 9 ∷ 0 ∷ 0 ∷ []) (1 ∷ 5 ∷ []) ≡ some ((7 ∷ 9 ∷ []) ∷ [], 5 ∷ [])
unfolding feeds
feeds_border = refl

feed-Bounded_example :
    (out : List (List ℕ)) × (kept : List ℕ) × (feed start_code (7 ∷ 9 ∷ 0 ∷ 0 ∷ []) (1 ∷ 5 ∷ [])
      ≡ some (out, kept))
    × All IsNal out
    × (length kept ≤ max 8388608 2)
feed-Bounded_example = feed-Bounded start_code start_code-Fits (7 ∷ 9 ∷ 0 ∷ 0 ∷ []) (1 ∷ 5 ∷ [])
