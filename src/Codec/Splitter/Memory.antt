-- ===== src/Codec/Splitter/Memory.antt =====
-- The splitter ends, and what it holds and gives out is bounded.
use stross.Base.{
  ℕ, suc, zero, ◌+◌, ◌-◌, ◌≤◌, ◌<◌, ◌≡◌, refl, List, [], ◌∷◌, ◌++◌, Option, some, arith, ltb, leb,
  ◌==◌, ◌&&◌, ◌⊎◌, inl, inr, Bool-cases, Option-cases, All, length, length-append, length-drop,
  length-take, slice, drop, max, false,
}
use stross.Codec.Splitter.{feed, feed_loop, segment_len, max_pending_nal}

segment_len_le : (buf : List ℕ) (prev n : ℕ) → segment_len buf prev n ≤ n
unfolding segment_len
segment_len_le buf prev zero = omega arith
segment_len_le buf prev (suc n) = ground (arith, segment_len_le buf prev n)

-- A NAL unit is not empty and at most 8 MiB.
abbrev pub IsNal : List ℕ → Type 0
IsNal nal = (0 < length nal) × (length nal ≤ 8388608)

record Loops (find : List ℕ → Option ℕ) (fuel : ℕ) (buf : List ℕ) (prev start : ℕ) : Type 0 where
  out : List (List ℕ)
  end : ℕ
  returns : feed_loop find fuel buf prev start ≡ some (out, end)
  nals : All IsNal out
  moved : (end ≡ prev) ⊎ ((start + 3 ≤ end) × (end ≤ length buf))

further :
    (start rel end n : ℕ)
    → (end ≡ start + rel + 3) ⊎ ((start + rel + 3 + 3 ≤ end) × (end ≤ n))
    → start + rel + 3 ≤ n
    → (start + 3 ≤ end) × (end ≤ n)
further start rel end n (inl e) h = omega (arith, e, h)
further start rel end n (inr (a, b)) h = omega (arith, a, b)

-- A search that reports a place reports one where three bytes stand.
abbrev pub Fits : (List ℕ → Option ℕ) → Type 0
Fits find = (bs : List ℕ) (i : ℕ) → find bs ≡ some i → i + 3 ≤ length bs

module _ (find : List ℕ → Option ℕ) (fits : Fits find) where
  feed_loop-Loops :
      (fuel : ℕ) (buf : List ℕ) (prev start : ℕ)
      → prev ≤ length buf
      → start ≤ length buf
      → length buf - start < fuel
      → Loops find fuel buf prev start
  unfolding feed_loop
  feed_loop-Loops zero buf prev start p s enough = absurd (omega (arith, enough))
  feed_loop-Loops (suc fuel) buf prev start p s enough =
      elim (Option-cases (find (drop start buf))) [
        | inl none_left ↦ record {
          out = [];
          end = prev;
          returns = ground (arith, none_left);
          nals = tt;
          moved = inl refl;
        }
        | inr (rel, found) ↦
            let room = fits (drop start buf) rel found in
            let rest =
              feed_loop-Loops fuel buf (start + rel + 3) (start + rel + 3)
                (omega (arith, room, length-drop start buf))
                (omega (arith, room, length-drop start buf))
                (omega (arith, room, length-drop start buf, enough)) in
            let ahead : start + rel + 3 ≤ length buf = omega (arith, room, length-drop start buf) in
            let seg = segment_len buf prev (start + rel - prev) in
            let within : prev + seg ≤ length buf = omega (
              arith,
              room,
              length-drop start buf,
              segment_len_le buf prev (start + rel - prev),
              p,
            ) in
            let size : length (slice buf prev seg) ≡ seg =
              omega (arith, within, length-take seg (drop prev buf), length-drop prev buf) in
            elim (Bool-cases (ltb 0 seg && leb seg max_pending_nal)) [
              | inl keep ↦ record {
                out = slice buf prev seg ∷ rest.out;
                end = rest.end;
                returns = ground (arith, found, rest.returns, keep);
                nals = (ground (arith, size, keep), rest.nals);
                moved = inr (further start rel rest.end (length buf) rest.moved ahead);
              }
              | inr skip ↦ record {
                out = rest.out;
                end = rest.end;
                returns = ground (arith, found, rest.returns, skip);
                nals = rest.nals;
                moved = inr (further start rel rest.end (length buf) rest.moved ahead);
              }
            ]
      ]

  kept_len :
      (buf : List ℕ) (old added end : ℕ)
      → length buf ≡ old + added
      → (end ≡ 0) ⊎ ((old - 2 + 3 ≤ end) × (end ≤ length buf))
      → ((end == 0) && ltb max_pending_nal (length buf)) ≡ false
      → length (drop end buf) ≤ max 8388608 added
  kept_len buf old added end n m e = ground (arith, n, m, e, length-drop end buf)

  -- Given a search that reports a place only where three bytes stand, `feed` always returns, every NAL unit
  -- it gives out has at least one byte and at most 8 MiB, and what it keeps is at most 8 MiB or no longer
  -- than what it was just fed.
  pub feed-Bounded :
      (old added : List ℕ)
      → (out : List (List ℕ)) × (kept : List ℕ) × (feed find old added ≡ some (out, kept))
        × All IsNal out
        × (length kept ≤ max 8388608 (length added))
  unfolding feed
  feed-Bounded old added =
      let buf = old ++ added in
      let n = length-append old added in
      let l =
        feed_loop-Loops (suc (length buf)) buf 0 (length old - 2) (omega arith) (omega (arith, n))
          (omega arith) in
      elim (Bool-cases ((l.end == 0) && ltb max_pending_nal (length buf))) [
        | inl lost ↦ (l.out, [], ground (arith, l.returns, lost), l.nals, omega arith)
        | inr held ↦ (
          l.out,
          drop (l.end) buf,
          ground (arith, l.returns, held),
          l.nals,
          kept_len buf (length old) (length added) l.end n l.moved held,
        )
      ]
