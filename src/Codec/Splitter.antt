-- ===== src/Codec/Splitter.antt =====
-- crates/stross-endpoint/src/codec/nal.rs, `AnnexBSplitter`: NAL units cut out of a byte stream.
-- `find` is the search for `00 00 01` in a list of bytes, of the package memchr.
pub mod Memory
mod Tests
use stross.Base.{
  ℕ, suc, zero, ◌+◌, ◌-◌, ◌*◌, List, [], ◌∷◌, ◌++◌, Option, none, some, ltb, leb, ◌==◌, ◌&&◌,
  if◌then◌else◌, length, slice, drop,
}
use stross.Base.Bytes.{byte_at}

abbrev pub max_pending_nal : ℕ
max_pending_nal = 8388608

-- The loop that leaves the zeros before a start code out, from `prev + n` down to `prev`. It gives the
-- length of the segment.
unfoldable pub segment_len : List ℕ → ℕ → ℕ → ℕ
segment_len buf prev zero = 0
segment_len buf prev (suc n) =
    let shorter = segment_len buf prev n in if byte_at buf (prev + n) == 0 then shorter else suc n

module _ (find : List ℕ → Option ℕ) where
  unfoldable pub feed_loop : ℕ → List ℕ → ℕ → ℕ → Option (List (List ℕ) × ℕ)
  feed_loop zero buf prev search_pos = none
  feed_loop (suc fuel) buf prev search_pos = elim (find (drop search_pos buf)) [
    | none ↦ some ([], prev)
    | some rel ↦
        let match_idx = search_pos + rel in
        let seg = segment_len buf prev (match_idx - prev) in
        let keep = ltb 0 seg && leb seg max_pending_nal in
        elim (feed_loop fuel buf (match_idx + 3) (match_idx + 3)) [
          | none ↦ none
          | some (out, end) ↦ some (if keep then slice buf prev seg ∷ out else out, end)
        ]
  ]

  -- The NAL units of `feed`, and the buffer it keeps.
  unfoldable pub feed : List ℕ → List ℕ → Option (List (List ℕ) × List ℕ)
  feed old added =
      let buf = old ++ added in
      elim (feed_loop (suc (length buf)) buf 0 (length old - 2)) [
        | none ↦ none
        | some (out, prev) ↦
            if (prev == 0) && ltb max_pending_nal (length buf)
            then some (out, [])
            else some (out, drop prev buf)
      ]

-- `finish`: what is left is the last NAL unit.
unfoldable pub finish_split : List ℕ → List (List ℕ)
finish_split [] = []
finish_split (b ∷ bs) = (b ∷ bs) ∷ []
