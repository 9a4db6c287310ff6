-- ===== src/Codec/Emulation.antt =====
-- crates/stross-endpoint/src/codec/nal.rs: taking the emulation prevention bytes out.
pub mod Equivalence
use stross.Base.{
  ℕ, suc, zero, ◌+◌, ◌-◌, ◌*◌, ◌/◌, ◌%◌, ◌^◌, List, [], ◌∷◌, Option, none, some, leb, ltb, ◌==◌,
  ◌&&◌, if◌then◌else◌, length,
}
use stross.Base.Bytes.{byte_at}

-- The loop of `de_emulation_prevention`, whose counter of zeros is a `u8`.
unfoldable pub strip : ℕ → List ℕ → List ℕ
strip run [] = []
strip run (b ∷ bs) =
    let removed = strip 0 bs in
    let zero_kept = b ∷ strip ((run + 1) % 256) bs in
    let kept = b ∷ strip 0 bs in
    if leb 2 run && b == 3 then removed else if b == 0 then zero_kept else kept

-- `find` is the search for `00 00 03`, of the package memchr.
unfoldable pub de_emulation_prevention : (List ℕ → Option ℕ) → List ℕ → List ℕ
de_emulation_prevention find ebsp = elim (find ebsp) [ none ↦ ebsp | some i ↦ strip 0 ebsp ]

-- The loop of `first_mb_in_slice` that fills `cleaned`, with `room` bytes to go.
unfoldable pub cleaned : ℕ → ℕ → List ℕ → List ℕ
cleaned run room [] = []
cleaned run zero (b ∷ bs) = []
cleaned run (suc room) (b ∷ bs) =
    let zero_kept = b ∷ cleaned (suc run) room bs in
    let removed = cleaned 0 (suc room) bs in
    let kept = b ∷ cleaned 0 room bs in
    if b == 0 then zero_kept else if b == 3 && leb 2 run then removed else kept

-- The closure `bit`, the most significant bit of a byte first.
unfoldable pub bit : List ℕ → ℕ → Option ℕ
bit bytes p =
    if leb (length bytes) (p / 8) then none else some (byte_at bytes (p / 8) / 2 ^ (7 - p % 8) % 2)

-- The number of zero bits from `p`, at most 32, with those counted so far.
unfoldable pub leading_zeros : ℕ → List ℕ → ℕ → ℕ → Option ℕ
leading_zeros zero bytes p m = none
leading_zeros (suc fuel) bytes p m =
    let more = leading_zeros fuel bytes (p + 1) (m + 1) in
    elim (bit bytes p) [
      | none ↦ none
      | some b ↦ if b == 0 then (if ltb 32 (m + 1) then none else more) else some m
    ]

-- `m` bits from `p` as a number, after `value`.
unfoldable pub read_bits : ℕ → List ℕ → ℕ → ℕ → Option ℕ
read_bits zero bytes p value = some value
read_bits (suc m) bytes p value = elim (bit bytes p) [
  | none ↦ none
  | some b ↦ read_bits m bytes (p + 1) (value * 2 + b)
]

unfoldable pub exp_golomb : List ℕ → Option ℕ
exp_golomb bytes = elim (leading_zeros 33 bytes 0 0) [
  | none ↦ none
  | some m ↦ elim (read_bits m bytes (m + 1) 0) [
    | none ↦ none
    | some value ↦ some (2 ^ m - 1 + value)
  ]
]

unfoldable pub first_mb_in_slice : List ℕ → Option ℕ
first_mb_in_slice [] = none
first_mb_in_slice (header ∷ []) = none
first_mb_in_slice (header ∷ b ∷ bs) =
    let bytes = cleaned 0 6 (b ∷ bs) in if length bytes == 0 then none else exp_golomb bytes
