-- ===== src/Codec/Tests.antt =====
-- The H.264 byte stream on concrete bytes, and its theorems at concrete inputs.
use stross.Base.{
  ℕ, ◌≡◌, refl, List, [], ◌∷◌, Option, none, some, arith, ◌+◌, ◌==◌, ◌&&◌, if◌then◌else◌,
}
use stross.Codec.Emulation.{
  strip, de_emulation_prevention, cleaned, bit, leading_zeros, read_bits, exp_golomb,
  first_mb_in_slice,
}
use stross.Codec.Emulation.Equivalence.{Clean, de_emulation_prevention-strip}
use stross.Codec.Units.{Nal, new_builder, nal_type, is_slice, is_first_slice}
use stross.Codec.Units.Frames.{Picture, IsPicture, assemble, stream_of, unit_of, assemble-stream_of}

first_mb : Nal → Option ℕ
unfolding first_mb_in_slice cleaned exp_golomb leading_zeros read_bits bit
first_mb nal = first_mb_in_slice nal

first_mb_zero : first_mb (0x65 ∷ 0x88 ∷ []) ≡ some 0
unfolding first_mb
first_mb_zero = refl

-- 0000 0010 0000 0001 1 is 2 ^ 6 - 1 + 0, with the emulation prevention byte of 00 00 03 taken out.
first_mb_escaped :
    first_mb (0x41 ∷ 0x00 ∷ 0x00 ∷ 0x03 ∷ 0x80 ∷ 0x00 ∷ 0x00 ∷ 0x80 ∷ []) ≡ some 65535
unfolding first_mb
first_mb_escaped = refl

abbrev key_picture : Picture
key_picture = record {
  configs = (0x67 ∷ 0x42 ∷ []) ∷ (0x68 ∷ 0xce ∷ []) ∷ [];
  first = 0x65 ∷ 0x88 ∷ [];
  others = (0x65 ∷ 0x48 ∷ []) ∷ [];
}

abbrev plain_picture : Picture
plain_picture = record { configs = []; first = 0x41 ∷ 0x88 ∷ []; others = [] }

key_picture-IsPicture : IsPicture key_picture
unfolding is_slice is_first_slice nal_type first_mb_in_slice cleaned exp_golomb leading_zeros
    read_bits bit
key_picture-IsPicture = record {
  no_slices = (refl, (refl, tt));
  few = omega arith;
  slice = refl;
  first = refl;
  slices = ((refl, refl), tt);
}

plain_picture-IsPicture : IsPicture plain_picture
unfolding is_slice is_first_slice nal_type first_mb_in_slice cleaned exp_golomb leading_zeros
    read_bits bit
plain_picture-IsPicture = record {
  no_slices = tt;
  few = omega arith;
  slice = refl;
  first = refl;
  slices = tt;
}

assemble-stream_of_example :
    assemble new_builder (stream_of (key_picture ∷ plain_picture ∷ []))
    ≡ unit_of key_picture ∷ unit_of plain_picture ∷ []
assemble-stream_of_example =
    assemble-stream_of (key_picture ∷ plain_picture ∷ [])
      (key_picture-IsPicture, (plain_picture-IsPicture, tt))

-- A search for `00 00 03`.
search : List ℕ → Option ℕ
search [] = none
search (a ∷ []) = none
search (a ∷ b ∷ []) = none
search (a ∷ b ∷ c ∷ bs) =
    let later = search (b ∷ c ∷ bs) in
    if a == 0 && b == 0 && c == 3
    then some 0
    else elim later [ none ↦ none | some i ↦ some (i + 1) ]

search-Clean : (bs : List ℕ) → search bs ≡ none → Clean bs
unfolding search
search-Clean [] e = tt
search-Clean (a ∷ []) e = tt
search-Clean (a ∷ b ∷ []) e = tt
search-Clean (a ∷ b ∷ c ∷ bs) e =
    ((λ x y z. absurd (ground (arith, e, x, y, z))), search-Clean (b ∷ c ∷ bs) (ground (arith, e)))

de_emulation_prevention-strip_example :
    de_emulation_prevention search (7 ∷ 0 ∷ 0 ∷ 3 ∷ 1 ∷ []) ≡ strip 0 (7 ∷ 0 ∷ 0 ∷ 3 ∷ 1 ∷ [])
de_emulation_prevention-strip_example =
    de_emulation_prevention-strip search search-Clean (7 ∷ 0 ∷ 0 ∷ 3 ∷ 1 ∷ [])

strip_escaped : strip 0 (7 ∷ 0 ∷ 0 ∷ 3 ∷ 1 ∷ []) ≡ 7 ∷ 0 ∷ 0 ∷ 1 ∷ []
unfolding strip
strip_escaped = refl
