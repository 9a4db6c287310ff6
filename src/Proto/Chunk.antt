-- ===== src/Proto/Chunk.antt =====
-- crates/stross-proto/src/message/channel.rs: the 20-byte header of a file chunk on a peer channel.
use stross.Base.{
  ℕ, ◌≤◌, ◌≡◌, refl, List, [], ◌∷◌, ◌++◌, arith, Bool, not, ltb, ◌==◌, bit_and, if◌then◌else◌,
  Option, none, some, length, slice, replicate, take, All, by_first, Bool-cases, inl, inr,
  ltb_false→le,
}
use stross.Base.Bytes.{to_le, from_le, byte_at, copy_at, IsByte, IsU32, IsU64}

abbrev pub channel_chunk_header_len : ℕ
channel_chunk_header_len = 20

abbrev pub flag_eof : ℕ
flag_eof = 0x01

pub record ChannelChunkHeader : Type 0 where
  pub transfer_id : ℕ
  pub offset : ℕ
  pub chunk_len : ℕ
  pub flags : ℕ

pub record IsChunkHeader (h : ChannelChunkHeader) : Type 0 where
  pub id_u32 : IsU32 h.transfer_id
  pub offset_u64 : IsU64 h.offset
  pub len_u32 : IsU32 h.chunk_len
  pub flags_u8 : IsByte h.flags

unfoldable pub encode : ChannelChunkHeader → List ℕ
encode h =
    let buf = replicate channel_chunk_header_len 0 in
    let buf = copy_at buf 0 (to_le 4 h.transfer_id) in
    let buf = copy_at buf 4 (to_le 8 h.offset) in
    let buf = copy_at buf 12 (to_le 4 h.chunk_len) in copy_at buf 16 (h.flags ∷ [])

abbrev pub chunk_fields : List ℕ → ChannelChunkHeader
chunk_fields buf = record {
  transfer_id = from_le (slice buf 0 4);
  offset = from_le (slice buf 4 8);
  chunk_len = from_le (slice buf 12 4);
  flags = byte_at buf 16;
}

unfoldable pub decode : List ℕ → Option ChannelChunkHeader
decode buf = if ltb (length buf) channel_chunk_header_len then none else some (chunk_fields buf)

unfoldable pub is_eof : ChannelChunkHeader → Bool
is_eof h = not (bit_and h.flags flag_eof == 0)

-- A chunk header in range reads back from its 20 bytes, whatever follows them.
pub decode-encode_chunk :
    (h : ChannelChunkHeader) (rest : List ℕ) → IsChunkHeader h → decode (encode h ++ rest) ≡ some h
unfolding decode encode
decode-encode_chunk h rest v = ground arith

pub length-encode : (h : ChannelChunkHeader) → length (encode h) ≡ 20
unfolding encode
length-encode h = refl

abbrev Rebuilds : List ℕ → Type 0
Rebuilds buf =
    All IsByte buf
    → (encode (chunk_fields buf) ≡ take 17 buf ++ 0 ∷ 0 ∷ 0 ∷ []) × IsChunkHeader (chunk_fields buf)

encode-fields : (buf : List ℕ) → 20 ≤ length buf → Rebuilds buf
unfolding encode
encode-fields =
    by_first 20 Rebuilds
      λ b0 b1 b2 b3 b4 b5 b6 b7 b8 b9 b10 b11 b12 b13 b14 b15 b16 b17 b18 b19 rest bs.
        (ground arith, omega arith)

-- A chunk header read from bytes is in range, and writing it gives back the first 17 bytes with the
-- three reserved ones set to zero.
pub encode-decode_chunk :
    (buf : List ℕ) (h : ChannelChunkHeader)
    → All IsByte buf
    → decode buf ≡ some h
    → (encode h ≡ take 17 buf ++ 0 ∷ 0 ∷ 0 ∷ []) × IsChunkHeader h
unfolding decode
encode-decode_chunk buf h bs e = elim (Bool-cases (ltb (length buf) 20)) [
  | inl short ↦ ground arith
  | inr long ↦
      let fields : h ≡ chunk_fields buf = ground arith in
      rw fields (encode-fields buf (ltb_false→le _ _ long) bs)
]
