-- ===== src/Proto/Frame/Header.antt =====
-- The frame header read and written.
use stross.Base.{
  ℕ, ◌≤◌, ◌<◌, ◌≡◌, refl, List, [], ◌∷◌, ◌++◌, arith, length, take, slice, All, length-append,
  by_first, true,
}
use stross.Base.Bytes.{IsByte, byte_at}
use stross.Base.Result.{ok, err}
use stross.Proto.Frame.{
  FrameHeader, IsHeader, encode, decode, header_fields, bytes_eq, magic_bytes, frame_version,
  too_short,
}

-- Decoding an encoded header gives the header back, whatever follows its 24 bytes.
pub decode-encode :
    (h : FrameHeader) (rest : List ℕ) → IsHeader h → decode (encode h ++ rest) ≡ ok h
unfolding decode encode
decode-encode h rest v = ground arith

pub length-encode : (h : FrameHeader) → length (encode h) ≡ 24
unfolding encode
length-encode h = refl

bytes_eq→eq : (xs ys : List ℕ) → bytes_eq xs ys ≡ true → xs ≡ ys
unfolding bytes_eq
bytes_eq→eq [] [] e = refl
bytes_eq→eq [] (y ∷ ys) e = cc
bytes_eq→eq (x ∷ xs) [] e = cc
bytes_eq→eq (x ∷ xs) (y ∷ ys) e = ground (arith, bytes_eq→eq xs ys)

-- What the three tests of `decode` let through.
pub record Accepts (buf : List ℕ) (h : FrameHeader) : Type 0 where
  pub long : 24 ≤ length buf
  pub magic : slice buf 0 4 ≡ magic_bytes
  pub version : byte_at buf 4 ≡ frame_version
  pub fields : h ≡ header_fields buf

pub decode-Accepts : (buf : List ℕ) (h : FrameHeader) → decode buf ≡ ok h → Accepts buf h
unfolding decode
decode-Accepts buf h e = ground (arith, bytes_eq→eq (slice buf 0 4) magic_bytes)

-- What the fields of an accepted buffer of at least 24 bytes say of its first 22 bytes.
abbrev Rebuilds : List ℕ → Type 0
Rebuilds buf =
    slice buf 0 4 ≡ magic_bytes
    → byte_at buf 4 ≡ frame_version
    → All IsByte buf
    → (encode (header_fields buf) ≡ take 22 buf ++ 0 ∷ 0 ∷ []) × IsHeader (header_fields buf)

encode-fields : (buf : List ℕ) → 24 ≤ length buf → Rebuilds buf
unfolding encode
encode-fields =
    by_first 24 Rebuilds
      λ b0 b1 b2 b3 b4 b5 b6 b7 b8 b9 b10 b11 b12 b13 b14 b15 b16 b17 b18 b19 b20 b21 b22 b23 rest.
        λ m v bs. (ground arith, omega arith)

-- A header decoded from a buffer of bytes is in range, and encoding it gives the first 22 bytes of
-- the buffer back, then two zeros: the two reserved bytes are all that a decode forgets.
pub encode-decode :
    (buf : List ℕ) (h : FrameHeader)
    → All IsByte buf
    → decode buf ≡ ok h
    → (encode h ≡ take 22 buf ++ 0 ∷ 0 ∷ []) × IsHeader h
encode-decode buf h bs e =
    let a = decode-Accepts buf h e in rw (a.fields) (encode-fields buf a.long a.magic a.version bs)

abbrev IgnoresMore : List ℕ → List ℕ → Type 0
IgnoresMore more buf = decode (buf ++ more) ≡ decode buf

-- `decode` looks at the first 24 bytes only.
pub decode-append : (buf more : List ℕ) → 24 ≤ length buf → decode (buf ++ more) ≡ decode buf
unfolding decode
decode-append buf more =
    by_first 24 (IgnoresMore more)
      (λ b0 b1 b2 b3 b4 b5 b6 b7 b8 b9 b10 b11 b12 b13 b14 b15 b16 b17 b18 b19 b20 b21 b22 b23 rest.
        ground (arith, length-append rest more))
      buf

pub decode_short : (buf : List ℕ) → length buf < 24 → decode buf ≡ err (too_short (length buf))
unfolding decode
decode_short buf h = ground arith
