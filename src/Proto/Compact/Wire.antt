-- ===== src/Proto/Compact/Wire.antt =====
-- The compact form read and written, and what of a frame survives it.
use stross.Base.{
  ℕ, ◌≤◌, ◌≡◌, refl, ap, ◌∙◌, List, ◌++◌, arith, length, length-append, drop, take, Bool-cases, inl,
  inr, ltb, ltb_false→le, All, by_first,
}
use stross.Base.Bytes.{IsByte, IsU32}
use stross.Base.Result.{ok}
use stross.Proto.Frame.{Frame, IsHeader, check_len}
use stross.Proto.Frame.Wire.{check_len_cases}
use stross.Proto.Compact.{
  FrameHeader2, IsHeader2, encode, decode, from_frame, to_bytes, to_bytes_owned, to_frame,
  to_frame_owned, widen, header2_fields,
}

pub decode-encode :
    (h : FrameHeader2) (rest : List ℕ) → IsHeader2 h → decode (encode h ++ rest) ≡ ok h
unfolding decode encode
decode-encode h rest v = ground arith

abbrev Rebuilds : List ℕ → Type 0
Rebuilds buf =
    All IsByte buf → (encode (header2_fields buf) ≡ take 14 buf) × IsHeader2 (header2_fields buf)

encode-fields : (buf : List ℕ) → 14 ≤ length buf → Rebuilds buf
unfolding encode
encode-fields =
    by_first 14 Rebuilds
      λ b0 b1 b2 b3 b4 b5 b6 b7 b8 b9 b10 b11 b12 b13 rest bs. (ground arith, omega arith)

-- Every compact header read from bytes is in range, and it is written back as the same 14 bytes.
pub encode-decode :
    (buf : List ℕ) (h : FrameHeader2)
    → All IsByte buf
    → decode buf ≡ ok h
    → (encode h ≡ take 14 buf) × IsHeader2 h
unfolding decode
encode-decode buf h bs e = elim (Bool-cases (ltb (length buf) 14)) [
  | inl short ↦ ground arith
  | inr long ↦
      let fields : h ≡ header2_fields buf = ground arith in
      rw fields (encode-fields buf (ltb_false→le _ _ long) bs)
]

-- The frame without what the compact form drops: codec and fragment fields.
abbrev pub stripped : Frame → Frame
stripped f = record f {
  header = record (f.header) { codec = 0; frag_idx = 0; frag_cnt = 0; len = length f.payload };
}

drop-encode : (h : FrameHeader2) (payload : List ℕ) → drop 14 (encode h ++ payload) ≡ payload
unfolding encode
drop-encode h payload = refl

length-encode : (h : FrameHeader2) → length (encode h) ≡ 14
unfolding encode
length-encode h = refl

-- A header in front of a payload of its length reads back.
to_frame_whole :
    (h : FrameHeader2) (payload : List ℕ)
    → IsHeader2 h
    → h.len ≡ length payload
    → (to_frame (encode h ++ payload) ≡ ok (widen h payload))
      × (to_frame_owned (encode h ++ payload) ≡ ok (widen h payload))
unfolding to_frame to_frame_owned
to_frame_whole h payload v e = rw (decode-encode h payload v) (read, read)
  where
    buf : List ℕ
    buf = encode h ++ payload

    read : check_len 14 h.len buf (widen h) ≡ ok (widen h payload)
    read =
        (check_len_cases 14 h.len buf (widen h)).2
          (omega (arith, length-append (encode h) payload, length-encode h, e))
        ∙ ap (λ p. ok (widen h p)) (drop-encode h payload)

from_frame-IsHeader2 : (f : Frame) → IsHeader f.header → IsHeader2 ((from_frame f).header)
unfolding from_frame
from_frame-IsHeader2 f v = omega arith

-- A frame sent in compact form arrives, by either reader and either writer, as the frame it was but
-- for its codec and its fragment fields, which arrive as 0; `len` arrives as the payload's length.
-- The header is in range and the payload is below 4 GiB.
pub to_frame-from_frame :
    (f : Frame)
    → IsHeader f.header
    → IsU32 (length f.payload)
    → (to_frame (to_bytes (from_frame f)) ≡ ok (stripped f))
      × (to_frame_owned (to_bytes_owned ((from_frame f).header) f.payload) ≡ ok (stripped f))
unfolding to_bytes to_bytes_owned from_frame
to_frame-from_frame f v small =
    rw same at (to_frame_whole h f.payload (from_frame-IsHeader2 f v) full)
  where
    h : FrameHeader2
    h = (from_frame f).header

    full : h.len ≡ length f.payload
    full = omega (arith, small)

    same : widen h f.payload ≡ stripped f
    same = ground arith
