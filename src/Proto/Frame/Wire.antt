-- ===== src/Proto/Frame/Wire.antt =====
-- Whole frames read and written: the round trip, and what happens to a cut or a padded message.
use stross.Base.{
  ℕ, suc, ◌+◌, ◌-◌, ◌<◌, ◌≤◌, ◌≡◌, refl, sym, ap, ap₂, ◌∙◌, List, [], ◌∷◌, ◌++◌, append_assoc,
  arith, length, length-append, length-drop, take, drop, slice, take_all, Bool-cases, inl, inr, ltb,
  ltb→lt, ltb_false→le, All,
}
use stross.Base.Bytes.{IsByte, IsU32}
use stross.Base.Result.{ok, err, Result-cases}
use stross.Proto.Frame.{
  Frame, IsHeader, encode, decode, to_bytes, from_bytes, from_bytes_owned, check_len, too_short,
  len_mismatch, with_payload, new, with_seq,
}
use stross.Proto.Frame.Header.{
  decode-encode, length-encode, decode-append, decode_short, encode-decode,
}

-- The header is in range and its `len` is the length of the payload.
pub record IsFrame (f : Frame) : Type 0 where
  pub header : IsHeader f.header
  pub len : f.header.len ≡ length f.payload

length-to_bytes : (f : Frame) → length (to_bytes f) ≡ 24 + length f.payload
unfolding to_bytes
length-to_bytes f =
    length-append (encode f.header) f.payload ∙ omega (arith, length-encode f.header)

decode-to_bytes :
    (f : Frame) (rest : List ℕ) → IsHeader f.header → decode (to_bytes f ++ rest) ≡ ok f.header
unfolding to_bytes
decode-to_bytes f rest v =
    rw (append_assoc (encode f.header) f.payload rest) (decode-encode f.header _ v)

decode_whole : (f : Frame) → IsHeader f.header → decode (to_bytes f) ≡ ok f.header
unfolding to_bytes
decode_whole f v = decode-encode f.header f.payload v

drop_whole : (f : Frame) → drop 24 (to_bytes f) ≡ f.payload
unfolding to_bytes encode
drop_whole f = refl

-- `take` on all that is behind the header.
payload_slice :
    (head len : ℕ) (buf : List ℕ)
    → length buf ≡ head + len
    → slice buf head (head + len - head) ≡ drop head buf
payload_slice head len buf e =
    take_all (head + len - head) (drop head buf) (omega (arith, length-drop head buf))

-- The three outcomes of `check_len`, by the length of the message.
pub check_len_cases {ℓ} :
    {A : Type ℓ} (head len : ℕ) (buf : List ℕ) (build : List ℕ → A)
    → (length buf < head + len → check_len head len buf build ≡ err (too_short (length buf)))
      × (head + len < length buf
          → check_len head len buf build ≡ err (len_mismatch len (length buf - head)))
      × (length buf ≡ head + len → check_len head len buf build ≡ ok (build (drop head buf)))
check_len_cases head len buf build =
    (λ h. ground arith, λ h. ground arith, λ h. ground (arith, payload_slice head len buf h))

module _ (f : Frame) (v : IsFrame f) where
  -- A well-formed frame read back from its own bytes, by either reader, is the frame.
  pub from_bytes-to_bytes :
      (from_bytes (to_bytes f) ≡ ok f) × (from_bytes_owned (to_bytes f) ≡ ok f)
  unfolding from_bytes from_bytes_owned
  from_bytes-to_bytes = rw (decode_whole f v.header) (read, read)
    where
      read : check_len 24 f.header.len (to_bytes f) (with_payload f.header) ≡ ok f
      read =
          (check_len_cases 24 f.header.len (to_bytes f) (with_payload f.header)).2
            (omega (arith, length-to_bytes f, v.len))
          ∙ ap (λ p. ok (with_payload f.header p)) (drop_whole f)

  -- A message cut anywhere before its end is refused as too short, with its length.
  pub from_bytes_cut :
      (front back : List ℕ) (x : ℕ)
      → to_bytes f ≡ front ++ x ∷ back
      → from_bytes front ≡ err (too_short (length front))
  unfolding from_bytes
  from_bytes_cut front back x e = elim (Bool-cases (ltb (length front) 24)) [
    | inl short ↦ rw (decode_short front (ltb→lt _ _ short))
    | inr long ↦ rw (cut_header (ltb_false→le _ _ long)) (
        (check_len_cases 24 f.header.len front (with_payload f.header)).0
          (omega (arith, ap length e, length-append front (x ∷ back), length-to_bytes f, v.len)))
  ]
    where
      cut_header : 24 ≤ length front → decode front ≡ ok f.header
      cut_header long =
          sym (decode-append front (x ∷ back) long) ∙ rw (← e) (decode_whole f v.header)

  -- Bytes behind the payload are refused, with the declared and the actual length.
  pub from_bytes_padded :
      (more : List ℕ) (x : ℕ)
      → from_bytes (to_bytes f ++ x ∷ more)
        ≡ err (len_mismatch f.header.len (f.header.len + suc (length more)))
  unfolding from_bytes
  from_bytes_padded more x = rw (decode-to_bytes f (x ∷ more) v.header) (
      (check_len_cases 24 f.header.len buf (with_payload f.header)).1 (omega (arith, longer, v.len))
      ∙ ap (λ n. err (len_mismatch f.header.len n)) (omega (arith, longer, v.len)))
    where
      buf : List ℕ
      buf = to_bytes f ++ x ∷ more

      longer : length buf ≡ 24 + length f.payload + suc (length more)
      longer = omega (arith, length-append (to_bytes f) (x ∷ more), length-to_bytes f)

-- A frame built by `new` or `with_seq` from fields in range and a payload below 4 GiB is well formed.
pub with_seq-IsFrame :
    (track codec flags pts_ms seq : ℕ) (payload : List ℕ)
    → IsByte track
    → IsByte codec
    → IsByte flags
    → IsU32 pts_ms
    → IsU32 seq
    → IsU32 (length payload)
    → IsFrame (with_seq track codec flags pts_ms seq payload)
      × IsFrame (new track codec flags pts_ms payload)
unfolding with_seq new
with_seq-IsFrame track codec flags pts_ms seq payload a b c d e g = (
  record { header = omega arith; len = omega arith },
  record { header = omega arith; len = omega arith },
)

-- What `from_bytes` accepts.
record Received (buf : List ℕ) (f : Frame) : Type 0 where
  header : decode buf ≡ ok f.header
  total : length buf ≡ 24 + f.header.len
  payload : f.payload ≡ drop 24 buf

from_bytes-Received : (buf : List ℕ) (f : Frame) → from_bytes buf ≡ ok f → Received buf f
unfolding from_bytes
from_bytes-Received buf f e = elim (Result-cases (decode buf)) [
  | inl (h, d) ↦ ground (arith, d, payload_slice 24 h.len buf)
  | inr (x, d) ↦ ground (arith, d)
]

-- A frame accepted from a buffer of bytes is well formed, its payload is all that follows the header,
-- and writing it gives the buffer back with the two reserved bytes set to zero.
pub to_bytes-from_bytes :
    (buf : List ℕ) (f : Frame)
    → All IsByte buf
    → from_bytes buf ≡ ok f
    → IsFrame f × (to_bytes f ≡ (take 22 buf ++ 0 ∷ 0 ∷ []) ++ drop 24 buf)
unfolding to_bytes
to_bytes-from_bytes buf f bs e =
    let r = from_bytes-Received buf f e in
    let (same, valid) = encode-decode buf f.header bs r.header in
    (
      record {
        header = valid;
        len = omega (arith, ap length r.payload, r.total, length-drop 24 buf);
      },
      ap₂ ◌++◌ same r.payload,
    )
