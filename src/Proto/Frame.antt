-- ===== src/Proto/Frame.antt =====
-- crates/stross-proto/src/frame.rs: the 24-byte frame header and the frame.
-- A byte buffer is a list of numbers below 256; a `u8` or `u32` field is a number with its range
-- stated where a theorem needs it. `usize` is taken wide enough for `HEADER_LEN + len`.
pub mod Header
pub mod Wire
use stross.Base.{
  ℕ, ◌+◌, ◌-◌, ◌%◌, ◌≡◌, Bool, not, List, [], ◌∷◌, ◌++◌, bit_and, ltb, ◌==◌, if◌then◌else◌, length,
  slice, replicate, ◌&&◌, true, false, ◌<◌,
}
use stross.Base.Bytes.{to_le, from_le, byte_at, copy_at, u32_mod, IsByte, IsU32}
use stross.Base.Result.{Result, ok, err, ◌>>=◌}

-- "STR2"
abbrev pub magic_bytes : List ℕ
magic_bytes = 0x53 ∷ 0x54 ∷ 0x52 ∷ 0x32 ∷ []

abbrev pub frame_version : ℕ
frame_version = 2

abbrev pub header_len : ℕ
header_len = 24

abbrev pub track_video : ℕ
track_video = 0

abbrev pub track_audio : ℕ
track_audio = 1

abbrev pub track_file : ℕ
track_file = 2

abbrev pub track_channel : ℕ
track_channel = 3

abbrev pub codec_channel : ℕ
codec_channel = 4

abbrev pub flag_keyframe : ℕ
flag_keyframe = 0x01

abbrev pub flag_config : ℕ
flag_config = 0x02

abbrev pub flag_start : ℕ
flag_start = 0x04

abbrev pub flag_end : ℕ
flag_end = 0x08

pub data FrameError : Type 0 where
  too_short : ℕ → FrameError
  bad_magic : List ℕ → FrameError
  bad_version : ℕ → FrameError
  len_mismatch : ℕ → ℕ → FrameError

pub record FrameHeader : Type 0 where
  pub track : ℕ
  pub codec : ℕ
  pub flags : ℕ
  pub pts_ms : ℕ
  pub seq : ℕ
  pub frag_idx : ℕ
  pub frag_cnt : ℕ
  pub len : ℕ

-- The fields are in the range of their machine types.
pub record IsHeader (h : FrameHeader) : Type 0 where
  pub track_u8 : IsByte h.track
  pub codec_u8 : IsByte h.codec
  pub flags_u8 : IsByte h.flags
  pub pts_u32 : IsU32 h.pts_ms
  pub seq_u32 : IsU32 h.seq
  pub idx_u8 : IsByte h.frag_idx
  pub cnt_u8 : IsByte h.frag_cnt
  pub len_u32 : IsU32 h.len

unfoldable pub bytes_eq : List ℕ → List ℕ → Bool
bytes_eq [] [] = true
bytes_eq (a ∷ as') (b ∷ bs) = (a == b) && bytes_eq as' bs
bytes_eq _ _ = false

unfoldable pub encode : FrameHeader → List ℕ
encode h =
    let buf = replicate header_len 0 in
    let buf = copy_at buf 0 magic_bytes in
    let buf = copy_at buf 4 (frame_version ∷ h.track ∷ h.codec ∷ h.flags ∷ []) in
    let buf = copy_at buf 8 (to_le 4 h.pts_ms) in
    let buf = copy_at buf 12 (to_le 4 h.seq) in
    let buf = copy_at buf 16 (h.frag_idx ∷ h.frag_cnt ∷ []) in copy_at buf 18 (to_le 4 h.len)

-- The fields that `decode` reads once its three tests have passed.
abbrev pub header_fields : List ℕ → FrameHeader
header_fields buf = record {
  track = byte_at buf 5;
  codec = byte_at buf 6;
  flags = byte_at buf 7;
  pts_ms = from_le (slice buf 8 4);
  seq = from_le (slice buf 12 4);
  frag_idx = byte_at buf 16;
  frag_cnt = byte_at buf 17;
  len = from_le (slice buf 18 4);
}

unfoldable pub decode : List ℕ → Result FrameError FrameHeader
unfolding bytes_eq
decode buf =
    if ltb (length buf) header_len
    then err (too_short (length buf))
    else if not (bytes_eq (slice buf 0 4) magic_bytes)
    then err (bad_magic (slice buf 0 4))
    else if not (byte_at buf 4 == frame_version)
    then err (bad_version (byte_at buf 4))
    else ok (header_fields buf)

unfoldable pub is_keyframe : FrameHeader → Bool
is_keyframe h = not (bit_and h.flags flag_keyframe == 0)

unfoldable pub is_config : FrameHeader → Bool
is_config h = not (bit_and h.flags flag_config == 0)

unfoldable pub is_start : FrameHeader → Bool
is_start h = not (bit_and h.flags flag_start == 0)

unfoldable pub is_end : FrameHeader → Bool
is_end h = not (bit_and h.flags flag_end == 0)

unfoldable pub is_whole : FrameHeader → Bool
is_whole h = h.frag_cnt == 0

pub record Frame : Type 0 where
  pub header : FrameHeader
  pub payload : List ℕ

unfoldable pub new : ℕ → ℕ → ℕ → ℕ → List ℕ → Frame
new track codec flags pts_ms payload = record {
  header = record {
    track = track;
    codec = codec;
    flags = flags;
    pts_ms = pts_ms;
    seq = 0;
    frag_idx = 0;
    frag_cnt = 0;
    len = length payload % u32_mod;
  };
  payload = payload;
}

unfoldable pub with_seq : ℕ → ℕ → ℕ → ℕ → ℕ → List ℕ → Frame
with_seq track codec flags pts_ms seq payload = record {
  header = record {
    track = track;
    codec = codec;
    flags = flags;
    pts_ms = pts_ms;
    seq = seq;
    frag_idx = 0;
    frag_cnt = 0;
    len = length payload % u32_mod;
  };
  payload = payload;
}

unfoldable pub to_bytes : Frame → List ℕ
to_bytes f = encode f.header ++ f.payload

abbrev pub with_payload : FrameHeader → List ℕ → Frame
with_payload h payload = record { header = h; payload = payload }

-- The tests of `from_bytes` behind a decoded header.
abbrev pub check_len {ℓ} : {A : Type ℓ} → ℕ → ℕ → List ℕ → (List ℕ → A) → Result FrameError A
check_len head len buf build =
    let total = head + len in
    if ltb (length buf) total
    then err (too_short (length buf))
    else if not (length buf == total)
    then err (len_mismatch len (length buf - head))
    else ok (build (slice buf head (total - head)))

unfoldable pub from_bytes : List ℕ → Result FrameError Frame
from_bytes buf = do h ← decode buf; check_len header_len h.len buf (with_payload h)

-- The copy-free variant; `Bytes::slice` is the same slice as `copy_from_slice`.
unfoldable pub from_bytes_owned : List ℕ → Result FrameError Frame
from_bytes_owned buf = do h ← decode buf; check_len header_len h.len buf (with_payload h)
