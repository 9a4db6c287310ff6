-- ===== src/Proto/Compact.antt =====
-- crates/stross-proto/src/frame.rs: the 14-byte compact header of a QUIC media stream.
-- The table above `HEADER2_LEN` shows flags before track; the code writes track first, and so does
-- this model.
pub mod Wire
use stross.Base.{ℕ, ◌+◌, ◌%◌, List, [], ◌∷◌, ◌++◌, ltb, if◌then◌else◌, length, slice, replicate}
use stross.Base.Bytes.{to_le, from_le, byte_at, copy_at, u32_mod, IsByte, IsU32}
use stross.Base.Result.{Result, ok, err, ◌>>=◌}
use stross.Proto.Frame.{Frame, FrameError, too_short, check_len}

abbrev pub header2_len : ℕ
header2_len = 14

pub record FrameHeader2 : Type 0 where
  pub track : ℕ
  pub flags : ℕ
  pub pts_ms : ℕ
  pub seq : ℕ
  pub len : ℕ

pub record IsHeader2 (h : FrameHeader2) : Type 0 where
  pub track_u8 : IsByte h.track
  pub flags_u8 : IsByte h.flags
  pub pts_u32 : IsU32 h.pts_ms
  pub seq_u32 : IsU32 h.seq
  pub len_u32 : IsU32 h.len

unfoldable pub encode : FrameHeader2 → List ℕ
encode h =
    let buf = replicate header2_len 0 in
    let buf = copy_at buf 0 (h.track ∷ h.flags ∷ []) in
    let buf = copy_at buf 2 (to_le 4 h.pts_ms) in
    let buf = copy_at buf 6 (to_le 4 h.seq) in copy_at buf 10 (to_le 4 h.len)

abbrev pub header2_fields : List ℕ → FrameHeader2
header2_fields buf = record {
  track = byte_at buf 0;
  flags = byte_at buf 1;
  pts_ms = from_le (slice buf 2 4);
  seq = from_le (slice buf 6 4);
  len = from_le (slice buf 10 4);
}

unfoldable pub decode : List ℕ → Result FrameError FrameHeader2
decode buf =
    if ltb (length buf) header2_len then err (too_short (length buf)) else ok (header2_fields buf)

pub record Frame2 : Type 0 where
  pub header : FrameHeader2
  pub payload : List ℕ

unfoldable pub from_frame : Frame → Frame2
from_frame f = record {
  header = record {
    track = f.header.track;
    flags = f.header.flags;
    pts_ms = f.header.pts_ms;
    seq = f.header.seq;
    len = length f.payload % u32_mod;
  };
  payload = f.payload;
}

unfoldable pub to_bytes : Frame2 → List ℕ
to_bytes f = encode f.header ++ f.payload

unfoldable pub to_bytes_owned : FrameHeader2 → List ℕ → List ℕ
to_bytes_owned header payload = encode header ++ payload

-- The frame that both readers build: the codec is settled by negotiation, and nothing is fragmented.
abbrev pub widen : FrameHeader2 → List ℕ → Frame
widen h payload = record {
  header = record {
    track = h.track;
    codec = 0;
    flags = h.flags;
    pts_ms = h.pts_ms;
    seq = h.seq;
    frag_idx = 0;
    frag_cnt = 0;
    len = h.len;
  };
  payload = payload;
}

unfoldable pub to_frame : List ℕ → Result FrameError Frame
to_frame buf = do h ← decode buf; check_len header2_len h.len buf (widen h)

unfoldable pub to_frame_owned : List ℕ → Result FrameError Frame
to_frame_owned buf = do h ← decode buf; check_len header2_len h.len buf (widen h)
