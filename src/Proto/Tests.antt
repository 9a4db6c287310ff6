-- ===== src/Proto/Tests.antt =====
-- The wire formats on concrete bytes, and their theorems at concrete inputs.
use stross.Base.{ℕ, ◌≡◌, refl, List, [], ◌∷◌, arith, take, drop, some, true, false}
use stross.Base.Result.{ok, err}
use stross.Proto.Frame
use stross.Proto.Frame.{
  Frame, FrameHeader, IsHeader, too_short, len_mismatch, bad_magic, is_keyframe, is_config,
}
use stross.Proto.Frame.Wire.{IsFrame, from_bytes-to_bytes}
use stross.Proto.Compact
use stross.Proto.Compact.Wire.{stripped, to_frame-from_frame}
use stross.Proto.Chunk
use stross.Proto.Chunk.{ChannelChunkHeader}

abbrev key_header : FrameHeader
key_header = record {
  track = 0;
  codec = 1;
  flags = 5;
  pts_ms = 1234;
  seq = 42;
  frag_idx = 1;
  frag_cnt = 3;
  len = 3;
}

abbrev key_frame : Frame
key_frame = record { header = key_header; payload = 9 ∷ 8 ∷ 7 ∷ [] }

key_header-IsHeader : IsHeader key_header
key_header-IsHeader = omega arith

key_frame-IsFrame : IsFrame key_frame
key_frame-IsFrame = record { header = omega arith; len = refl }

key_frame_bytes :
    Frame.to_bytes key_frame
    ≡ 83 ∷ 84 ∷ 82 ∷ 50 ∷ 2 ∷ 0 ∷ 1 ∷ 5 ∷ 210 ∷ 4 ∷ 0 ∷ 0 ∷ 42 ∷ 0 ∷ 0 ∷ 0 ∷ 1 ∷ 3 ∷ 3 ∷ 0 ∷ 0 ∷ 0
      ∷ 0 ∷ 0 ∷ 9 ∷ 8 ∷ 7 ∷ []
unfolding Frame.to_bytes Frame.encode
key_frame_bytes = refl

-- One flipped bit of the magic number.
bad_first_byte :
    Frame.from_bytes (82 ∷ drop 1 (Frame.to_bytes key_frame))
    ≡ err (bad_magic (82 ∷ 84 ∷ 82 ∷ 50 ∷ []))
unfolding Frame.to_bytes Frame.encode Frame.from_bytes Frame.decode
bad_first_byte = refl

key_flags : (is_keyframe key_header ≡ true) × (is_config key_header ≡ false)
unfolding is_keyframe is_config
key_flags = (refl, refl)

-- A header with other reserved bytes.
abbrev reserved_bytes : List ℕ
reserved_bytes =
    83 ∷ 84 ∷ 82 ∷ 50 ∷ 2 ∷ 0 ∷ 1 ∷ 5 ∷ 210 ∷ 4 ∷ 0 ∷ 0 ∷ 42 ∷ 0 ∷ 0 ∷ 0 ∷ 1 ∷ 3 ∷ 3 ∷ 0 ∷ 0 ∷ 0 ∷ 7
    ∷ 7 ∷ 9 ∷ 8 ∷ 7 ∷ []

reserved_decode : Frame.decode reserved_bytes ≡ ok key_header
unfolding Frame.decode
reserved_decode = refl

reserved_from_bytes : Frame.from_bytes reserved_bytes ≡ ok key_frame
unfolding Frame.from_bytes Frame.decode
reserved_from_bytes = refl

from_bytes-to_bytes_example :
    (Frame.from_bytes (Frame.to_bytes key_frame) ≡ ok key_frame)
    × (Frame.from_bytes_owned (Frame.to_bytes key_frame) ≡ ok key_frame)
from_bytes-to_bytes_example = from_bytes-to_bytes key_frame key_frame-IsFrame

to_frame-from_frame_example :
    (Compact.to_frame (Compact.to_bytes (Compact.from_frame key_frame)) ≡ ok (stripped key_frame))
    × (Compact.to_frame_owned
          (Compact.to_bytes_owned ((Compact.from_frame key_frame).header) (9 ∷ 8 ∷ 7 ∷ []))
        ≡ ok (stripped key_frame))
to_frame-from_frame_example = to_frame-from_frame key_frame key_header-IsHeader (omega arith)

-- Track stands before flags on the wire.
compact_order :
    take 2 (Compact.encode (record { track = 3; flags = 8; pts_ms = 0; seq = 0; len = 0 }))
    ≡ 3 ∷ 8 ∷ []
unfolding Compact.encode
compact_order = refl

abbrev last_chunk : ChannelChunkHeader
last_chunk = record { transfer_id = 42; offset = 5242880; chunk_len = 65536; flags = 1 }

last_chunk-is_eof : Chunk.is_eof last_chunk ≡ true
unfolding Chunk.is_eof
last_chunk-is_eof = refl

-- The header of `last_chunk`, with its reserved bytes in use.
abbrev chunk_bytes : List ℕ
chunk_bytes = 42 ∷ 0 ∷ 0 ∷ 0 ∷ 0 ∷ 0 ∷ 80 ∷ 0 ∷ 0 ∷ 0 ∷ 0 ∷ 0 ∷ 0 ∷ 0 ∷ 1 ∷ 0 ∷ 1 ∷ 7 ∷ 7 ∷ 7 ∷ []

chunk_bytes-decode : Chunk.decode chunk_bytes ≡ some last_chunk
unfolding Chunk.decode
chunk_bytes-decode = refl
