-- ===== src/Channel/Session/Tests.antt =====
-- A channel session on concrete messages, and its theorems at concrete inputs.
use stross.Base.{ℕ, ◌≡◌, refl, true, false, List, [], ◌∷◌, none, arith}
use stross.Proto.Message.{ChannelMsg}
use stross.Proto.Chunk.{ChannelChunkHeader}
use stross.Channel.Session.{
  ChannelSession, chunk_frame, InboundTransfer, Io, receive, push_frames, take_block, all_written,
  removes,
}
use stross.Channel.Session.Transfer.{Delivers, receive-push_frames}
use stross.Channel.Session.Bounds.{Bounded, steps, steps-Bounded, Input, take_block_over}

abbrev io : Io
io = record {
  secs = 7;
  created = true;
  written = none;
  final = 97 ∷ [];
  renamed = true;
  sent = true;
}

abbrev arriving : InboundTransfer
arriving = record {
  name = 97 ∷ [];
  size = 3;
  transferred = 0;
  tmp_path = record { id = 5; secs = 7 };
  file = [];
}

abbrev session : ChannelSession
session = record {
  auto_accept = true;
  next_msg_id = 1;
  next_transfer_id = 6;
  inbounds = (5, arriving) ∷ [];
  outbounds = (5, record { decision_tx = true; ack_tx = true }) ∷ [];
  closed = false;
}

abbrev blocks : List (List ℕ)
blocks = (1 ∷ 2 ∷ []) ∷ (3 ∷ []) ∷ []

receive-push_frames_example :
    Delivers 5
      (97 ∷ [])
      (arriving.tmp_path)
      3
      (1 ∷ 2 ∷ 3 ∷ [])
      io
      (receive session (push_frames (λ k. false) 5 3 0 blocks) io)
unfolding all_written
receive-push_frames_example =
    receive-push_frames (λ k. false) blocks session 5 0 3 arriving io (λ k. refl) (omega arith)
      (omega arith) refl (omega arith)
      (record { entry = refl; got = refl; bytes = refl; announced = refl })
      (record { writes = refl; renames_ok = refl })

abbrev inputs : List Input
inputs =
    Input.media (chunk_frame 5 0 (1 ∷ 2 ∷ []) 0) io
    ∷ Input.control (ChannelMsg.file_offer 8 [] 1 none none) io
    ∷ Input.cancel 5
    ∷ Input.end
    ∷ []

steps-Bounded_example : Bounded (steps session inputs)
steps-Bounded_example = steps-Bounded inputs session (omega arith)

-- One byte more than the size and the slack.
abbrev brimming : InboundTransfer
brimming = record arriving { transferred = 1048579 }

abbrev header : ChannelChunkHeader
header = record { transfer_id = 6; offset = 0; chunk_len = 1; flags = 0 }

take_block_over_example :
    (take_block session header (9 ∷ []) brimming io).0 ≡ removes (arriving.tmp_path) ∷ []
take_block_over_example = take_block_over session header (9 ∷ []) brimming io (omega arith)
