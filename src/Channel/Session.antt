-- ===== src/Channel/Session.antt =====
-- crates/stross-kernel/src/channel/session.rs: one channel, its inbound and its outbound transfers.
-- A handler returns the session and what it has done outside of it, in order. The file of an inbound
-- transfer is the bytes written to it so far.
mod Types
pub mod Blocks
pub mod Transfer
pub mod Bounds
pub mod Control
mod Tests
pub use Types.*
use stross.Base.{
  ℕ, zero, suc, ◌+◌, ◌%◌, ◌^◌, ◌<◌, List, [], ◌∷◌, ◌++◌, map, Option, none, some, ltb, leb, ◌==◌,
  if◌then◌else◌, length, slice, take, min, Bool, true, false, ◌||◌, ◌&&◌, not, ◌-◌,
}
use stross.Base.Result.{Result, ok, err}
use stross.Base.Assoc.{lookup, remove, insert}
use stross.Proto.Message.{ChannelMsg, Text}
use stross.Proto.Frame.{Frame, new, track_channel, codec_channel}
use stross.Proto.Chunk.{
  ChannelChunkHeader, encode, decode, is_eof, channel_chunk_header_len, flag_eof,
}
use stross.Channel.FileName.{sanitize_file_name}

abbrev pub file_chunk_size : ℕ
file_chunk_size = 65536

abbrev pub overflow_slack : ℕ
overflow_slack = 1048576

unfoldable pub new_session : Bool → ChannelSession
new_session auto_accept = record {
  auto_accept = auto_accept;
  next_msg_id = 1;
  next_transfer_id = 1;
  inbounds = [];
  outbounds = [];
  closed = false;
}

pub data SendError : Type 0 where
  channel_closed : SendError
  send_failed : SendError

pub send_text : ChannelSession → Text → Io → Result SendError ℕ × List Effect × ChannelSession
send_text s body io =
    let msg_id = s.next_msg_id in
    let s' = record s { next_msg_id = (msg_id + 1) % 2 ^ 64 } in
    let sent = Effect.sends (ChannelMsg.text msg_id body io.secs) in
    if s.closed
    then (err channel_closed, [], s)
    else if io.sent
    then (ok msg_id, sent ∷ Effect.emits (message msg_id body io.secs true) ∷ [], s')
    else (err send_failed, sent ∷ [], s')

-- The part of `send_file` before the background task, for a regular file.
pub send_file : ChannelSession → Text → ℕ → Io → Result SendError ℕ × List Effect × ChannelSession
send_file s name size io =
    let id = s.next_transfer_id in
    let s' = record s {
      next_transfer_id = (id + 1) % 2 ^ 32;
      outbounds = insert id (record { decision_tx = true; ack_tx = true }) s.outbounds;
    } in
    let offer = Effect.sends (ChannelMsg.file_offer id name size none none) in
    if s.closed
    then (err channel_closed, [], s)
    else if io.sent
    then (ok id, offer ∷ Effect.emits (offered id name size) ∷ [], s')
    else (err send_failed, offer ∷ [], s')

-- The frame of one block of the background task.
unfoldable pub chunk_frame : ℕ → ℕ → List ℕ → ℕ → Frame
chunk_frame id offset block flags =
    let header : ChannelChunkHeader = record {
      transfer_id = id;
      offset = offset;
      chunk_len = length block % 2 ^ 32;
      flags = flags;
    } in
    new track_channel codec_channel flags id (encode header ++ block)

-- The loop of the background task, whose reads and sends succeed. `reads` is what the reads of the file
-- give, and a read past them gives nothing; `stopped` is the flag `cancelled` as each round finds it, by the number
-- of the round.
unfoldable pub push_frames : (ℕ → Bool) → ℕ → ℕ → ℕ → List (List ℕ) → List Frame
push_frames stopped id size offset [] =
    if stopped 0 then [] else chunk_frame id offset [] flag_eof ∷ []
push_frames stopped id size offset (block ∷ reads) =
    let n = length block in
    let more = push_frames (λ k. stopped (suc k)) id size (offset + n) reads in
    if stopped 0
    then []
    else if (n == 0) || leb size (offset + n) || (size == 0)
    then chunk_frame id offset block flag_eof ∷ []
    else chunk_frame id offset block 0 ∷ more

unfoldable pub drop_outbound : ℕ → List (ℕ × OutboundTransfer) → List Effect
drop_outbound id outbounds = elim (lookup id outbounds) [ none ↦ [] | some t ↦ cancels id ∷ [] ]

unfoldable pub drop_inbound : ℕ → List (ℕ × InboundTransfer) → List Effect
drop_inbound id inbounds = elim (lookup id inbounds) [
  | none ↦ []
  | some t ↦ removes (t.tmp_path) ∷ []
]

unfoldable pub without : ℕ → ChannelSession → ChannelSession
without id s = record s { inbounds = remove id s.inbounds; outbounds = remove id s.outbounds }

-- 用户主动取消
abbrev pub user_cancelled : Text
user_cancelled = 0x7528 ∷ 0x6237 ∷ 0x4e3b ∷ 0x52a8 ∷ 0x53d6 ∷ 0x6d88 ∷ []

unfoldable pub cancel_transfer : ChannelSession → ℕ → List Effect × ChannelSession
cancel_transfer s id =
    let done = drop_outbound id s.outbounds ++ drop_inbound id s.inbounds in
    if length done == 0 then ([], s) else (
      done
          ++ sends (ChannelMsg.file_cancel id (some user_cancelled))
            ∷ emits (failed id cancelled)
            ∷ [],
      without id s,
    )

unfoldable pub close : ChannelSession → List Effect × ChannelSession
close s = if s.closed then ([], s) else (
  shuts ∷ map (λ e. removes (e.1.tmp_path)) s.inbounds
      ++ map (λ e. cancels e.0) s.outbounds
      ++ emits disconnected ∷ [],
  record s { closed = true; inbounds = []; outbounds = [] },
)

unfoldable pub accept_inbound : ChannelSession → ℕ → Text → ℕ → Io → List Effect × ChannelSession
accept_inbound s id name size io =
    let tmp : TmpPath = record { id = id; secs = io.secs } in
    let t : InboundTransfer = record {
      name = sanitize_file_name io.secs name;
      size = size;
      transferred = 0;
      tmp_path = tmp;
      file = [];
    } in
    if io.created
    then (
      creates tmp ∷ sends (ChannelMsg.file_decision id true none) ∷ [],
      record s { inbounds = insert id t s.inbounds },
    )
    else ([], s)

unfoldable pub handle_decision : ChannelSession → ℕ → Bool → List Effect × ChannelSession
handle_decision s id accept = elim (lookup id s.outbounds) [
  | none ↦ ([], s)
  | some t ↦ (
    if t.decision_tx then decides id accept ∷ [] else [],
    record s {
      outbounds =
          if accept
          then insert id (record t { decision_tx = false }) s.outbounds
          else remove id s.outbounds;
    },
  )
]

unfoldable pub handle_ack : ChannelSession → ℕ → List Effect × ChannelSession
handle_ack s id = elim (lookup id s.outbounds) [
  | none ↦ ([], s)
  | some t ↦ (if t.ack_tx then acks id ∷ [] else [], record s { outbounds = remove id s.outbounds })
]

unfoldable pub handle_control_msg : ChannelSession → ChannelMsg → Io → List Effect × ChannelSession
handle_control_msg s (ChannelMsg.text msg_id body timestamp) io =
    (emits (message msg_id body timestamp false) ∷ [], s)
handle_control_msg s (ChannelMsg.file_offer id name size mime sha256) io =
    let (es, s') = accept_inbound s id name size io in
    let offer = emits (offered id name size) in
    if s.auto_accept then (offer ∷ es, s') else (offer ∷ [], s)
handle_control_msg s (ChannelMsg.file_decision id accept reason) io = handle_decision s id accept
handle_control_msg s (ChannelMsg.file_progress id transferred total) io =
    (emits (progress id transferred total false) ∷ [], s)
handle_control_msg s (ChannelMsg.file_cancel id reason) io = (
  drop_inbound id s.inbounds
      ++ drop_outbound id s.outbounds
      ++ emits (failed id (cancelled_by_peer reason)) ∷ [],
  without id s,
)
handle_control_msg s (ChannelMsg.file_ack id save_path) io = handle_ack s id
handle_control_msg s ChannelMsg.ping io = (sends ChannelMsg.pong ∷ [], s)
handle_control_msg s ChannelMsg.pong io = ([], s)

-- `u64::saturating_add`.
abbrev pub saturating_add : ℕ → ℕ → ℕ
saturating_add a b = min (a + b) (2 ^ 64 - 1)

unfoldable pub all_written : Io → Bool
all_written io = elim io.written [ none ↦ true | some n ↦ false ]

-- The end of a file: the transfer is taken out and its file gets its name.
unfoldable pub finish_inbound :
    ChannelSession → ℕ → InboundTransfer → Io → List Effect × ChannelSession
finish_inbound s id t io = (
  if io.renamed
      then renames (t.tmp_path) io.final t.file
        ∷ sends (ChannelMsg.file_ack id (some io.final))
        ∷ emits (completed id t.name (some io.final) false)
        ∷ []
      else removes (t.tmp_path) ∷ emits (failed id rename_failed) ∷ [],
  record s { inbounds = remove id s.inbounds },
)

-- A block for the transfer `t`, from the guard against overflow on.
unfoldable pub take_block :
    ChannelSession
    → ChannelChunkHeader
    → List ℕ
    → InboundTransfer
    → Io
    → List Effect × ChannelSession
take_block s header block t io =
    let id = header.transfer_id in
    let t' = record t { transferred = t.transferred + length block; file = t.file ++ block } in
    let broken = record t {
      file = t.file ++ take (elim io.written [ none ↦ 0 | some n ↦ n ]) block;
    } in
    let s' = record s { inbounds = insert id t' s.inbounds } in
    let shown = emits (progress id t'.transferred t'.size false) in
    let (end, after) = finish_inbound s' id t' io in
    let (stop, rest) = cancel_transfer (record s { inbounds = remove id s.inbounds }) id in
    if ltb (saturating_add t.size overflow_slack) (t.transferred + length block)
    then (removes (t.tmp_path) ∷ stop, rest)
    else if not (length block == 0) && not (all_written io)
    then ([], record s { inbounds = insert id broken s.inbounds })
    else if is_eof header
    then (shown ∷ end, after)
    else (shown ∷ [], s')

unfoldable pub handle_media_frame : ChannelSession → Frame → Io → List Effect × ChannelSession
handle_media_frame s frame io = elim (decode frame.payload) [
  | none ↦ ([], s)
  | some header ↦
      if ltb (length frame.payload) (channel_chunk_header_len + header.chunk_len)
      then ([], s)
      else elim (lookup header.transfer_id s.inbounds) [
        | none ↦ ([], s)
        | some t ↦
            take_block s header (slice frame.payload channel_chunk_header_len header.chunk_len) t io
      ]
]

-- The arm of the receiving loop for frames: those of the channel's track are handled, others passed over.
unfoldable pub receive : ChannelSession → List Frame → Io → List Effect × ChannelSession
receive s [] io = ([], s)
receive s (frame ∷ frames) io =
    let (es, s') = handle_media_frame s frame io in
    let (more, s'') = receive s' frames io in
    let passed = receive s frames io in
    if frame.header.track == track_channel then (es ++ more, s'') else passed
