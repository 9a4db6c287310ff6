-- ===== src/Channel/Session/Blocks.antt =====
-- What one block of a file does to the session that receives it.
use stross.Base.{
  ℕ, ◌+◌, ◌^◌, ◌%◌, ◌≤◌, ◌<◌, ◌≡◌, refl, sym, ap, subst, ◌∙◌, List, [], ◌∷◌, ◌++◌, some, arith,
  length, length-append, slice, take-length, ltb, min, ◌==◌, Bool-cases, inl, inr, true, false,
  ltb-false, if◌then◌else◌,
}
use stross.Base.Assoc.{lookup, remove, insert}
use stross.Proto.Message.{ChannelMsg}
use stross.Proto.Frame.{Frame, new, with_seq, track_channel}
use stross.Proto.Chunk.{
  ChannelChunkHeader, IsChunkHeader, encode, decode, decode-encode_chunk, length-encode, is_eof,
  flag_eof,
}
use stross.Channel.Session.{
  ChannelSession, InboundTransfer, Effect, Io, chunk_frame, handle_media_frame, take_block,
  finish_inbound, receive, emits, sends, renames, progress, completed, all_written,
}

abbrev pub header_of : ℕ → ℕ → List ℕ → ℕ → ChannelChunkHeader
header_of id offset block flags = record {
  transfer_id = id;
  offset = offset;
  chunk_len = length block;
  flags = flags;
}

slice_block :
    (h : ChannelChunkHeader) (block : List ℕ) → slice (encode h ++ block) 20 (length block) ≡ block
unfolding encode
slice_block h block = take-length block

chunk_frame_lem :
    (id offset : ℕ) (block : List ℕ) (flags : ℕ)
    → length block < 2 ^ 32
    → (chunk_frame id offset block flags).payload
      ≡ encode (header_of id offset block flags) ++ block
unfolding chunk_frame new with_seq
chunk_frame_lem id offset block flags b =
    let small : length block % 4294967296 ≡ length block = omega arith in rw small refl

handle_media_frame_lem :
    (s : ChannelSession) (frame : Frame) (h : ChannelChunkHeader) (block : List ℕ)
    (t : InboundTransfer) (io : Io)
    → decode frame.payload ≡ some h
    → ltb (length frame.payload) (20 + h.chunk_len) ≡ false
    → slice frame.payload 20 h.chunk_len ≡ block
    → lookup h.transfer_id s.inbounds ≡ some t
    → handle_media_frame s frame io ≡ take_block s h block t io
unfolding handle_media_frame
handle_media_frame_lem s frame h block t io d l b e = ground arith

module _ (s : ChannelSession) (id offset : ℕ) (block : List ℕ) (flags : ℕ) (t : InboundTransfer)
    (io : Io) where
  handle_chunk :
      IsChunkHeader (header_of id offset block flags)
      → lookup id s.inbounds ≡ some t
      → handle_media_frame s (chunk_frame id offset block flags) io
        ≡ take_block s (header_of id offset block flags) block t io
  handle_chunk v e =
      let h = header_of id offset block flags in
      let p = sym (chunk_frame_lem id offset block flags v.len_u32) in
      handle_media_frame_lem s (chunk_frame id offset block flags) h block t io
        (subst (λ xs. decode xs ≡ some h) p (decode-encode_chunk h block v))
        (subst (λ xs. ltb (length xs) (20 + length block) ≡ false) p
          (ltb-false _ _ (omega (arith, length-append (encode h) block, length-encode h))))
        (subst (λ xs. slice xs 20 (length block) ≡ block) p (slice_block h block)) e

  abbrev pub taken : InboundTransfer
  taken = record t { transferred = t.transferred + length block; file = t.file ++ block }

  abbrev pub shown : Effect
  shown = emits (progress id (t.transferred + length block) t.size false)

  abbrev pub holding : ChannelSession
  holding = record s { inbounds = insert id taken s.inbounds }

  -- A block that stays within the size, written in full, is either kept or the end of the file.
  take_block_within :
      t.transferred + length block ≤ t.size
      → t.size < 2 ^ 64
      → all_written io ≡ true
      → take_block s (header_of id offset block flags) block t io ≡ (
          if is_eof (header_of id offset block flags)
          then (
            shown ∷ (finish_inbound holding id taken io).0,
            (finish_inbound holding id taken io).1,
          )
          else (shown ∷ [], holding))
  unfolding take_block
  take_block_within fits small w =
      let no_over : ltb (min (t.size + 1048576) 18446744073709551615) (t.transferred + length block)
          ≡ false =
        ltb-false _ _ (omega arith) in
      rw (no_over, w)
        (elim (Bool-cases (length block == 0)) [ inl e ↦ rw e refl | inr e ↦ rw e refl ])

pub record Works (io : Io) : Type 0 where
  pub writes : all_written io ≡ true
  pub renames_ok : io.renamed ≡ true

pub receive_step :
    (s : ChannelSession) (frame : Frame) (frames : List Frame) (io : Io)
    (r : List Effect × ChannelSession)
    → (frame.header.track == track_channel) ≡ true
    → handle_media_frame s frame io ≡ r
    → receive s (frame ∷ frames) io
      ≡ (r.0 ++ (receive (r.1) frames io).0, (receive (r.1) frames io).1)
unfolding receive
receive_step s frame frames io r c e =
    rw c (ap (λ q. (q.0 ++ (receive (q.1) frames io).0, (receive (q.1) frames io).1)) e)

pub chunk_frame-track :
    (id offset : ℕ) (block : List ℕ) (flags : ℕ)
    → ((chunk_frame id offset block flags).header.track == track_channel) ≡ true
unfolding chunk_frame new
chunk_frame-track id offset block flags = refl

pub finish_named :
    (s : ChannelSession) (id : ℕ) (t : InboundTransfer) (io : Io)
    → io.renamed ≡ true
    → finish_inbound s id t io ≡ (
      renames (t.tmp_path) io.final t.file
          ∷ sends (ChannelMsg.file_ack id (some io.final))
          ∷ emits (completed id t.name (some io.final) false)
          ∷ [],
      record s { inbounds = remove id s.inbounds },
    )
unfolding finish_inbound
finish_named s id t io e = rw e refl

module _ (s : ChannelSession) (id offset : ℕ) (block : List ℕ) (t : InboundTransfer) (io : Io) where
  pub handle_last :
      t.transferred + length block ≤ t.size
      → t.size < 2 ^ 64
      → lookup id s.inbounds ≡ some t
      → Works io
      → IsChunkHeader (header_of id offset block flag_eof)
      → handle_media_frame s (chunk_frame id offset block flag_eof) io ≡ (
        shown s id offset block flag_eof t io
            ∷ (finish_inbound
                (holding s id offset block flag_eof t io)
                id
                (taken s id offset block flag_eof t io)
                io).0,
        (finish_inbound
            (holding s id offset block flag_eof t io)
            id
            (taken s id offset block flag_eof t io)
            io).1,
      )
  unfolding is_eof
  handle_last fits small e w v =
      handle_chunk s id offset block flag_eof t io v e
      ∙ take_block_within s id offset block flag_eof t io fits small w.writes

  pub handle_more :
      t.transferred + length block ≤ t.size
      → t.size < 2 ^ 64
      → lookup id s.inbounds ≡ some t
      → Works io
      → IsChunkHeader (header_of id offset block 0)
      → handle_media_frame s (chunk_frame id offset block 0) io
        ≡ (shown s id offset block 0 t io ∷ [], holding s id offset block 0 t io)
  unfolding is_eof
  handle_more fits small e w v =
      handle_chunk s id offset block 0 t io v e
      ∙ take_block_within s id offset block 0 t io fits small w.writes
