-- ===== src/Channel/Session/Transfer.antt =====
-- A file that one side pushes arrives whole at the other.
use stross.Base.{
  ℕ, suc, Bool, ◌+◌, ◌^◌, ◌≤◌, ◌<◌, ◌≡◌, refl, sym, ap, subst, ◌∙◌, List, [], ◌∷◌, ◌++◌,
  append_assoc, append-nil, none, some, arith, length, length-append, All, leb, ◌==◌, ◌||◌,
  Bool-cases, inl, inr, true, false,
}
use stross.Base.Assoc.{lookup, lookup-insert, lookup-remove}
use stross.Proto.Message.{ChannelMsg, Text}
use stross.Proto.Frame.{Frame}
use stross.Proto.Chunk.{IsChunkHeader, flag_eof}
use stross.Channel.Session.{
  ChannelSession, InboundTransfer, TmpPath, Effect, Io, chunk_frame, push_frames, receive, emits,
  sends, renames, progress, completed,
}
use stross.Channel.Session.Blocks.{
  header_of, taken, shown, holding, Works, receive_step, chunk_frame-track, finish_named,
  handle_last, handle_more,
}

abbrev pub contents : List (List ℕ) → List ℕ
contents [] = []
contents (block ∷ blocks) = block ++ contents blocks

abbrev pub IsProgress : ℕ → Effect → Type 0
IsProgress id e = (n : ℕ) × (size : ℕ) × (e ≡ emits (progress id n size false))

-- What the end of a file with the given content does.
abbrev pub delivers : ℕ → Text → TmpPath → ℕ → List ℕ → Io → List Effect
delivers id name tmp size content io =
    emits (progress id (length content) size false)
    ∷ renames tmp io.final content
    ∷ sends (ChannelMsg.file_ack id (some io.final))
    ∷ emits (completed id name (some io.final) false)
    ∷ []

-- No transfer `id` is left, and the effects are those of the delivery of `content`, after some reports
-- of progress.
pub record Delivers (id : ℕ) (name : Text) (tmp : TmpPath) (size : ℕ) (content : List ℕ) (io : Io)
    (result : List Effect × ChannelSession) : Type 0 where
  pub before : List Effect
  pub reports : All (IsProgress id) before
  pub effects : result.0 ≡ before ++ delivers id name tmp size content io
  pub gone : lookup id result.1.inbounds ≡ none

-- The state of the receiving side once `offset` bytes have come.
pub record Receiving (s : ChannelSession) (id offset size : ℕ) (t : InboundTransfer) : Type 0 where
  pub entry : lookup id s.inbounds ≡ some t
  pub got : t.transferred ≡ offset
  pub bytes : length t.file ≡ offset
  pub announced : t.size ≡ size

abbrev pub Small : List ℕ → Type 0
Small block = (0 < length block) × (length block < 2 ^ 32)

module _ (s : ChannelSession) (id offset : ℕ) (block : List ℕ) (t : InboundTransfer) (io : Io) where
  last_chunk :
      Receiving s id offset (offset + length block) t
      → Works io
      → IsChunkHeader (header_of id offset block flag_eof)
      → t.size < 2 ^ 64
      → Delivers id
          (t.name)
          (t.tmp_path)
          (t.size)
          (t.file ++ block)
          io
          (receive s (chunk_frame id offset block flag_eof ∷ []) io)
  unfolding receive
  last_chunk r w v small =
      let fits : t.transferred + length block ≤ t.size = omega (arith, r.got, r.announced) in
      let content = t.file ++ block in
      let after = holding s id offset block flag_eof t io in
      let whole = taken s id offset block flag_eof t io in
      let e =
        handle_last s id offset block t io fits small r.entry w v
        ∙ ap (λ q. (shown s id offset block flag_eof t io ∷ q.0, q.1))
            (finish_named after id whole io w.renames_ok) in
      let total : t.transferred + length block ≡ length content =
        omega (arith, r.got, r.bytes, length-append t.file block) in
      subst (Delivers id (t.name) (t.tmp_path) (t.size) content io)
        (sym (
          receive_step s (chunk_frame id offset block flag_eof) [] io _
            (chunk_frame-track id offset block flag_eof) e))
        (record {
          before = [];
          reports = tt;
          effects =
              ap
                (λ n.
                  emits (progress id n t.size false)
                  ∷ renames (t.tmp_path) io.final content
                  ∷ sends (ChannelMsg.file_ack id (some io.final))
                  ∷ emits (completed id t.name (some io.final) false)
                  ∷ [])
                total;
          gone = lookup-remove id after.inbounds;
        })

more_chunks :
    (s : ChannelSession) (id offset : ℕ) (block : List ℕ) (t : InboundTransfer) (io : Io)
    (frames : List Frame) (content : List ℕ)
    → t.transferred + length block ≤ t.size
    → t.size < 2 ^ 64
    → lookup id s.inbounds ≡ some t
    → Works io
    → IsChunkHeader (header_of id offset block 0)
    → Delivers id
        (t.name)
        (t.tmp_path)
        (t.size)
        content
        io
        (receive (holding s id offset block 0 t io) frames io)
    → Delivers id
        (t.name)
        (t.tmp_path)
        (t.size)
        content
        io
        (receive s (chunk_frame id offset block 0 ∷ frames) io)
more_chunks s id offset block t io frames content fits small e w v d =
    subst (Delivers id (t.name) (t.tmp_path) (t.size) content io)
      (sym (
        receive_step s (chunk_frame id offset block 0) frames io _
          (chunk_frame-track id offset block 0)
          (handle_more s id offset block t io fits small e w v)))
      (record {
        before = shown s id offset block 0 t io ∷ d.before;
        reports = ((_, _, refl), d.reports);
        effects = ap (◌∷◌ (shown s id offset block 0 t io)) d.effects;
        gone = d.gone;
      })

no_more :
    (reads : List (List ℕ)) → All Small reads → length (contents reads) ≡ 0 → contents reads ≡ []
no_more [] small e = refl
no_more (block ∷ reads) small e =
    absurd (omega (arith, small.0.0, e, length-append block (contents reads)))

nothing_left :
    (n offset size left : ℕ)
    → 0 < n
    → offset + n + left ≡ size
    → ((n == 0) || leb size (offset + n) || (size == 0)) ≡ true
    → left ≡ 0
nothing_left n offset size left now whole e = ground arith

-- What the background task sends of a file, from any point where the receiver holds the transfer
-- with all the bytes before it, is delivered, if no round finds the upload cancelled, its reads and
-- sends succeed, the announced size is the true one and below 2 ^ 64, the id is below 2 ^ 32, each
-- read gives at least one byte and fewer than 2 ^ 32, and writing and renaming succeed: the receiver reports progress, gives its file the name found for it with
-- exactly the bytes read added, acknowledges, and forgets the transfer.
pub receive-push_frames :
    (stopped : ℕ → Bool) (reads : List (List ℕ)) (s : ChannelSession) (id offset size : ℕ)
    (t : InboundTransfer) (io : Io)
    → ((k : ℕ) → stopped k ≡ false)
    → id < 2 ^ 32
    → size < 2 ^ 64
    → offset + length (contents reads) ≡ size
    → All Small reads
    → Receiving s id offset size t
    → Works io
    → Delivers id
        (t.name)
        (t.tmp_path)
        (t.size)
        (t.file ++ contents reads)
        io
        (receive s (push_frames stopped id size offset reads) io)
unfolding push_frames
receive-push_frames stopped [] s id offset size t io live i z whole small r w = rw (live 0) (
    last_chunk s id offset [] t io
      (record {
        entry = r.entry;
        got = r.got;
        bytes = r.bytes;
        announced = omega (arith, r.announced, whole);
      })
      w
      (record {
        id_u32 = i;
        offset_u64 = omega (arith, whole);
        len_u32 = omega arith;
        flags_u8 = omega arith;
      })
      (omega (arith, r.announced)))
receive-push_frames stopped (block ∷ reads) s id offset size t io live i z whole (now, small) r w =
    let n : offset + length block + length (contents reads) ≡ size =
      omega (arith, whole, length-append block (contents reads)) in
    let fits : t.transferred + length block ≤ t.size = omega (arith, r.got, r.announced) in
    elim (Bool-cases ((length block == 0) || leb size (offset + length block) || (size == 0))) [
      | inl last ↦
          let done =
            nothing_left (length block) offset size (length (contents reads)) now.0 n last in
          rw (live 0, last, no_more reads small done, append-nil block)
            (last_chunk s id offset block t io
              (record {
                entry = r.entry;
                got = r.got;
                bytes = r.bytes;
                announced = omega (arith, r.announced, n, done);
              })
              w
              (record {
                id_u32 = i;
                offset_u64 = omega (arith, n);
                len_u32 = now.1;
                flags_u8 = omega arith;
              })
              (omega (arith, r.announced)))
      | inr more ↦
          rw (live 0, more)
            (more_chunks s id offset block t io _ (t.file ++ (block ++ contents reads)) fits
              (omega (arith, r.announced)) r.entry w
              (record {
                id_u32 = i;
                offset_u64 = omega arith;
                len_u32 = now.1;
                flags_u8 = omega arith;
              })
              (subst
                (λ xs. Delivers id (t.name) (t.tmp_path) (t.size) xs io (
                  receive (holding s id offset block 0 t io)
                    (push_frames (λ k. stopped (suc k)) id size (offset + length block) reads) io))
                (append_assoc t.file block (contents reads))
                (receive-push_frames (λ k. stopped (suc k)) reads (holding s id offset block 0 t io)
                  id (offset + length block) size (taken s id offset block 0 t io) io
                  (λ k. live (suc k)) i z n small
                  (record {
                    entry = lookup-insert id (taken s id offset block 0 t io) s.inbounds;
                    got = ap (λ k. k + length block) r.got;
                    bytes = omega (arith, r.bytes, length-append t.file block);
                    announced = r.announced;
                  })
                  w)))
    ]
