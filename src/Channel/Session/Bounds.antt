-- ===== src/Channel/Session/Bounds.antt =====
-- What a peer can make this side store.
use stross.Base.{
  ℕ, ◌+◌, ◌≤◌, ◌<◌, ◌≡◌, sym, subst, List, [], ◌∷◌, ◌++◌, none, some, arith, length, All, ltb,
  ltb_false→le, ◌==◌, Bool-cases, Option-cases, slice, not, Bool, ◌&&◌, inl, inr, true, false,
  if◌then◌else◌, ◌⊎◌, lt→ltb,
}
use stross.Base.Assoc.{lookup, remove, remove-All, lookup-All, lookup-remove}
use stross.Proto.Message.{ChannelMsg, Text}
use stross.Proto.Frame.{Frame}
use stross.Proto.Chunk.{ChannelChunkHeader, decode, is_eof}
use stross.Channel.Session.{
  ChannelSession, InboundTransfer, Effect, Io, saturating_add, overflow_slack, take_block,
  finish_inbound, cancel_transfer, handle_media_frame, handle_control_msg, accept_inbound,
  handle_decision, handle_ack, without, close, send_file, drop_outbound, drop_inbound, removes,
  cancels, sends, emits, failed, cancelled, user_cancelled, all_written,
}

abbrev pub Within : ℕ × InboundTransfer → Type 0
Within e = e.1.transferred ≤ saturating_add e.1.size overflow_slack

-- No inbound transfer has counted more than its announced size and the slack.
abbrev pub Bounded : ChannelSession → Type 0
Bounded s = All Within s.inbounds

cancel_transfer-Bounded :
    (s : ChannelSession) (id : ℕ) → Bounded s → Bounded ((cancel_transfer s id).1)
unfolding cancel_transfer without
cancel_transfer-Bounded s id b =
    elim (Bool-cases (length (drop_outbound id s.outbounds ++ drop_inbound id s.inbounds) == 0)) [
      | inl idle ↦ rw idle b
      | inr busy ↦ rw busy (remove-All Within id s.inbounds b)
    ]

finish_inbound-Bounded :
    (s : ChannelSession) (id : ℕ) (t : InboundTransfer) (io : Io)
    → Bounded s
    → Bounded ((finish_inbound s id t io).1)
unfolding finish_inbound
finish_inbound-Bounded s id t io b = remove-All Within id s.inbounds b

take_block-Bounded :
    (s : ChannelSession) (h : ChannelChunkHeader) (block : List ℕ) (t : InboundTransfer) (io : Io)
    → Within (h.transfer_id, t)
    → Bounded s
    → Bounded ((take_block s h block t io).1)
unfolding take_block
take_block-Bounded s h block t io w b =
    let id = h.transfer_id in
    let rest = remove-All Within id s.inbounds b in
    elim (Bool-cases (ltb (saturating_add t.size overflow_slack) (t.transferred + length block))) [
      | inl over ↦
          rw over (cancel_transfer-Bounded (record s { inbounds = remove id s.inbounds }) id rest)
      | inr fits ↦ rw fits (elim (Bool-cases (not (length block == 0) && not (all_written io))) [
        | inl broken ↦ rw broken (w, rest)
        | inr whole ↦ rw whole (elim (Bool-cases (is_eof h)) [
          | inl last ↦ rw last (finish_inbound-Bounded _ id _ io (ltb_false→le _ _ fits, rest))
          | inr more ↦ rw more (ltb_false→le _ _ fits, rest)
        ])
      ])
    ]

-- A frame for the channel changes nothing, or is a block for a transfer that is there.
media_cases :
    (s : ChannelSession) (frame : Frame) (io : Io)
    → (handle_media_frame s frame io ≡ ([], s))
      ⊎ ((h : ChannelChunkHeader) × (t : InboundTransfer) × (lookup h.transfer_id s.inbounds
            ≡ some t)
          × (handle_media_frame s frame io
              ≡ take_block s h (slice frame.payload 20 h.chunk_len) t io))
unfolding handle_media_frame
media_cases s frame io = elim (Option-cases (decode frame.payload)) [
  | inl bad ↦ inl (ground arith)
  | inr (h, good) ↦ elim (Option-cases (lookup h.transfer_id s.inbounds)) [
    | inl unknown ↦ inl (ground arith)
    | inr (t, known) ↦ elim (Bool-cases (ltb (length frame.payload) (20 + h.chunk_len))) [
      | inl short ↦ inl (ground arith)
      | inr long ↦ inr (h, t, known, ground arith)
    ]
  ]
]

handle_media_frame-Bounded :
    (s : ChannelSession) (frame : Frame) (io : Io)
    → Bounded s
    → Bounded ((handle_media_frame s frame io).1)
handle_media_frame-Bounded s frame io b = elim (media_cases s frame io) [
  | inl e ↦ subst (λ r. Bounded (r.1)) (sym e) b
  | inr (h, t, known, e) ↦
      subst (λ r. Bounded (r.1)) (sym e)
        (take_block-Bounded s h _ t io (lookup-All Within h.transfer_id t s.inbounds known b) b)
]

accept_inbound-Bounded :
    (s : ChannelSession) (id : ℕ) (name : Text) (size : ℕ) (io : Io)
    → Bounded s
    → Bounded ((accept_inbound s id name size io).1)
unfolding accept_inbound
accept_inbound-Bounded s id name size io b = elim (Bool-cases io.created) [
  | inl made ↦ rw made (omega arith, remove-All Within id s.inbounds b)
  | inr off ↦ rw off b
]

handle_decision-inbounds :
    (s : ChannelSession) (id : ℕ) (accept : Bool)
    → (handle_decision s id accept).1.inbounds ≡ s.inbounds
unfolding handle_decision
handle_decision-inbounds s id accept = ground arith

handle_ack-inbounds : (s : ChannelSession) (id : ℕ) → (handle_ack s id).1.inbounds ≡ s.inbounds
unfolding handle_ack
handle_ack-inbounds s id = ground arith

either-Bounded :
    (c : Bool) (x y : List Effect × ChannelSession)
    → Bounded (x.1)
    → Bounded (y.1)
    → Bounded ((if c then x else y).1)
either-Bounded true x y hx hy = hx
either-Bounded false x y hx hy = hy

handle_control_msg-Bounded :
    (s : ChannelSession) (msg : ChannelMsg) (io : Io)
    → Bounded s
    → Bounded ((handle_control_msg s msg io).1)
unfolding handle_control_msg without
handle_control_msg-Bounded s (ChannelMsg.text n body time) io b = b
handle_control_msg-Bounded s (ChannelMsg.file_offer id name size mime sha) io b =
    either-Bounded s.auto_accept _ _ (accept_inbound-Bounded s id name size io b) b
handle_control_msg-Bounded s (ChannelMsg.file_decision id accept reason) io b =
    subst (All Within) (sym (handle_decision-inbounds s id accept)) b
handle_control_msg-Bounded s (ChannelMsg.file_progress id n total) io b = b
handle_control_msg-Bounded s (ChannelMsg.file_cancel id reason) io b =
    remove-All Within id s.inbounds b
handle_control_msg-Bounded s (ChannelMsg.file_ack id path) io b =
    subst (All Within) (sym (handle_ack-inbounds s id)) b
handle_control_msg-Bounded s ChannelMsg.ping io b = b
handle_control_msg-Bounded s ChannelMsg.pong io b = b

-- What can happen to a session.
pub data Input : Type 0 where
  control : ChannelMsg → Io → Input
  media : Frame → Io → Input
  offer_file : (name : Text) → (size : ℕ) → Io → Input
  cancel : (transfer_id : ℕ) → Input
  end : Input

unfoldable pub step : ChannelSession → Input → ChannelSession
step s (control msg io) = (handle_control_msg s msg io).1
step s (media frame io) = (handle_media_frame s frame io).1
step s (offer_file name size io) = (send_file s name size io).2
step s (cancel id) = (cancel_transfer s id).1
step s end = (close s).1

unfoldable pub steps : ChannelSession → List Input → ChannelSession
steps s [] = s
steps s (i ∷ is) = steps (step s i) is

step-Bounded : (s : ChannelSession) (i : Input) → Bounded s → Bounded (step s i)
unfolding step send_file close
step-Bounded s (control msg io) b = handle_control_msg-Bounded s msg io b
step-Bounded s (media frame io) b = handle_media_frame-Bounded s frame io b
step-Bounded s (offer_file name size io) b = elim (Bool-cases s.closed) [
  | inl e ↦ rw e b
  | inr e ↦ elim (Bool-cases io.sent) [ inl f ↦ rw (e, f) b | inr f ↦ rw (e, f) b ]
]
step-Bounded s (cancel id) b = cancel_transfer-Bounded s id b
step-Bounded s end b = elim (Bool-cases s.closed) [ inl e ↦ rw e b | inr e ↦ rw e tt ]

-- From a session in which no inbound transfer counts more bytes than its announced size and one
-- mebibyte, whatever a peer sends and this side does leads to such a session.
pub steps-Bounded : (is : List Input) (s : ChannelSession) → Bounded s → Bounded (steps s is)
unfolding steps
steps-Bounded [] s b = b
steps-Bounded (i ∷ is) s b = steps-Bounded is (step s i) (step-Bounded s i b)

-- A block that passes the bound removes the temporary file of its transfer. Only if this side has
-- an outbound transfer under the same id is anything more done: that one is cancelled, and the peer
-- and the listeners are told of it; otherwise nobody is told.
pub take_block_over :
    (s : ChannelSession) (h : ChannelChunkHeader) (block : List ℕ) (t : InboundTransfer) (io : Io)
    → saturating_add t.size overflow_slack < t.transferred + length block
    → (take_block s h block t io).0
      ≡ removes (t.tmp_path) ∷ (elim (lookup h.transfer_id s.outbounds) [
        | none ↦ []
        | some o ↦
            cancels (h.transfer_id)
            ∷ sends (ChannelMsg.file_cancel h.transfer_id (some user_cancelled))
            ∷ emits (failed (h.transfer_id) cancelled)
            ∷ []
      ])
unfolding take_block cancel_transfer drop_outbound drop_inbound
take_block_over s h block t io over =
    rw (lt→ltb _ _ over) (ground (arith, lookup-remove (h.transfer_id) s.inbounds))
