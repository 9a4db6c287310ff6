-- ===== src/Channel/Session/Types.antt =====
-- The state of a channel session, what its handlers do outside of it, and what they are answered.
use stross.Base.{ℕ, List, Option, Bool}
use stross.Proto.Message.{ChannelMsg, Text}

-- `.tmp-recv-{id}-{secs}` in the output directory.
pub record TmpPath : Type 0 where
  pub id : ℕ
  pub secs : ℕ

pub record InboundTransfer : Type 0 where
  pub name : Text
  pub size : ℕ
  pub transferred : ℕ
  pub tmp_path : TmpPath
  pub file : List ℕ

-- Whether the senders of the decision and of the acknowledgement are still there.
pub record OutboundTransfer : Type 0 where
  pub decision_tx : Bool
  pub ack_tx : Bool

pub record ChannelSession : Type 0 where
  pub auto_accept : Bool
  pub next_msg_id : ℕ
  pub next_transfer_id : ℕ
  pub inbounds : List (ℕ × InboundTransfer)
  pub outbounds : List (ℕ × OutboundTransfer)
  pub closed : Bool

pub data Reason : Type 0 where
  cancelled : Reason
  cancelled_by_peer : Option Text → Reason
  rename_failed : Reason

pub data ChannelEvent : Type 0 where
  message : (msg_id : ℕ) → (body : Text) → (timestamp : ℕ) → (is_self : Bool) → ChannelEvent
  offered : (transfer_id : ℕ) → (name : Text) → (size : ℕ) → ChannelEvent
  progress : (transfer_id : ℕ) → (transferred : ℕ) → (total : ℕ) → (is_upload : Bool) → ChannelEvent
  completed :
      (transfer_id : ℕ) → (name : Text) → (path : Option Text) → (is_upload : Bool) → ChannelEvent
  failed : (transfer_id : ℕ) → (reason : Reason) → ChannelEvent
  connected : ChannelEvent
  disconnected : ChannelEvent

-- `cancels` sets the flag that the loop of an upload reads at the head of each round.
pub data Effect : Type 0 where
  emits : ChannelEvent → Effect
  sends : ChannelMsg → Effect
  decides : (transfer_id : ℕ) → (accept : Bool) → Effect
  acks : (transfer_id : ℕ) → Effect
  cancels : (transfer_id : ℕ) → Effect
  creates : TmpPath → Effect
  removes : TmpPath → Effect
  renames : TmpPath → (final : Text) → (content : List ℕ) → Effect
  shuts : Effect

-- What the system around a handler answers: the clock, the creation of the temporary file, how far a
-- failed write got (`none` for a write that succeeds), the name that `resolve_unique_path` finds, the
-- renaming, and whether the peer takes a message.
pub record Io : Type 0 where
  pub secs : ℕ
  pub created : Bool
  pub written : Option ℕ
  pub final : Text
  pub renamed : Bool
  pub sent : Bool
