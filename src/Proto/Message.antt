-- ===== src/Proto/Message.antt =====
-- crates/stross-proto/src/message/channel.rs: the messages of a peer channel.
-- A text is the list of its characters.
use native.Mathlib.Decide.{ℕ_discrete}
use stross.Base.{ℕ, List, Option, Bool}

abbrev pub Text : Type 0
Text = List ℕ

pub data ChannelMsg : Type 0 where
  text : (msg_id : ℕ) → (body : Text) → (timestamp : ℕ) → ChannelMsg
  file_offer :
      (transfer_id : ℕ)
      → (name : Text) → (size : ℕ) → (mime : Option Text) → (sha256 : Option Text) → ChannelMsg
  file_decision : (transfer_id : ℕ) → (accept : Bool) → (reason : Option Text) → ChannelMsg
  file_progress : (transfer_id : ℕ) → (transferred : ℕ) → (total : ℕ) → ChannelMsg
  file_cancel : (transfer_id : ℕ) → (reason : Option Text) → ChannelMsg
  file_ack : (transfer_id : ℕ) → (save_path : Option Text) → ChannelMsg
  ping : ChannelMsg
  pong : ChannelMsg

unfoldable pub Text-discrete : Discrete Text
unfolding ℕ_discrete
Text-discrete = hlevel ℕ_discrete
