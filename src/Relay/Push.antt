-- ===== src/Relay/Push.antt =====
-- crates/stross-kernel/src/relay/data_plane.rs: `handle_push_loop`, the side of a relay to which a
-- stream is pushed, and `proxy_uplink`, which feeds a proxied stream.
-- A loop runs over what its session receives: a packet, the end of the connection, an error, or ten
-- seconds of silence. The list may end before the loop does, which then waits.
pub mod Rounds
pub mod Life
pub mod Leak
use stross.Base.{
  ℕ, Bool, true, false, not, ◌&&◌, ◌||◌, List, [], ◌∷◌, ◌++◌, Option, none, some, if◌then◌else◌,
}
use stross.Base.Keyed.{is_some}
use stross.Proto.Message.{Text}
use stross.Proto.Frame.{Frame}
use stross.Relay.{
  RelayState, StreamInfo, TrackInfo, ShareToken, stream_started, get, emit, add_stream, is_allowed,
  forward, end_stream, remove_proxy,
}

pub record Hello : Type 0 where
  pub stream_id : Text
  pub title : Text
  pub video : Option TrackInfo
  pub audio : Option TrackInfo
  pub share_token : Option Text

-- The text of an error, by what it says.
pub data Refusal : Type 0 where
  not_authorized : Text → Refusal
  already_there : Text → Refusal
  not_there : Text → Refusal
  bad_first_message : Refusal

-- The messages that the relay looks at or sends; any other is `other`.
pub data ControlMessage : Type 0 where
  hello : Hello → ControlMessage
  welcome : (stream_id : Text) → ControlMessage
  watch : (stream_id : Text) → ControlMessage
  ready : (stream_id : Text) → ControlMessage
  stream_opened : (stream_id : Text) → ControlMessage
  close_stream : (stream_id : Text) → ControlMessage
  error : Refusal → ControlMessage
  bye : ControlMessage
  other : ControlMessage

pub data SessionPacket : Type 0 where
  control : ControlMessage → SessionPacket
  media : Frame → SessionPacket

pub data Received : Type 0 where
  packet : SessionPacket → Received
  disconnected : Received
  failed : Received
  silent : Received

-- What a session is asked to do, in order.
pub data SessionCall : Type 0 where
  send : SessionPacket → SessionCall
  close : SessionCall

-- How a round of a loop ends: it goes on, it breaks off to the cleanup, or the handler returns.
pub data Flow : Type 0 where
  continues breaks returns : Flow

pub record PushState : Type 0 where
  pub relay : RelayState
  pub stream_id : Option Text
  pub calls : List SessionCall
  pub flow : Flow

module _ (from_token_string : Text → Option ShareToken) where
  -- The gate of a controlled relay.
  unfoldable pub admits : RelayState → Hello → Bool → Bool
  admits s h local =
      not s.controlled || is_allowed from_token_string s h.stream_id h.share_token local

unfoldable pub hello_info : Hello → ℕ → StreamInfo
hello_info h now = record {
  stream_id = h.stream_id;
  title = h.title;
  video = h.video;
  audio = h.audio;
  started_at = now;
  watchers = 0;
}

-- The stream is entered and reported.
unfoldable pub open_stream : RelayState → Hello → ℕ → RelayState
unfolding hello_info add_stream emit
open_stream s h now =
    let info = hello_info h now in emit (add_stream s info) (stream_started h.stream_id info)

abbrev pub refuse : RelayState → Option Text → Refusal → PushState
refuse s sid r = record {
  relay = s;
  stream_id = sid;
  calls = send (control (error r)) ∷ close ∷ [];
  flow = returns;
}

module _ (from_token_string : Text → Option ShareToken) (local : Bool) (now : ℕ) where
  unfoldable pub push_hello : RelayState → Option Text → Hello → PushState
  unfolding admits open_stream
  push_hello s sid h =
      if not (admits from_token_string s h local)
      then refuse s sid (not_authorized h.stream_id)
      else if is_some (get s h.stream_id)
      then refuse s sid (already_there h.stream_id)
      else record {
        relay = open_stream s h now;
        stream_id = some h.stream_id;
        calls = send (control (welcome h.stream_id)) ∷ [];
        flow = continues;
      }

  abbrev pub going : RelayState → Option Text → Flow → PushState
  going s sid fl = record { relay = s; stream_id = sid; calls = []; flow = fl }

  unfoldable pub push_media : RelayState → Option Text → Frame → RelayState
  push_media s none f = s
  push_media s (some id) f = forward s id f

  unfoldable pub push_packet : RelayState → Option Text → SessionPacket → PushState
  unfolding push_hello push_media
  push_packet s sid (control (hello h)) = push_hello s sid h
  push_packet s sid (control bye) = going s sid breaks
  push_packet s sid (control _) = going s sid continues
  push_packet s sid (media f) = going (push_media s sid f) sid continues

  unfoldable pub push_round : RelayState → Option Text → Received → PushState
  unfolding push_packet
  push_round s sid (packet p) = push_packet s sid p
  push_round s sid _ = going s sid breaks

  -- After the loop: the stream is taken out, unless someone did so before, and the session closed.
  unfoldable pub push_cleanup : RelayState → Option Text → RelayState
  push_cleanup s none = s
  push_cleanup s (some id) = end_stream s id

  -- `flow` tells whether the loop still waits when the list has ended.
  unfoldable pub handle_push_loop : RelayState → Option Text → List Received → PushState
  unfolding push_round push_cleanup
  handle_push_loop s sid [] = going s sid continues
  handle_push_loop s sid (r ∷ rs) =
      let t = push_round s sid r in
      let rest = handle_push_loop t.relay t.stream_id rs in
      elim t.flow [
        | continues ↦ record rest { calls = t.calls ++ rest.calls }
        | breaks ↦ record t {
          relay = push_cleanup t.relay t.stream_id;
          calls = t.calls ++ (close ∷ []);
        }
        | returns ↦ t
      ]

  unfoldable pub handle_push : RelayState → List Received → PushState
  unfolding handle_push_loop
  handle_push s rs = handle_push_loop s none rs

-- The frames of the upstream relay go to the local stream until the connection ends.
unfoldable pub proxy_loop : RelayState → Text → List Received → RelayState × Bool
proxy_loop s id [] = (s, false)
proxy_loop s id (packet (media f) ∷ rs) = proxy_loop (forward s id f) id rs
proxy_loop s id (packet (control m) ∷ rs) = proxy_loop s id rs
proxy_loop s id (_ ∷ rs) = (remove_proxy s id, true)

-- `connected` is the answer of `connect_watch`.
unfoldable pub proxy_uplink : RelayState → Text → Bool → List Received → RelayState × Bool
unfolding proxy_loop
proxy_uplink s id false rs = (remove_proxy s id, true)
proxy_uplink s id true rs = proxy_loop s id rs
