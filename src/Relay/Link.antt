-- ===== src/Relay/Link.antt =====
-- crates/stross-kernel/src/relay/data_plane.rs: a QUIC link with many streams, `quic_peer_loop`, the
-- task of a pushed stream, `quic_push_stream`, and the entry by the first message, `handle_connect`.
pub mod Pairing
pub mod Same
mod Tests
use stross.Base.{ℕ, Bool, true, false, not, List, [], ◌∷◌, ◌++◌, Option, none, some, if◌then◌else◌}
use native.Mathlib.Decide.{ℕ_discrete}
use stross.Base.Keyed
use stross.Base.Keyed.{is_some}
use stross.Proto.Message.{Text, Text-discrete}
use stross.Proto.Frame.{Frame}
use stross.Relay.{
  RelayState, TrackInfo, ShareToken, get, forward, end_stream, is_allowed, unwrap_or,
}
use stross.Relay.Push.{
  SessionCall, PushState, Flow, Hello, Received, packet, disconnected, failed, silent, control,
  media, hello, watch, ControlMessage, SessionPacket, send, close, error, not_authorized,
  already_there, bad_first_message, stream_opened, close_stream, continues, breaks, returns, admits,
  open_stream, handle_push_loop,
}

pub data StreamRole : Type 0 where
  pushes watches : StreamRole

pub record OpenStream : Type 0 where
  pub stream_id : Text
  pub role : StreamRole
  pub title : Option Text
  pub video : Option TrackInfo
  pub audio : Option TrackInfo
  pub share_token : Option Text

-- What the link gives next: a control message, a new media stream by its number, or its end.
pub data LinkEvent : Type 0 where
  opens : OpenStream → LinkEvent
  closes : (stream_id : Text) → LinkEvent
  other_message : LinkEvent
  media_stream : (qid : ℕ) → LinkEvent
  link_closed : LinkEvent

-- `spawned` lists the tasks that were started, in order, with the number of their media stream.
pub record LinkState : Type 0 where
  pub relay : RelayState
  pub pending_opens : List OpenStream
  pub pending_streams : List ℕ
  pub by_quic : List (ℕ × (Text × StreamRole))
  pub by_semantic : List (Text × ℕ)
  pub spawned : List (OpenStream × ℕ)

abbrev pub new_link : RelayState → LinkState
new_link s = record {
  relay = s;
  pending_opens = [];
  pending_streams = [];
  by_quic = [];
  by_semantic = [];
  spawned = [];
}

-- The loop that pairs off both queues from the front.
unfoldable pub pair_off : LinkState → List OpenStream → List ℕ → LinkState
pair_off l (o ∷ os) (q ∷ qs) =
    pair_off
      (record l {
        by_quic = Keyed.insert ℕ_discrete q (o.stream_id, o.role) l.by_quic;
        by_semantic = Keyed.insert Text-discrete o.stream_id q l.by_semantic;
        spawned = l.spawned ++ ((o, q) ∷ []);
      })
      os qs
pair_off l os qs = record l { pending_opens = os; pending_streams = qs }

-- Only a stream that this link pushes is taken out.
unfoldable pub close_pushed : RelayState → Option (Text × StreamRole) → RelayState
close_pushed s (some (id, pushes)) = end_stream s id
close_pushed s _ = s

unfoldable pub close_by_number : LinkState → Text → ℕ → LinkState
unfolding close_pushed
close_by_number l id q = record l {
  relay = close_pushed l.relay (Keyed.lookup ℕ_discrete q l.by_quic);
  by_semantic = Keyed.remove Text-discrete id l.by_semantic;
  by_quic = Keyed.remove ℕ_discrete q l.by_quic;
}

unfoldable pub close_semantic : LinkState → Text → LinkState
unfolding close_by_number
close_semantic l id = elim (Keyed.lookup Text-discrete id l.by_semantic) [
  | none ↦ l
  | some q ↦ close_by_number l id q
]

-- One event, and then the pairing.
unfoldable pub link_round : LinkState → LinkEvent → LinkState
unfolding close_semantic pair_off
link_round l (opens o) = pair_off l (l.pending_opens ++ (o ∷ [])) l.pending_streams
link_round l (media_stream q) = pair_off l l.pending_opens (l.pending_streams ++ (q ∷ []))
link_round l (closes id) =
    let l' = close_semantic l id in pair_off l' l'.pending_opens l'.pending_streams
link_round l _ = pair_off l l.pending_opens l.pending_streams

-- The flag tells that the link has ended.
unfoldable pub quic_peer_loop : LinkState → List LinkEvent → LinkState × Bool
unfolding link_round
quic_peer_loop l [] = (l, false)
quic_peer_loop l (link_closed ∷ es) = (l, true)
quic_peer_loop l (e ∷ es) = quic_peer_loop (link_round l e) es

-- What reading the media stream of a push gives.
pub data MediaRead : Type 0 where
  frame : Frame → MediaRead
  finished : MediaRead
  read_failed : MediaRead
  timed_out : MediaRead

unfoldable pub push_frames : RelayState → Text → List MediaRead → RelayState × Bool
push_frames s id [] = (s, false)
push_frames s id (frame f ∷ rs) = push_frames (forward s id f) id rs
push_frames s id (_ ∷ rs) = (s, true)

abbrev pub hello_of : OpenStream → Hello
hello_of o = record {
  stream_id = o.stream_id;
  title = unwrap_or o.title [];
  video = o.video;
  audio = o.audio;
  share_token = o.share_token;
}

abbrev pub refused : RelayState → OpenStream → SessionCall → PushState
refused s o c = record {
  relay = s;
  stream_id = none;
  calls = c ∷ send (control (close_stream o.stream_id)) ∷ [];
  flow = returns;
}

module _ (from_token_string : Text → Option ShareToken) (local : Bool) (now : ℕ) where
  unfoldable pub quic_push_stream : RelayState → OpenStream → List MediaRead → PushState
  unfolding push_frames open_stream admits unwrap_or
  quic_push_stream s o rs =
      let id = o.stream_id in
      let (s', done) = push_frames (open_stream s (hello_of o) now) id rs in
      let opened = send (control (stream_opened id)) in
      let ended : PushState = record {
        relay = end_stream s' id;
        stream_id = some id;
        calls = opened ∷ send (control (close_stream id)) ∷ [];
        flow = breaks;
      } in
      let waits : PushState = record {
        relay = s';
        stream_id = some id;
        calls = opened ∷ [];
        flow = continues;
      } in
      if not (admits from_token_string s (hello_of o) local)
      then refused s o (send (control (error (not_authorized id))))
      else if is_some (get s id)
      then refused s o (send (control (error (already_there id))))
      else if done
      then ended
      else waits

-- Who takes a session over: the first message decides.
pub data Role : Type 0 where
  pusher : (first : Received) → Role
  watcher : (stream_id : Text) → Role
  rejected : List SessionCall → Role

unfoldable pub handle_connect : Received → Role
handle_connect (packet (control (hello h))) = pusher (packet (control (hello h)))
handle_connect (packet (control (watch id))) = watcher id
handle_connect (packet p) = rejected (send (control (error bad_first_message)) ∷ close ∷ [])
handle_connect _ = rejected (close ∷ [])
