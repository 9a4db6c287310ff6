-- ===== src/Relay/Link/Same.antt =====
-- A stream pushed over a QUIC link does to the relay what a session of its own does.
use stross.Base.{ℕ, ◌≡◌, refl, Bool, true, false, List, [], ◌∷◌, Option, some, arith, map}
use stross.Proto.Message.{Text}
use stross.Relay.{RelayState, ShareToken, forward, end_stream}
use stross.Relay.Push.{
  Received, packet, control, media, hello, disconnected, failed, silent, open_stream,
  handle_push_loop, handle_push,
}
use stross.Relay.Link.{
  OpenStream, MediaRead, frame, finished, read_failed, timed_out, push_frames, hello_of,
  quic_push_stream,
}

abbrev pub as_received : MediaRead → Received
as_received (frame f) = packet (media f)
as_received finished = disconnected
as_received read_failed = failed
as_received timed_out = silent

module _ (from_token_string : Text → Option ShareToken) (local : Bool) (now : ℕ) where
  abbrev after : RelayState × Bool → Text → RelayState
  after (s, true) id = end_stream s id
  after (s, false) id = s

  push_frames-loop :
      (s : RelayState) (id : Text) (rs : List MediaRead)
      → after (push_frames s id rs) id
        ≡ (handle_push_loop from_token_string local now s (some id) (map as_received rs)).relay
  unfolding push_frames handle_push_loop
  push_frames-loop s id [] = refl
  push_frames-loop s id (frame f ∷ rs) = push_frames-loop (forward s id f) id rs
  push_frames-loop s id (finished ∷ rs) = refl
  push_frames-loop s id (read_failed ∷ rs) = refl
  push_frames-loop s id (timed_out ∷ rs) = refl

  -- Whether it is let in or refused, goes on or ends: a stream pushed over a link leaves the relay as a
  -- session does that says Hello with the same fields and then gives the same frames and the same end.
  pub quic_push_stream-handle_push :
      (s : RelayState) (o : OpenStream) (rs : List MediaRead)
      → (quic_push_stream from_token_string local now s o rs).relay
        ≡ (handle_push from_token_string local now s
            (packet (control (hello (hello_of o))) ∷ map as_received rs)).relay
  unfolding quic_push_stream handle_push handle_push_loop
  quic_push_stream-handle_push s o rs =
      ground (arith, push_frames-loop (open_stream s (hello_of o) now) o.stream_id rs)
