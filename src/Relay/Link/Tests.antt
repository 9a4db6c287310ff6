-- ===== src/Relay/Link/Tests.antt =====
-- The theorems on links at concrete inputs.
use mathlib.Core.List.{zip}
use stross.Base.{◌≡◌, true, List, [], ◌∷◌, map, none}
use stross.Relay.Push.{packet, control, hello, handle_push}
use stross.Relay.Link.{
  OpenStream, frame, finished, pushes, opens, media_stream, link_closed, new_link, quic_peer_loop,
  quic_push_stream, hello_of, LinkEvent,
}
use stross.Relay.Link.Same.{as_received, quic_push_stream-handle_push}
use stross.Relay.Link.Pairing.{opens_of, streams_of, quic_peer_loop-zip}
use stross.Relay.Fixtures.{no_tokens, open_relay, shot}

abbrev asks_a : OpenStream
asks_a = record {
  stream_id = 97 ∷ [];
  role = pushes;
  title = none;
  video = none;
  audio = none;
  share_token = none;
}

quic_push_stream-handle_push_example :
    (quic_push_stream no_tokens true 5 open_relay asks_a (frame (shot 1 1) ∷ finished ∷ [])).relay
    ≡ (handle_push no_tokens true 5 open_relay (
        packet (control (hello (hello_of asks_a)))
        ∷ map as_received (frame (shot 1 1) ∷ finished ∷ []))).relay
quic_push_stream-handle_push_example =
    quic_push_stream-handle_push no_tokens true 5 open_relay asks_a
      (frame (shot 1 1) ∷ finished ∷ [])

abbrev link_events : List LinkEvent
link_events = media_stream 4 ∷ opens asks_a ∷ media_stream 8 ∷ link_closed ∷ []

quic_peer_loop-zip_example :
    (quic_peer_loop (new_link open_relay) link_events).0.spawned
    ≡ zip (opens_of link_events) (streams_of link_events)
quic_peer_loop-zip_example = quic_peer_loop-zip open_relay link_events
