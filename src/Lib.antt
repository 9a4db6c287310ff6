-- ===== src/Lib.antt =====
-- stross shares screens, sound and files between the devices of a local network. A frame of media
-- travels from a capture endpoint through a relay to a subscriber, which puts it in order, decodes it
-- and plays it at its time; two devices can also hold a peer channel for text and files; and a
-- negotiator decides who may subscribe to what. This library models these parts:
--
--   Proto       crates/stross-proto/src/frame.rs: `FrameHeader`, `Frame` (Proto/Frame) and
--               `FrameHeader2`, `Frame2` (Proto/Compact); crates/stross-proto/src/message/channel.rs:
--               `ChannelChunkHeader` (Proto/Chunk) and `ChannelMsg` (Proto/Message);
--               crates/stross-proto/src/message/ids: `MediaKind`, `EndpointId`, `NodeId` (Proto/Ids) and
--               `derive_stream_id` (Proto/Ids/Derive).
--   Pick        crates/stross-pick/src/buffer.rs: `JitterBuffer` with `push` and `poll` (Pick/Jitter).
--   Playback    crates/stross-endpoint/src/playback/schedule.rs: `PlaybackScheduler` with `push`,
--               `emit_due`, `emit_due_into`, `emit_due_with` and `drop_over_watermark`.
--   Codec       crates/stross-endpoint/src/codec/nal.rs: `AnnexBSplitter` (Codec/Splitter), `AccessUnitBuilder`
--               (Codec/Units),
--               `first_mb_in_slice` and `de_emulation_prevention` (Codec/Emulation).
--   Channel     crates/stross-kernel/src/channel/session.rs: `ChannelSession` with its handlers
--               (Channel/Session) and `sanitize_file_name` (Channel/FileName);
--               crates/stross-kernel/src/channel/manager.rs: `ChannelManager` (Channel/Manager).
--   Negotiator  crates/stross-kernel/src/negotiator/mod.rs: `policy_decision`, `handle_request`,
--               `respond`, `compose_grant` and the trust store.
--   Relay       crates/stross-kernel/src/relay/state.rs: `RelayState` (Relay) with its table in shards
--               (Relay/Table); crates/stross-kernel/src/relay/data_plane.rs: `handle_push_loop`
--               and `proxy_uplink` (Relay/Push), `handle_watch` and `quic_watch_stream` (Relay/Watch),
--               `quic_peer_loop`, `quic_push_stream` and `handle_connect` (Relay/Link), and tasks that
--               push, proxy and remove streams at the same time as a step relation (Relay/Run).
--   Kernel      crates/stross-kernel/src/kernel: `AuthPolicy` and the gate of a session (Kernel/Auth),
--               `build_session`, `ensure_session_with_id`, `negotiate` and `teardown` (Kernel/Sessions),
--               `create_share_token`, `issue_share_token_for` and `verify_share_token` (Kernel/Tokens), the
--               calls in any order as a step relation (Kernel/Run), and `start_stream` (Kernel/Streams).
--   Transport   crates/stross-transport/src/relay_url.rs: `RelayUrl` (Transport/RelayUrl).
--   Base        what the modules share: Boolean tests, lists by native numbers, little-endian bytes,
--               association lists for hash maps, decimal numbers, splitting of texts, and `Result`.
--
-- The jitter buffer holds the frames of Proto/Frame. A peer channel carries the chunk headers of
-- Proto/Chunk in such frames. The relay forwards such frames from a pusher to its watchers, by the stream
-- ids of Proto/Ids. The kernel tells its relay which streams may be pushed, and the relay asks it about
-- tokens. A handler is a function from the state to the new state; one that acts on
-- the outside returns what it does as a list of effects, in order. Inside a component the state is a
-- record with the fields of the source's struct.
--
-- Numbers are natural numbers; where the source's arithmetic wraps, the model has the remainder written
-- out. Instants and durations are nanoseconds. Counters for statistics do not wrap. Bytes are numbers, and
-- the theorems that need them below 256 say so. The loop of `poll` runs on fuel, one more than the
-- occupied slots and the capacity together, as each round empties a slot, passes a hole or is the last;
-- `poll-Drained` shows that it is enough.
-- The loop of `feed` runs on one more than the length of the buffer; `feed-Bounded` shows that it returns.
-- The loop of `first_mb_in_slice` runs on 33 rounds, one more than the zeros it accepts. A decimal number
-- has as many digits as its type needs: 20 for a u64, 10 for a u32 and 5 for a u16.
--
-- What a session, a broadcast channel or a link gives comes as a list, which may end before the loop that
-- reads it does. The frames that a relay broadcasts and the events that it emits are kept in its state, the
-- latest first.
--
-- Parameters: the searches of the package memchr (Codec/Splitter and Codec/Emulation), the answers of
-- the file system, of the clock and of the peer's transport (`Io` of Channel/Session), the parser of
-- share tokens and the numbers of receivers of a channel (Relay), the clock and the random digits of a
-- token (Kernel/Tokens), the capabilities of a source (Kernel), the engines that capture and send
-- (`Senders` of Kernel/Streams), and the kernel behind the negotiator (`KernelOps`), the interface
-- through which it works.
--
-- Not modelled: the parser of sequence parameter sets, the choice of a free
-- file name, the waiting of an upload for its decision, the relay's caches of peers and its HTTP
-- interface, the registry of endpoints, discovery,
-- the transports and media backends, which are input and output, and the application shells.
pub mod Base
pub mod Proto
pub mod Pick
pub mod Playback
pub mod Channel
pub mod Codec
pub mod Kernel
pub mod Negotiator
pub mod Relay
pub mod Transport
