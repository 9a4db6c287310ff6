-- ===== src/Relay/Types.antt =====
-- The data of a relay: crates/stross-kernel/src/relay/state.rs, and the stream information and the
-- token of crates/stross-proto/src/message.
use stross.Base.{ℕ, List, Option, Bool}
use stross.Proto.Message.{Text}
use stross.Proto.Frame.{Frame}
use stross.Proto.Ids.{MediaKind}

pub record TrackInfo : Type 0 where
  pub codec : ℕ
  pub width : Option ℕ
  pub height : Option ℕ
  pub fps : Option ℕ
  pub sample_rate : Option ℕ
  pub channels : Option ℕ

pub record StreamInfo : Type 0 where
  pub stream_id : Text
  pub title : Text
  pub video : Option TrackInfo
  pub audio : Option TrackInfo
  pub started_at : ℕ
  pub watchers : ℕ

pub data RelayEvent : Type 0 where
  stream_started : (stream_id : Text) → (info : StreamInfo) → RelayEvent
  stream_ended : (stream_id : Text) → RelayEvent
  watchers_changed : (stream_id : Text) → (watchers : ℕ) → RelayEvent

-- `tx` names the broadcast channel of the stream: two entries with one number share the channel.
pub record StreamEntry : Type 0 where
  pub info : StreamInfo
  pub tx : ℕ
  pub last_keyframe : Option Frame

-- `task` names the task that pulls from the upstream relay.
pub record ProxyEntry : Type 0 where
  pub upstream : Text
  pub task : ℕ

pub record ShareToken : Type 0 where
  pub v : ℕ
  pub stream_id : Text
  pub pin : Text
  pub expires_at : ℕ
  pub media : List MediaKind

pub data RelayOpError : Type 0 where
  proxy_exists : Text → RelayOpError
  stream_exists : Text → RelayOpError

-- The table of streams is cut into shards. What leaves the relay is kept in the order in which it
-- leaves, the latest first: the events emitted, the frames sent on a broadcast channel, and the
-- tasks aborted. The caches of discovered peers and of pending WebRTC peers and the manager of peer
-- channels are left out. `next_tx` and `next_task` name what is made next.
pub record RelayState : Type 0 where
  pub streams : List (List (Text × StreamEntry))
  pub proxies : List (Text × ProxyEntry)
  pub allowed : List (Text × Unit {0})
  pub token_validator : Option (ShareToken → Bool)
  pub controlled : Bool
  pub port : ℕ
  pub srt_port : Option ℕ
  pub quic_port : Option ℕ
  pub events : List RelayEvent
  pub sent : List (ℕ × Frame)
  pub aborted : List ℕ
  pub next_tx : ℕ
  pub next_task : ℕ
