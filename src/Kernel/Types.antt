-- ===== src/Kernel/Types.antt =====
-- The data of the session manager: crates/stross-kernel/src/kernel/session.rs, auth.rs and error.rs, and
-- the capabilities of crates/stross-proto/src/message.
use stross.Base.{ℕ, List, Option, Bool}
use stross.Proto.Message.{Text}
use stross.Proto.Ids.{MediaKind}
use stross.Proto.Ids.Derive.{ReliabilityProfile}
use stross.Relay.{RelayState, ShareToken}

pub data TransportId : Type 0 where
  ws web_rtc srt quic memory : TransportId

unfoldable pub TransportId-discrete : Discrete TransportId
TransportId-discrete = hlevel

pub data CodecId : Type 0 where
  h264 aac opus av1 : CodecId

pub data CapabilityKind : Type 0 where
  source sink : CapabilityKind

pub record CapabilityDescriptor : Type 0 where
  pub kind : CapabilityKind
  pub media : List MediaKind
  pub codecs : List CodecId
  pub transports : List TransportId
  pub max_width : Option ℕ
  pub max_height : Option ℕ
  pub preferred_profile : ReliabilityProfile

pub data RoutePath : Type 0 where
  direct : (node : Text) → RoutePath
  via_relay : (node : Text) → RoutePath
  mesh : (nodes : List Text) → RoutePath

pub record Negotiated : Type 0 where
  pub transport : TransportId
  pub codec : CodecId
  pub profile : ReliabilityProfile

pub record Session : Type 0 where
  pub id : Text
  pub title : Text
  pub source : Text
  pub sinks : List Text
  pub path : RoutePath
  pub negotiated : Negotiated
  pub requires_pin : Bool
  pub authorized : Bool

pub record SessionPrefs : Type 0 where
  pub profile : ReliabilityProfile
  pub preferred_transport : Option TransportId
  pub access_code : Option Text
  pub title : Text

pub data AuthError : Type 0 where
  code_required code_mismatch : AuthError

-- The texts of `Error::Token`, by what they say.
pub data TokenFault : Type 0 where
  not_issued : Text → TokenFault
  altered expired : TokenFault

-- The errors of sessions and streams; the texts of `Error::Message` are `no_sinks`, `no_backend` and
-- `already_streaming`.
pub data Error : Type 0 where
  no_sinks no_backend already_streaming : Error
  session_not_found : Text → Error
  pin_required pin_mismatch : Error
  token : TokenFault → Error
  internal : Text → Error

-- The kernel as far as sessions go. `caps_of` is what the graph of nodes returns for the name of a
-- source, the relay in `data_plane` the one that was attached.
pub record Kernel : Type 0 where
  pub sessions : List (Text × Session)
  pub pins : List (Text × Text)
  pub share_tokens : List (Text × ShareToken)
  pub data_plane : Option RelayState
  pub caps_of : Text → List CapabilityDescriptor
  pub next_id : ℕ
