-- ===== src/Negotiator/Types.antt =====
-- Endpoints, grants, requests, and the kernel as the negotiator sees it.
use stross.Base.{ℕ, List, Option, Bool}
use stross.Base.Result.{Result}
use stross.Proto.Message.{Text}
pub use stross.Proto.Ids.{
  MediaKind, screen, window, camera, mic, system_audio, input, clipboard, file, service, EndpointId,
}

pub data Visibility : Type 0 where
  public : Visibility
  confirm : Visibility
  private : (nodes : List ℕ) → Visibility

pub data Delivery : Type 0 where
  pull push both : Delivery

pub record EndpointStrategy : Type 0 where
  pub strategy_id : ℕ
  pub serialize : ℕ

-- The fields that the negotiator reads.
pub record EndpointManifest : Type 0 where
  pub endpoint_id : ℕ
  pub kind : MediaKind
  pub name : Text
  pub available : Bool
  pub visibility : Visibility
  pub transports : List ℕ
  pub transport_profile : ℕ
  pub pick_rule : ℕ

pub record ShareTokenView : Type 0 where
  pub token : Text
  pub stream_id : ℕ
  pub pin : Text
  pub expires_at : ℕ

pub record RelayAddr : Type 0 where
  pub ws_port : ℕ
  pub srt_port : Option ℕ
  pub quic_port : Option ℕ

pub record ShareGrant : Type 0 where
  pub view : ShareTokenView
  pub trusted : Bool
  pub delivery : Option Delivery
  pub transports : Option (List ℕ)
  pub transport_profile : Option ℕ
  pub pick_rule : Option ℕ
  pub strategy : Option EndpointStrategy
  pub relay : Option RelayAddr

pub record TrustedNode : Type 0 where
  pub name : Text
  pub added_at : ℕ

abbrev pub TrustStore : Type 0
TrustStore = List (ℕ × TrustedNode)

pub data Title : Type 0 where
  shared_by : Text → Title

-- What the negotiator asks of the kernel, whose state is `S`, of the strategies of a manifest and of the
-- loaders for them.
pub record KernelOps (S : Type 0) : Type 0 where
  pub endpoint_manifest : S → EndpointId → Option EndpointManifest
  pub active_share_by_endpoint : S → EndpointId → Option ℕ
  pub issue_share_token_for : S → Title → List MediaKind → Result Text ShareTokenView × S
  pub ensure_session_with_id : S → ℕ → Title → Result Text (Unit {0}) × S
  pub derive_stream_id : EndpointId → ℕ → ℕ → ℕ
  pub relay_ports : S → Option RelayAddr
  pub strategy_of : EndpointManifest → Option ℕ → EndpointStrategy
  pub has_loader : EndpointStrategy → Bool
  pub unsupported : EndpointStrategy → Text
  pub notify_subscribed : S → EndpointId → ShareGrant → ℕ → S

abbrev pub id_of : EndpointManifest → EndpointId
id_of m = record { kind = m.kind; id = m.endpoint_id }

pub record ShareRequest : Type 0 where
  pub node_id : ℕ
  pub node_name : Text
  pub endpoint_kind : Option MediaKind
  pub endpoint_id : Option ℕ
  pub media : List MediaKind
  pub strategy_id : Option ℕ

pub record PendingEntry : Type 0 where
  pub node_id : ℕ
  pub node_name : Text
  pub endpoint_id : Option EndpointId
  pub strategy_id : Option ℕ

pub data Answer : Type 0 where
  granted : ShareGrant → Answer
  bad_request : Answer
  forbidden : Answer
  not_found : Answer
  internal_error : Answer
  gateway_timeout : Answer
  parked : (req_id : ℕ) → Answer

-- What a parked request comes to: the user's answer, the end of its time, or a channel closed without an
-- answer.
pub data Waited : Type 0 where
  allowed : ShareGrant → Waited
  refused elapsed closed : Waited

pub data RespondError : Type 0 where
  unknown_request : RespondError
  not_granted : Text → RespondError

pub record Negotiator (S : Type 0) : Type 0 where
  pub app : S
  pub store : TrustStore
  pub pendings : List (ℕ × PendingEntry)
  pub next_id : ℕ
