-- ===== src/Ice/Types.antt =====
-- media/ice/src/lib.rs: the data of the ICE agent. An IP address is its number, a candidate id is
-- the key of a slot map, and the candidates are listed in the order in which their map gives them.
-- Instants and durations are counted in milliseconds.
use Prim.Native.String.{String}
use ezk.Common.{ℕ, List, Option, Bool, false, ◌&&◌, ◌==◌}

pub data Component : Type 0 where
  rtp rtcp : Component

abbrev pub component_id : Component → ℕ
component_id Component.rtp = 1
component_id Component.rtcp = 2

abbrev pub same_component : Component → Component → Bool
same_component a b = component_id a == component_id b

pub data IpAddr : Type 0 where
  v4 v6 : ℕ → IpAddr

pub record SocketAddr : Type 0 where
  pub ip : IpAddr
  pub port : ℕ

abbrev pub same_ip : IpAddr → IpAddr → Bool
same_ip (IpAddr.v4 a) (IpAddr.v4 b) = a == b
same_ip (IpAddr.v6 a) (IpAddr.v6 b) = a == b
same_ip (IpAddr.v4 a) (IpAddr.v6 b) = false
same_ip (IpAddr.v6 a) (IpAddr.v4 b) = false

abbrev pub same_addr : SocketAddr → SocketAddr → Bool
same_addr a b = same_ip a.ip b.ip && a.port == b.port

pub data IceGatheringState : Type 0 where
  new gathering complete : IceGatheringState

pub data IceConnectionState : Type 0 where
  failed disconnected new checking connected : IceConnectionState

pub data CandidateKind : Type 0 where
  host peer_reflexive server_reflexive : CandidateKind

-- `kind as u32`.
abbrev pub kind_value : CandidateKind → ℕ
kind_value CandidateKind.host = 126
kind_value CandidateKind.peer_reflexive = 110
kind_value CandidateKind.server_reflexive = 100

abbrev pub same_kind : CandidateKind → CandidateKind → Bool
same_kind a b = kind_value a == kind_value b

pub record Candidate : Type 0 where
  pub addr : SocketAddr
  pub kind : CandidateKind
  pub priority : ℕ
  pub foundation : String
  pub component : Component
  pub base : SocketAddr

pub record IceCredentials : Type 0 where
  pub ufrag : String
  pub pwd : String

-- What a `MessageBuilder` is given, in order; the integrity attribute with its key.
pub data Attribute : Type 0 where
  username : String → Attribute
  priority : ℕ → Attribute
  ice_controlling ice_controlled : ℕ → Attribute
  use_candidate : Attribute
  error_code : ℕ → String → Attribute
  xor_mapped_address : SocketAddr → Attribute
  message_integrity : String → Attribute
  fingerprint : Attribute

pub data Class : Type 0 where
  request indication success error : Class

-- The message that `finish` turns into bytes; its method is always Binding.
pub record StunMessage : Type 0 where
  pub class : Class
  pub transaction_id : ℕ
  pub attributes : List Attribute

pub record InProgress : Type 0 where
  pub transaction_id : ℕ
  pub stun_request : StunMessage
  pub retransmit_at : ℕ
  pub retransmits : ℕ
  pub source : IpAddr
  pub target : SocketAddr

pub data CandidatePairState : Type 0 where
  waiting succeeded failed : CandidatePairState
  in_progress : InProgress → CandidatePairState

pub record CandidatePair : Type 0 where
  pub local : ℕ
  pub remote : ℕ
  pub priority : ℕ
  pub state : CandidatePairState
  pub component : Component
  pub received_use_candidate : Bool
  pub nominated : Bool

pub data IceEvent : Type 0 where
  gathering_state_changed : IceGatheringState → IceGatheringState → IceEvent
  connection_state_changed : IceConnectionState → IceConnectionState → IceEvent
  use_addr : Component → SocketAddr → IceEvent
  send_data : Component → StunMessage → Option IpAddr → SocketAddr → IceEvent

-- `ReceivedPkt` with a parsed message.
pub record ReceivedPkt : Type 0 where
  pub msg : StunMessage
  pub source : SocketAddr
  pub destination : SocketAddr
  pub component : Component
