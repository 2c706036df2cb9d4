-- ===== src/Ice/Agent.antt =====
-- media/ice/src/lib.rs: the state of the agent and how it learns of candidates. `none` stands for
-- a panic: an index of a slot map without the key, or a failed `unwrap`.
pub mod Candidates
use Prim.Native.String.{String}
use text.Mathlib.Text.{◌==◌ as str_eq}
use ezk.Common.{
  ℕ, ◌+◌, ◌/◌, ◌^◌, List, [], ◌∷◌, ◌++◌, Option, none, some, Bool, not, ◌&&◌, ◌||◌, length, any,
  filter, ltb, ◌==◌, if◌then◌else◌,
}
use ezk.Common.Maps.{lookup}
use ezk.Ice.Types.{
  ReceivedPkt, Component, IpAddr, SocketAddr, same_addr, IceGatheringState, IceConnectionState,
  CandidateKind, same_kind, Candidate, IceCredentials, CandidatePair, IceEvent,
}
use ezk.Ice.Stun.{StunConfig, StunServerBinding, default_config, new}
use ezk.Ice.Pairs.{pair_priority, local_priority, sort_by_priority, form_pairs}

pub record IceAgent : Type 0 where
  pub stun_config : StunConfig
  pub stun_server : List StunServerBinding
  pub local_credentials : IceCredentials
  pub remote_credentials : Option IceCredentials
  pub local_candidates : List (ℕ × Candidate)
  pub remote_candidates : List (ℕ × Candidate)
  pub pairs : List CandidatePair
  pub triggered_check_queue : List (ℕ × ℕ)
  pub rtcp_mux : Bool
  pub is_controlling : Bool
  pub control_tie_breaker : ℕ
  pub max_pairs : ℕ
  pub gathering_state : IceGatheringState
  pub connection_state : IceConnectionState
  pub last_ta_trigger : Option ℕ
  pub backlog : List ReceivedPkt
  pub events : List IceEvent

-- `new_from_answer` with `some` remote credentials, `new_for_offer` with none.
unfoldable pub new_agent : IceCredentials → Option IceCredentials → Bool → Bool → ℕ → IceAgent
new_agent local_credentials remote_credentials is_controlling rtcp_mux tie_breaker = record {
  stun_config = default_config;
  stun_server = [];
  local_credentials = local_credentials;
  remote_credentials = remote_credentials;
  local_candidates = [];
  remote_candidates = [];
  pairs = [];
  triggered_check_queue = [];
  rtcp_mux = rtcp_mux;
  is_controlling = is_controlling;
  control_tie_breaker = tie_breaker;
  max_pairs = 100;
  gathering_state = IceGatheringState.new;
  connection_state = IceConnectionState.new;
  last_ta_trigger = none;
  backlog = [];
  events = [];
}

-- `self.form_pairs()`.
unfoldable pub form : IceAgent → IceAgent
unfolding form_pairs
form a = record a {
  pairs = form_pairs a.is_controlling a.max_pairs a.local_candidates a.remote_candidates a.pairs;
}

abbrev pub kind_count : CandidateKind → List (ℕ × Candidate) → ℕ
kind_count kind candidates = length (filter (λ c. same_kind c.1.kind kind) candidates)

abbrev pub is_known : CandidateKind → SocketAddr → SocketAddr → List (ℕ × Candidate) → Bool
is_known kind base addr candidates =
    any (λ c. same_kind c.1.kind kind && (same_addr c.1.base base && same_addr c.1.addr addr))
      candidates

-- `insert` of the slot map gives the candidates with the new one. `foundation` is the decimal text
-- of a hash of the kind and the base address.
module _ (insert : List (ℕ × Candidate) → Candidate → List (ℕ × Candidate))
    (foundation : CandidateKind → IpAddr → String) where
  unfoldable pub add_local_candidate :
      IceAgent → Component → CandidateKind → SocketAddr → SocketAddr → IceAgent
  unfolding local_priority form
  add_local_candidate a component kind base addr =
      if is_known kind base addr a.local_candidates
      then a
      else form (record a {
        local_candidates = insert a.local_candidates (record {
          addr = addr;
          kind = kind;
          priority = local_priority kind component (kind_count kind a.local_candidates);
          foundation = foundation kind base.ip;
          component = component;
          base = base;
        });
      })

-- `is_loopback` or `is_unspecified`, and for IPv6 what `to_ipv4` or `to_ipv4_mapped` reads.
abbrev is_refused : IpAddr → Bool
is_refused (IpAddr.v4 ip) = (ip / 2 ^ 24) == 127 || ip == 0
is_refused (IpAddr.v6 ip) = (ip == 1 || ip == 0) || ((ip / 2 ^ 32) == 0 || (ip / 2 ^ 32) == 65535)

module _ (insert : List (ℕ × Candidate) → Candidate → List (ℕ × Candidate))
    (foundation : CandidateKind → IpAddr → String) where
  unfoldable pub add_host_addr : IceAgent → Component → SocketAddr → IceAgent
  unfolding add_local_candidate
  add_host_addr a component addr =
      if is_refused addr.ip
      then a
      else add_local_candidate insert foundation a component CandidateKind.host addr addr

-- `IceCandidate` of sdp-types, as far as it is read: a name in place of an address is `none`.
pub record IceCandidate : Type 0 where
  pub foundation : String
  pub component : ℕ
  pub transport : String
  pub priority : ℕ
  pub address : Option IpAddr
  pub port : ℕ
  pub typ : String

abbrev kind_of : String → Option CandidateKind
kind_of typ =
    if str_eq typ "host"
    then some CandidateKind.host
    else if str_eq typ "srflx"
    then some CandidateKind.server_reflexive
    else none

abbrev component_of : ℕ → Bool → Option Component
component_of component rtcp_mux =
    if component == 1
    then some Component.rtp
    else if component == 2 && not rtcp_mux
    then some Component.rtcp
    else none

-- `transport_is_udp` is `eq_ignore_ascii_case("udp")`.
module _ (insert : List (ℕ × Candidate) → Candidate → List (ℕ × Candidate))
    (transport_is_udp : String → Bool) where
  abbrev insert_remote :
      IceAgent → IceCandidate → CandidateKind → Component → IpAddr → Option IceAgent
  unfolding form
  insert_remote a c kind component ip =
      if ltb c.priority (2 ^ 32)
      then some (
          form (record a {
            remote_candidates = insert a.remote_candidates (record {
              addr = record { ip = ip; port = c.port };
              kind = kind;
              priority = c.priority;
              foundation = c.foundation;
              component = component;
              base = record { ip = ip; port = c.port };
            });
          }))
      else none

  abbrev add_remote_read :
      IceAgent
      → IceCandidate
      → Option CandidateKind
      → Option Component
      → Option IpAddr
      → Option IceAgent
  unfolding form
  add_remote_read a c none component ip = some a
  add_remote_read a c (some kind) none ip = some a
  add_remote_read a c (some kind) (some component) none = some a
  add_remote_read a c (some kind) (some component) (some ip) = insert_remote a c kind component ip

  unfoldable pub add_remote_candidate : IceAgent → IceCandidate → Option IceAgent
  unfolding form
  add_remote_candidate a c =
      if transport_is_udp c.transport
      then add_remote_read a c (kind_of c.typ) (component_of c.component a.rtcp_mux) c.address
      else some a

unfoldable pub add_stun_server : IceAgent → SocketAddr → IceAgent
unfolding new
add_stun_server a server = record a {
  stun_server =
      a.stun_server
      ++ (new server Component.rtp ∷ (if a.rtcp_mux then [] else new server Component.rtcp ∷ []));
}

abbrev pub push_event : IceAgent → IceEvent → IceAgent
push_event a event = record a { events = a.events ++ (event ∷ []) }

-- The next event, and the agent without it.
unfoldable pub pop_event : IceAgent → Option IceEvent × IceAgent
pop_event a = elim a.events [
  | [] ↦ (none, a)
  | event ∷ rest ↦ (some event, record a { events = rest })
]

unfoldable pub priority_found :
    Bool → CandidatePair → Option Candidate → Option Candidate → Option CandidatePair
unfolding pair_priority
priority_found c pair (some l) (some r) = some (record pair { priority = pair_priority l r c })
priority_found c pair (some l) none = none
priority_found c pair none r = none

unfoldable pub and_then_cons :
    Option CandidatePair → Option (List CandidatePair) → Option (List CandidatePair)
and_then_cons (some p) (some pairs) = some (p ∷ pairs)
and_then_cons (some p) none = none
and_then_cons none pairs = none

unfoldable pub recompute :
    Bool
    → List (ℕ × Candidate)
    → List (ℕ × Candidate)
    → List CandidatePair
    → Option (List CandidatePair)
unfolding lookup pair_priority priority_found and_then_cons
recompute c locals remotes [] = some []
recompute c locals remotes (pair ∷ pairs) =
    and_then_cons
      (priority_found c pair (lookup ◌==◌ pair.local locals) (lookup ◌==◌ pair.remote remotes))
      (recompute c locals remotes pairs)

unfoldable pub with_pairs : IceAgent → Option (List CandidatePair) → Option IceAgent
unfolding sort_by_priority
with_pairs a none = none
with_pairs a (some pairs) = some (record a { pairs = sort_by_priority pairs })

unfoldable pub recompute_pair_priorities : IceAgent → Option IceAgent
unfolding recompute sort_by_priority with_pairs
recompute_pair_priorities a =
    with_pairs a (recompute a.is_controlling a.local_candidates a.remote_candidates a.pairs)
