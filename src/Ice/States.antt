-- ===== src/Ice/States.antt =====
-- media/ice/src/lib.rs: `poll_state`, the gathering state and the connection state of the agent.
pub mod Connection
use ezk.Common.{List, Bool, true, false, not, ◌&&◌, any, if◌then◌else◌}
use ezk.Ice.Types.{
  Component, same_component, IceGatheringState, IceConnectionState, CandidatePair,
  gathering_state_changed, connection_state_changed,
}
use ezk.Ice.Stun.{StunServerBinding, is_completed}
use ezk.Ice.Agent.{IceAgent, push_event}
use ezk.Ice.Nomination.{is_succeeded, is_pending}

abbrev all_completed : List StunServerBinding → Bool
unfolding is_completed
all_completed servers = not (any (λ s. not (is_completed s)) servers)

abbrev pub same_gathering : IceGatheringState → IceGatheringState → Bool
same_gathering IceGatheringState.new IceGatheringState.new = true
same_gathering IceGatheringState.gathering IceGatheringState.gathering = true
same_gathering IceGatheringState.complete IceGatheringState.complete = true
same_gathering a b = false

abbrev pub same_connection : IceConnectionState → IceConnectionState → Bool
same_connection IceConnectionState.failed IceConnectionState.failed = true
same_connection IceConnectionState.disconnected IceConnectionState.disconnected = true
same_connection IceConnectionState.new IceConnectionState.new = true
same_connection IceConnectionState.checking IceConnectionState.checking = true
same_connection IceConnectionState.connected IceConnectionState.connected = true
same_connection a b = false

abbrev set_gathering_state : IceAgent → IceGatheringState → IceAgent
set_gathering_state a state =
    if same_gathering a.gathering_state state
    then a
    else record (push_event a (gathering_state_changed a.gathering_state state)) {
      gathering_state = state;
    }

unfoldable pub set_connection_state : IceAgent → IceConnectionState → IceAgent
set_connection_state a state =
    if same_connection a.connection_state state
    then a
    else record (push_event a (connection_state_changed a.connection_state state)) {
      connection_state = state;
    }

unfoldable pub poll_gathering_state : IceAgent → IceAgent
unfolding is_completed
poll_gathering_state a =
    if all_completed a.stun_server
    then set_gathering_state a IceGatheringState.complete
    else set_gathering_state a IceGatheringState.gathering

abbrev pub has_nomination : Component → List CandidatePair → Bool
has_nomination component pairs =
    any (λ p. same_component p.component component && (p.nominated && is_succeeded p.state)) pairs

abbrev pub in_progress : Component → List CandidatePair → Bool
in_progress component pairs =
    any (λ p. same_component p.component component && is_pending p.state) pairs

abbrev pub for_all_components : Bool → (Component → Bool) → Bool
for_all_components rtcp_mux test =
    if rtcp_mux then test Component.rtp else test Component.rtp && test Component.rtcp

abbrev pub still_possible_from : IceAgent → IceConnectionState → IceAgent
unfolding set_connection_state
still_possible_from a IceConnectionState.new = set_connection_state a IceConnectionState.checking
still_possible_from a IceConnectionState.connected =
    set_connection_state a IceConnectionState.disconnected
still_possible_from a state = a

unfoldable pub poll_connection_state : IceAgent → IceAgent
unfolding set_connection_state
poll_connection_state a =
    if for_all_components a.rtcp_mux (λ c. has_nomination c a.pairs)
    then set_connection_state a IceConnectionState.connected
    else if for_all_components a.rtcp_mux (λ c. in_progress c a.pairs)
    then still_possible_from a a.connection_state
    else set_connection_state a IceConnectionState.failed

unfoldable pub poll_state : IceAgent → IceAgent
unfolding poll_gathering_state poll_connection_state
poll_state a = poll_connection_state (poll_gathering_state a)
