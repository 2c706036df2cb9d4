-- ===== src/Tests/Ice.antt =====
-- The ICE agent on concrete candidates and pairs.
use ezk.Common.{
  ℕ, suc, ◌+◌, ◌≤◌, ◌≡◌, ◌≢◌, refl, [], ◌∷◌, ◌++◌, none, some, Bool, true, false, drop, replicate,
  All, arith,
}
use ezk.Ice.Types.{
  Component, IpAddr, SocketAddr, CandidateKind, Candidate, CandidatePair, CandidatePairState,
  InProgress, IceConnectionState, StunMessage, Class, send_data, use_addr,
}
use ezk.Ice.Stun.{StunServerBinding, default_config, is_completed, new}
use ezk.Ice.Pairs.{form_pairs, prune_pairs}
use ezk.Ice.Pairs.CheckList.{IsCheckList, form_pairs-IsCheckList, prune_pairs-keeps_lowest}
use ezk.Ice.Agent.{IceAgent, new_agent}
use ezk.Ice.Nomination.{poll_nomination}
use ezk.Ice.Nomination.Single.{nominated_count, Controlled}
use ezk.Ice.States.{poll_connection_state}
use ezk.Ice.Poll.Retransmit.{unanswered, checked, unanswered-failed}
use ezk.Ice.States.Connection.{
  Announces, settled, poll_connection_state-Announces, poll_nomination-never_connected,
}

abbrev pub address : ℕ → SocketAddr
address n = record { ip = IpAddr.v4 (3232235776 + n); port = 5000 }

abbrev candidate : ℕ → ℕ → Component → Candidate
candidate n priority component = record {
  addr = address n;
  kind = CandidateKind.host;
  priority = priority;
  foundation = "1";
  component = component;
  base = address n;
}

abbrev pub pair : ℕ → ℕ → Component → CandidatePairState → Bool → CandidatePair
pair n priority component state nominated = record {
  local = n;
  remote = n;
  priority = priority;
  state = state;
  component = component;
  received_use_candidate = true;
  nominated = nominated;
}

-- Both components have a pair that succeeded and that the peer wants to use.
abbrev pub agent : IceAgent
agent = record (new_agent (record { ufrag = "u"; pwd = "p" }) none false false 7) {
  local_candidates = (1, candidate 1 100 Component.rtp) ∷ (2, candidate 2 99 Component.rtcp) ∷ [];
  remote_candidates = (1, candidate 3 100 Component.rtp) ∷ (2, candidate 4 99 Component.rtcp) ∷ [];
  pairs =
      pair 2 99 Component.rtcp CandidatePairState.succeeded false
      ∷ pair 1 100 Component.rtp CandidatePairState.succeeded false
      ∷ [];
}

poll_connection_state-Announces_example :
    Announces agent (settled agent) (poll_connection_state agent)
poll_connection_state-Announces_example = poll_connection_state-Announces agent

-- A pair that succeeded counts as a failure until it is nominated, which `poll` does next.
agent_fails : (poll_connection_state agent).connection_state ≡ IceConnectionState.failed
unfolding poll_connection_state new_agent
agent_fails = refl

-- The agent after its nomination.
abbrev nominated_agent : IceAgent
nominated_agent = record agent {
  pairs =
      pair 2 99 Component.rtcp CandidatePairState.succeeded false
      ∷ pair 1 100 Component.rtp CandidatePairState.succeeded true
      ∷ [];
  events = use_addr Component.rtp (address 3) ∷ [];
}

agent_nominates : poll_nomination agent ≡ some nominated_agent
unfolding poll_nomination new_agent
agent_nominates = refl

agent-Controlled : Controlled agent
unfolding nominated_count new_agent
agent-Controlled = record { is_controlled = refl; without_mux = refl; at_most_one = omega arith }

poll_nomination-never_connected_example :
    (nominated_count nominated_agent.pairs ≤ 1)
    × ((poll_connection_state nominated_agent).connection_state ≢ IceConnectionState.connected)
poll_nomination-never_connected_example =
    poll_nomination-never_connected agent nominated_agent agent-Controlled agent_nominates

form_pairs-IsCheckList_example :
    IsCheckList 100 (form_pairs false 100 agent.local_candidates agent.remote_candidates [])
form_pairs-IsCheckList_example =
    form_pairs-IsCheckList false 100 agent.local_candidates agent.remote_candidates [] tt

prune_pairs-keeps_lowest_example :
    (prune_pairs 1 agent.pairs ++ drop 1 agent.pairs ≡ agent.pairs)
    × All (λ p. All (λ q. p.priority ≤ q.priority) (drop 1 agent.pairs)) (prune_pairs 1 agent.pairs)
prune_pairs-keeps_lowest_example =
    prune_pairs-keeps_lowest 1 agent.pairs ((omega arith, tt), (tt, tt))

abbrev message : StunMessage
message = record { class = Class.request; transaction_id = 1; attributes = [] }

abbrev check : InProgress
check = record {
  transaction_id = 1;
  stun_request = message;
  retransmit_at = 250;
  retransmits = 0;
  source = IpAddr.v4 3232235777;
  target = address 3;
}

abbrev waiting_pair : CandidatePair
waiting_pair = pair 1 100 Component.rtp CandidatePairState.waiting false

unanswered-failed_example :
    ((unanswered default_config (suc 7) (checked waiting_pair check)).0.state
      ≡ CandidatePairState.failed)
    × ((unanswered default_config (suc 7) (checked waiting_pair check)).1
        ≡ replicate 7
            (send_data waiting_pair.component check.stun_request (some check.source) check.target))
unanswered-failed_example = unanswered-failed default_config 7 waiting_pair check refl

abbrev low : Candidate
low = candidate 5 50 Component.rtp

abbrev bound : StunServerBinding
bound = record (new (address 9) Component.rtp) { last_mapped_addr = some (address 8) }

bound_completed : is_completed bound ≡ true
unfolding is_completed
bound_completed = refl
