-- ===== src/Tests/Peers.antt =====
-- The ICE agent on concrete messages and addresses of its peer.
use ezk.Common.{
  find, ℕ, ◌+◌, ◌≡◌, refl, List, [], ◌∷◌, ◌++◌, none, some, Bool, true, false, length, any, ◌||◌,
  arith,
}
use Prim.Native.String.{String}
use ezk.Ice.Types.{
  ReceivedPkt, Attribute, username, use_candidate, message_integrity, fingerprint, Component,
  IpAddr, CandidateKind, Candidate, CandidatePairState, Class, send_data, use_addr,
}
use ezk.Ice.Receive.{receive_stun}
use ezk.Ice.Receive.Requests.{receive_stun-IsDistinct}
use ezk.Ice.Receive.RoleConflict.{make_role_error-discarded}
use ezk.Ice.Pairs.Forming.{IsDistinct}
use ezk.Ice.Stun.{make_success_response, make_role_error, wants_stun_response}
use ezk.Ice.Agent.{IceAgent, new_agent}
use ezk.Tests.Ice.{address, pair, agent}

-- A slot map that puts what is inserted behind what it has.
abbrev append : List (ℕ × Candidate) → Candidate → List (ℕ × Candidate)
append m c = m ++ ((length m, c) ∷ [])

any-append :
    (f : Candidate → Bool) (m : List (ℕ × Candidate)) (c : Candidate)
    → any (λ e. f e.1) (append m c) ≡ (f c || any (λ e. f e.1) m)
any-append f m c = go m (length m)
  where
    go :
        (m : List (ℕ × Candidate)) (n : ℕ)
        → any (λ e. f e.1) (m ++ ((n, c) ∷ [])) ≡ (f c || any (λ e. f e.1) m)
    go [] n = refl
    go (x ∷ m) n = ground (arith, go m n)

abbrev one_foundation : CandidateKind → IpAddr → String
one_foundation kind ip = "1"

abbrev answered_request : ReceivedPkt
answered_request = record {
  msg = record {
    class = Class.request;
    transaction_id = 5;
    attributes =
        username "u:r"
        ∷ Attribute.priority 77
        ∷ use_candidate
        ∷ message_integrity "p"
        ∷ fingerprint
        ∷ [];
  };
  source = address 3;
  destination = address 1;
  component = Component.rtp;
}

abbrev connected_agent : IceAgent
connected_agent = record agent { remote_credentials = some (record { ufrag = "r"; pwd = "q" }) }

abbrev fresh_key : List (ℕ × Candidate) → ℕ
fresh_key m = length m + 100

-- The agent marks the pair, answers, and nominates it.
abbrev answered_agent : IceAgent
answered_agent = record connected_agent {
  pairs =
      pair 2 99 Component.rtcp CandidatePairState.succeeded false
      ∷ pair 1 100 Component.rtp CandidatePairState.succeeded true
      ∷ [];
  events =
      send_data Component.rtp
        (make_success_response 5 (record { ufrag = "u"; pwd = "p" }) (address 3))
        (some (IpAddr.v4 3232235777)) (address 3)
      ∷ use_addr Component.rtp (address 3)
      ∷ [];
}

request_answered :
    receive_stun append fresh_key one_foundation connected_agent 0 answered_request
    ≡ some answered_agent
unfolding receive_stun new_agent
request_answered = refl

connected-IsDistinct : IsDistinct connected_agent.pairs
connected-IsDistinct = (refl, (refl, tt))

receive_stun-IsDistinct_example : IsDistinct answered_agent.pairs
receive_stun-IsDistinct_example =
    receive_stun-IsDistinct append fresh_key one_foundation connected_agent answered_agent 0
      answered_request connected-IsDistinct request_answered

connected_idle : find (λ s. wants_stun_response s 5) connected_agent.stun_server ≡ none
unfolding new_agent
connected_idle = refl

make_role_error-discarded_example :
    receive_stun append fresh_key one_foundation connected_agent 0 (record answered_request {
      msg =
          make_role_error 5
            (record { ufrag = "r"; pwd = "q" })
            (record { ufrag = "u"; pwd = "p" })
            (address 1)
            false
            9;
    })
    ≡ some connected_agent
make_role_error-discarded_example =
    make_role_error-discarded append fresh_key one_foundation connected_agent
      (record { ufrag = "r"; pwd = "q" }) (record { ufrag = "u"; pwd = "p" }) answered_request 5 0 9
      false (address 1) refl refl connected_idle
