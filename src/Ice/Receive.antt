-- ===== src/Ice/Receive.antt =====
-- media/ice/src/lib.rs: the STUN requests that the agent receives, role conflicts included, and
-- the dispatch of every message. `none` stands for a panic.
pub mod Requests
pub mod RoleConflict
use Prim.Native.String.{String}
use ezk.Common.{
  ℕ, ◌+◌, List, [], ◌∷◌, ◌++◌, Option, none, some, Bool, true, false, not, ◌&&◌, find, leb,
  if◌then◌else◌,
}
use ezk.Ice.Types.{
  IpAddr, SocketAddr, same_addr, CandidateKind, same_kind, Candidate, IceCredentials, priority,
  Class, CandidatePair, send_data, ReceivedPkt,
}
use ezk.Ice.Stun.{first, verify_integrity, make_success_response, make_role_error}
use ezk.Ice.Pairs.{key_is, add_candidate_pair}
use ezk.Ice.Agent.{IceAgent, push_event, recompute_pair_priorities}
use ezk.Ice.Nomination.{poll_nomination}
use ezk.Ice.Response.{
  read_priority, read_controlling, read_controlled, read_use_candidate, is_some, change_first,
  receive_stun_success, receive_stun_error,
}

-- What the detection of a role conflict comes to: an answer that ends the reception, or the agent
-- that goes on.
pub data Conflict : Type 0 where
  answered : IceAgent → Conflict
  goes_on : Option IceAgent → Conflict

abbrev pub answer_role_error : IceAgent → ReceivedPkt → IceCredentials → Bool → IceAgent
unfolding make_role_error
answer_role_error a pkt remote_credentials role = push_event a (
    send_data pkt.component
      (make_role_error pkt.msg.transaction_id a.local_credentials remote_credentials pkt.source role
        a.control_tie_breaker)
      (some pkt.destination.ip) pkt.source)

abbrev pub conflict_with : IceAgent → ReceivedPkt → IceCredentials → Bool → Option ℕ → Conflict
unfolding make_role_error recompute_pair_priorities
conflict_with a pkt remote_credentials role none = goes_on (some a)
conflict_with a pkt remote_credentials role (some tie) =
    if leb tie a.control_tie_breaker
    then answered (answer_role_error a pkt remote_credentials role)
    else goes_on (recompute_pair_priorities (record a { is_controlling = not role }))

unfoldable pub role_conflict : IceAgent → ReceivedPkt → IceCredentials → Conflict
unfolding make_role_error recompute_pair_priorities
role_conflict a pkt remote_credentials =
    if a.is_controlling
    then conflict_with a pkt remote_credentials true (first read_controlling pkt.msg.attributes)
    else conflict_with a pkt remote_credentials false (first read_controlled pkt.msg.attributes)

abbrev pub find_local : SocketAddr → List (ℕ × Candidate) → Option (ℕ × Candidate)
find_local addr candidates =
    find (λ c. same_kind c.1.kind CandidateKind.host && same_addr c.1.addr addr) candidates

abbrev pub find_remote : SocketAddr → List (ℕ × Candidate) → Option (ℕ × Candidate)
find_remote addr candidates = find (λ c. same_addr c.1.addr addr) candidates

abbrev pub set_use_candidate : Bool → CandidatePair → CandidatePair
set_use_candidate wanted p = record p { received_use_candidate = wanted }

-- `insert` of the slot map, and the key that it gives.
module _ (insert : List (ℕ × Candidate) → Candidate → List (ℕ × Candidate))
    (key : List (ℕ × Candidate) → ℕ) where
  -- The remote candidate with the source address, new if need be, and the agent with it.
  abbrev pub remote_for :
      IceAgent → ReceivedPkt → ℕ → ℕ × Candidate → Option (ℕ × Candidate) → ℕ × IceAgent
  unfolding add_candidate_pair
  remote_for a pkt prio l (some remote) = (remote.0, a)
  remote_for a pkt prio l none =
      let id = key a.remote_candidates in
      let remote : Candidate = record {
        addr = pkt.source;
        kind = CandidateKind.peer_reflexive;
        priority = prio;
        foundation = "~";
        component = pkt.component;
        base = pkt.source;
      } in
      (
        id,
        record a {
          remote_candidates = insert a.remote_candidates remote;
          pairs = add_candidate_pair l.0 l.1 id remote a.is_controlling a.pairs false;
          triggered_check_queue = a.triggered_check_queue ++ ((l.0, id) ∷ []);
        },
      )

  -- The answer for the pair of the two candidates; without that pair, `expect` panics.
  abbrev pub answer_pair :
      ReceivedPkt → Bool → ℕ × Candidate → ℕ × IceAgent → Option CandidatePair → Option IceAgent
  unfolding change_first make_success_response poll_nomination
  answer_pair pkt wanted l (remote_id, a) none = none
  answer_pair pkt wanted l (remote_id, a) (some pair) =
      let answered =
        push_event
          (record a {
            pairs = change_first (key_is l.0 remote_id) (set_use_candidate wanted) a.pairs;
          })
          (send_data pair.component
            (make_success_response pkt.msg.transaction_id a.local_credentials pkt.source)
            (some l.1.base.ip) pkt.source) in
      if wanted then poll_nomination answered else some answered

  abbrev pub answer_remote : ReceivedPkt → Bool → ℕ × Candidate → ℕ × IceAgent → Option IceAgent
  unfolding change_first make_success_response poll_nomination
  answer_remote pkt wanted l (remote_id, a) =
      answer_pair pkt wanted l (remote_id, a) (find (key_is l.0 remote_id) a.pairs)

  abbrev pub answer_local : IceAgent → ReceivedPkt → ℕ → Option (ℕ × Candidate) → Option IceAgent
  unfolding add_candidate_pair change_first make_success_response poll_nomination
  answer_local a pkt prio none = some a
  answer_local a pkt prio (some l) =
      answer_remote pkt (is_some (first read_use_candidate pkt.msg.attributes)) l
        (remote_for a pkt prio l (find_remote pkt.source a.remote_candidates))

  abbrev pub answer_request : ReceivedPkt → ℕ → Conflict → Option IceAgent
  unfolding add_candidate_pair change_first make_success_response poll_nomination
  answer_request pkt prio (answered a) = some a
  answer_request pkt prio (goes_on none) = none
  answer_request pkt prio (goes_on (some a)) =
      answer_local a pkt prio (find_local pkt.destination a.local_candidates)

  -- Without a priority, `unwrap` panics.
  abbrev pub request_with : IceAgent → ReceivedPkt → IceCredentials → Option ℕ → Option IceAgent
  unfolding add_candidate_pair change_first make_success_response poll_nomination role_conflict
  request_with a pkt remote_credentials none = none
  request_with a pkt remote_credentials (some prio) =
      answer_request pkt prio (role_conflict a pkt remote_credentials)

  abbrev pub request_checked : IceAgent → ReceivedPkt → Option IceCredentials → Option IceAgent
  unfolding add_candidate_pair change_first make_success_response poll_nomination role_conflict
      verify_integrity
  request_checked a pkt none = some (record a { backlog = a.backlog ++ (pkt ∷ []) })
  request_checked a pkt (some remote_credentials) =
      if verify_integrity a.local_credentials remote_credentials pkt.msg
      then request_with a pkt remote_credentials (first read_priority pkt.msg.attributes)
      else some a

  unfoldable pub receive_stun_request : IceAgent → ReceivedPkt → Option IceAgent
  unfolding add_candidate_pair change_first make_success_response poll_nomination role_conflict
      verify_integrity
  receive_stun_request a pkt = request_checked a pkt a.remote_credentials

  module _ (foundation : CandidateKind → IpAddr → String) where
    abbrev pub receive_class : IceAgent → ℕ → ReceivedPkt → Class → Option IceAgent
    unfolding receive_stun_request receive_stun_success receive_stun_error
    receive_class a now pkt Class.request = receive_stun_request a pkt
    receive_class a now pkt Class.indication = some a
    receive_class a now pkt Class.success = receive_stun_success insert foundation a now pkt
    receive_class a now pkt Class.error = receive_stun_error a pkt

    unfoldable pub receive_stun : IceAgent → ℕ → ReceivedPkt → Option IceAgent
    unfolding receive_stun_request receive_stun_success receive_stun_error
    receive_stun a now pkt = receive_class a now pkt pkt.msg.class
