-- ===== src/Ice/Response.antt =====
-- media/ice/src/lib.rs: the STUN responses that the agent receives, once they are parsed and their
-- fingerprint is checked. Every attribute of a message decodes. `none` stands for a panic: a
-- failed `unwrap` or `expect`, or an index of a slot map without the key.
pub mod Distinct
pub mod Invariant
use Prim.Native.String.{String}
use ezk.Common.{
  ℕ, ◌+◌, List, [], ◌∷◌, ◌++◌, Option, none, some, Bool, true, false, ◌||◌, find, ◌==◌,
  if◌then◌else◌,
}
use ezk.Common.Maps.{lookup}
use ezk.Ice.Types.{
  IpAddr, SocketAddr, same_addr, same_ip, CandidateKind, Candidate, IceCredentials, Attribute,
  priority, ice_controlling, ice_controlled, use_candidate, error_code, xor_mapped_address,
  CandidatePairState, CandidatePair, use_addr, ReceivedPkt,
}
use ezk.Ice.Stun.{
  StunConfig, StunServerBinding, wants_stun_response, receive_stun_response, first,
  verify_integrity,
}
use ezk.Ice.Agent.{IceAgent, push_event, add_local_candidate, recompute_pair_priorities}

abbrev pub read_mapped : Attribute → Option SocketAddr
read_mapped (xor_mapped_address addr) = some addr
read_mapped a = none

abbrev pub read_priority : Attribute → Option ℕ
read_priority (priority p) = some p
read_priority a = none

abbrev pub read_code : Attribute → Option ℕ
read_code (error_code number reason) = some number
read_code a = none

abbrev pub read_controlling : Attribute → Option ℕ
read_controlling (ice_controlling tie) = some tie
read_controlling a = none

abbrev pub read_controlled : Attribute → Option ℕ
read_controlled (ice_controlled tie) = some tie
read_controlled a = none

abbrev pub read_use_candidate : Attribute → Option Bool
read_use_candidate use_candidate = some true
read_use_candidate a = none

abbrev pub is_some {ℓ} : {A : Type ℓ} → Option A → Bool
is_some none = false
is_some (some a) = true

-- The first pair that passes the test is changed in place.
unfoldable pub change_first :
    (CandidatePair → Bool)
    → (CandidatePair → CandidatePair)
    → List CandidatePair
    → List CandidatePair
change_first test change [] = []
change_first test change (p ∷ pairs) =
    let rest = change_first test change pairs in if test p then change p ∷ pairs else p ∷ rest

abbrev pub in_progress_under : ℕ → CandidatePairState → Bool
in_progress_under id (CandidatePairState.in_progress p) = p.transaction_id == id
in_progress_under id state = false

abbrev pub is_checked_by : ℕ → CandidatePair → Bool
is_checked_by id pair = in_progress_under id pair.state

-- "The source and destination addresses are symmetric", as the code tests it.
abbrev pub is_symmetric : ReceivedPkt → CandidatePairState → Bool
is_symmetric pkt (CandidatePairState.in_progress p) =
    same_addr pkt.source p.target || same_ip pkt.destination.ip p.source
is_symmetric pkt state = false

abbrev pub succeed : CandidatePair → CandidatePair
succeed p = record p { state = CandidatePairState.succeeded }

abbrev pub fail : CandidatePair → CandidatePair
fail p = record p { nominated = false; state = CandidatePairState.failed }

abbrev pub wait_again : CandidatePair → CandidatePair
wait_again p = record p { state = CandidatePairState.waiting }

-- The event of a pair that was nominated.
abbrev pub use_nominated : IceAgent → Option Candidate → Option Candidate → Option IceAgent
use_nominated a (some l) (some r) = some (push_event a (use_addr l.component r.addr))
use_nominated a (some l) none = none
use_nominated a none r = none

module _ (insert : List (ℕ × Candidate) → Candidate → List (ℕ × Candidate))
    (foundation : CandidateKind → IpAddr → String) where
  abbrev pub discover_mapped :
      IceAgent → ReceivedPkt → CandidatePair → SocketAddr → Option Candidate → Option IceAgent
  unfolding add_local_candidate
  discover_mapped a pkt pair mapped none = none
  discover_mapped a pkt pair mapped (some l) =
      if same_addr mapped l.addr
      then some a
      else some (
          add_local_candidate insert foundation a pair.component CandidateKind.peer_reflexive
            pkt.destination mapped)

  -- The end of `receive_stun_success`: a new peer-reflexive candidate.
  abbrev pub discover :
      ReceivedPkt → CandidatePair → Option SocketAddr → Option IceAgent → Option IceAgent
  unfolding add_local_candidate lookup
  discover pkt pair mapped none = none
  discover pkt pair none (some a) = some a
  discover pkt pair (some mapped) (some a) =
      discover_mapped a pkt pair mapped (lookup ◌==◌ pair.local a.local_candidates)

  abbrev pub with_first :
      (CandidatePair → Bool) → (CandidatePair → CandidatePair) → IceAgent → IceAgent
  unfolding change_first
  with_first test change a = record a { pairs = change_first test change a.pairs }

  abbrev pub settle_pair : IceAgent → ReceivedPkt → CandidatePair → Option IceAgent
  unfolding change_first lookup
  settle_pair a pkt pair =
      let id = pkt.msg.transaction_id in
      if is_symmetric pkt pair.state
      then (if pair.nominated
          then use_nominated (with_first (is_checked_by id) succeed a)
              (lookup ◌==◌ pair.local a.local_candidates)
              (lookup ◌==◌ pair.remote a.remote_candidates)
          else some (with_first (is_checked_by id) succeed a))
      else some (with_first (is_checked_by id) fail a)

  abbrev pub success_for : IceAgent → ReceivedPkt → Option CandidatePair → Option IceAgent
  unfolding change_first lookup add_local_candidate
  success_for a pkt none = some a
  success_for a pkt (some pair) =
      discover pkt pair (first read_mapped pkt.msg.attributes) (settle_pair a pkt pair)

  unfoldable pub success_checked : IceAgent → ReceivedPkt → Option IceCredentials → Option IceAgent
  unfolding change_first lookup add_local_candidate verify_integrity
  success_checked a pkt none = some (record a { backlog = a.backlog ++ (pkt ∷ []) })
  success_checked a pkt (some remote_credentials) =
      if verify_integrity a.local_credentials remote_credentials pkt.msg
      then success_for a pkt (find (is_checked_by pkt.msg.transaction_id) a.pairs)
      else some a

  -- The first binding that wants the response, with the bindings after it has received it.
  abbrev pub give_response :
      StunConfig → ℕ → SocketAddr → ℕ → List StunServerBinding → List StunServerBinding
  unfolding wants_stun_response receive_stun_response
  give_response config now mapped id [] = []
  give_response config now mapped id (s ∷ servers) =
      let rest = give_response config now mapped id servers in
      if wants_stun_response s id
      then receive_stun_response config now s mapped ∷ servers
      else s ∷ rest

  abbrev pub server_success :
      IceAgent → ℕ → ReceivedPkt → StunServerBinding → Option SocketAddr → IceAgent
  unfolding wants_stun_response receive_stun_response add_local_candidate
  server_success a now pkt server none = a
  server_success a now pkt server (some mapped) =
      add_local_candidate insert foundation
        (record a {
          stun_server = give_response a.stun_config now mapped pkt.msg.transaction_id a.stun_server;
        })
        server.component CandidateKind.server_reflexive pkt.destination mapped

  unfoldable pub success_from :
      IceAgent → ℕ → ReceivedPkt → Option StunServerBinding → Option IceAgent
  unfolding success_checked change_first lookup add_local_candidate verify_integrity
      wants_stun_response receive_stun_response
  success_from a now pkt none = success_checked a pkt a.remote_credentials
  success_from a now pkt (some server) =
      some (server_success a now pkt server (first read_mapped pkt.msg.attributes))

  -- `now` is the `Instant::now()` of the binding.
  unfoldable pub receive_stun_success : IceAgent → ℕ → ReceivedPkt → Option IceAgent
  unfolding success_from success_checked change_first lookup add_local_candidate verify_integrity
      wants_stun_response receive_stun_response
  receive_stun_success a now pkt =
      success_from a now pkt
        (find (λ s. wants_stun_response s pkt.msg.transaction_id) a.stun_server)

-- The role that the attributes of a 487 error ask for.
abbrev pub switch_role : List Attribute → IceAgent → IceAgent
switch_role attributes a =
    if is_some (first read_controlled attributes)
    then record a { is_controlling = true }
    else if is_some (first read_controlling attributes)
    then record a { is_controlling = false }
    else a

abbrev pub error_with : IceAgent → ReceivedPkt → CandidatePair → Option ℕ → Option IceAgent
unfolding change_first recompute_pair_priorities
error_with a pkt pair none = some a
error_with a pkt pair (some code) =
    if code == 487
    then recompute_pair_priorities (
        switch_role pkt.msg.attributes (record a {
          pairs = change_first (is_checked_by pkt.msg.transaction_id) wait_again a.pairs;
          triggered_check_queue = a.triggered_check_queue ++ ((pair.local, pair.remote) ∷ []);
        }))
    else some a

abbrev pub error_for : IceAgent → ReceivedPkt → Option CandidatePair → Option IceAgent
unfolding change_first recompute_pair_priorities
error_for a pkt none = some a
error_for a pkt (some pair) = error_with a pkt pair (first read_code pkt.msg.attributes)

abbrev pub error_checked : IceAgent → ReceivedPkt → Option IceCredentials → Option IceAgent
unfolding change_first recompute_pair_priorities verify_integrity
error_checked a pkt none = some (record a { backlog = a.backlog ++ (pkt ∷ []) })
error_checked a pkt (some remote_credentials) =
    if verify_integrity a.local_credentials remote_credentials pkt.msg
    then error_for a pkt (find (is_checked_by pkt.msg.transaction_id) a.pairs)
    else some a

unfoldable pub receive_stun_error : IceAgent → ReceivedPkt → Option IceAgent
unfolding change_first recompute_pair_priorities verify_integrity
receive_stun_error a pkt = error_checked a pkt a.remote_credentials
