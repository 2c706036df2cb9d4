-- ===== src/Ice/Response/Invariant.antt =====
-- Success and error responses keep the pairs of the agent of media/ice/src/lib.rs distinct.
use ezk.Common.{ℕ, ◌≡◌, refl, List, [], ◌∷◌, ◌++◌, Option, none, some, Bool, find, if-elim, ◌==◌}
use Prim.Native.String.{String}
use ezk.Common.Maps.{lookup}
use ezk.Ice.Types.{
  IpAddr, same_addr, SocketAddr, CandidateKind, Candidate, CandidatePair, IceCredentials,
  ReceivedPkt, Attribute,
}
use ezk.Ice.Stun.{StunServerBinding, verify_integrity, first}
use ezk.Ice.Pairs.Forming.{IsDistinct}
use ezk.Ice.Agent.{IceAgent}
use ezk.Ice.Nomination.{nominate}
use ezk.Ice.Response.{
  change_first, is_checked_by, is_symmetric, succeed, fail, wait_again, use_nominated,
  discover_mapped, discover, with_first, settle_pair, success_for, success_checked, give_response,
  server_success, success_from, read_mapped, switch_role, error_with, error_for, error_checked,
  read_code, read_controlling, read_controlled, is_some,
}
use ezk.Ice.Response.Distinct.{
  key_of, keys-IsDistinct, keys-change_first, keys-nominate, Distinct,
  recompute_pair_priorities-Distinct, add_local_candidate-Distinct,
}

pub nominate-IsDistinct :
    (pair : CandidatePair) (pairs : List CandidatePair)
    → IsDistinct pairs
    → IsDistinct (nominate pair pairs)
nominate-IsDistinct pair pairs =
    keys-IsDistinct pairs (nominate pair pairs) (keys-nominate pair pairs)

pub change_first-IsDistinct :
    (test : CandidatePair → Bool) (change : CandidatePair → CandidatePair)
    (pairs : List CandidatePair)
    → ((p : CandidatePair) → key_of (change p) ≡ key_of p)
    → IsDistinct pairs
    → IsDistinct (change_first test change pairs)
change_first-IsDistinct test change pairs k =
    keys-IsDistinct pairs (change_first test change pairs) (keys-change_first test change pairs k)

module _ (insert : List (ℕ × Candidate) → Candidate → List (ℕ × Candidate))
    (foundation : CandidateKind → IpAddr → String) where
  discover_mapped-Distinct :
      (a : IceAgent) (pkt : ReceivedPkt) (pair : CandidatePair) (mapped : SocketAddr)
      (l : Option Candidate)
      → IsDistinct a.pairs
      → Distinct (discover_mapped insert foundation a pkt pair mapped l)
  unfolding discover_mapped
  discover_mapped-Distinct a pkt pair mapped none h = tt
  discover_mapped-Distinct a pkt pair mapped (some l) h =
      if-elim Distinct (same_addr mapped l.addr) (λ e. h)
        (λ e.
          add_local_candidate-Distinct insert foundation a pair.component
            CandidateKind.peer_reflexive pkt.destination mapped h)

  discover-Distinct :
      (pkt : ReceivedPkt) (pair : CandidatePair) (mapped : Option SocketAddr) (o : Option IceAgent)
      → Distinct o
      → Distinct (discover insert foundation pkt pair mapped o)
  unfolding discover
  discover-Distinct pkt pair mapped none h = tt
  discover-Distinct pkt pair none (some a) h = h
  discover-Distinct pkt pair (some mapped) (some a) h =
      discover_mapped-Distinct a pkt pair mapped (lookup ◌==◌ pair.local a.local_candidates) h

  use_nominated-Distinct :
      (a : IceAgent) (l r : Option Candidate) → IsDistinct a.pairs → Distinct (use_nominated a l r)
  use_nominated-Distinct a none r h = tt
  use_nominated-Distinct a (some l) none h = tt
  use_nominated-Distinct a (some l) (some r) h = h

  settle_pair-Distinct :
      (a : IceAgent) (pkt : ReceivedPkt) (pair : CandidatePair)
      → IsDistinct a.pairs
      → Distinct (settle_pair insert foundation a pkt pair)
  unfolding settle_pair with_first
  settle_pair-Distinct a pkt pair h =
      let test = is_checked_by pkt.msg.transaction_id in
      let succeeded = change_first-IsDistinct test succeed a.pairs (λ p. refl) h in
      if-elim Distinct (is_symmetric pkt pair.state)
        (λ e.
          if-elim Distinct pair.nominated
            (λ n.
              use_nominated-Distinct (record a { pairs = change_first test succeed a.pairs })
                (lookup ◌==◌ pair.local a.local_candidates)
                (lookup ◌==◌ pair.remote a.remote_candidates) succeeded)
            (λ n. succeeded))
        (λ e. change_first-IsDistinct test fail a.pairs (λ p. refl) h)

  success_for-Distinct :
      (a : IceAgent) (pkt : ReceivedPkt) (pair : Option CandidatePair)
      → IsDistinct a.pairs
      → Distinct (success_for insert foundation a pkt pair)
  unfolding success_for
  success_for-Distinct a pkt none h = h
  success_for-Distinct a pkt (some pair) h =
      discover-Distinct pkt pair (first read_mapped pkt.msg.attributes)
        (settle_pair insert foundation a pkt pair) (settle_pair-Distinct a pkt pair h)

  success_checked-Distinct :
      (a : IceAgent) (pkt : ReceivedPkt) (credentials : Option IceCredentials)
      → IsDistinct a.pairs
      → Distinct (success_checked insert foundation a pkt credentials)
  unfolding success_checked
  success_checked-Distinct a pkt none h = h
  success_checked-Distinct a pkt (some credentials) h =
      if-elim Distinct (verify_integrity a.local_credentials credentials pkt.msg)
        (λ e. success_for-Distinct a pkt (find (is_checked_by pkt.msg.transaction_id) a.pairs) h)
        (λ e. h)

  server_success-IsDistinct :
      (a : IceAgent) (now : ℕ) (pkt : ReceivedPkt) (server : StunServerBinding)
      (mapped : Option SocketAddr)
      → IsDistinct a.pairs
      → IsDistinct (server_success insert foundation a now pkt server mapped).pairs
  unfolding server_success
  server_success-IsDistinct a now pkt server none h = h
  server_success-IsDistinct a now pkt server (some mapped) h =
      add_local_candidate-Distinct insert foundation
        (record a {
          stun_server =
              give_response insert foundation a.stun_config now mapped pkt.msg.transaction_id
                a.stun_server;
        })
        server.component CandidateKind.server_reflexive pkt.destination mapped h

  pub success_from-Distinct :
      (a : IceAgent) (now : ℕ) (pkt : ReceivedPkt) (server : Option StunServerBinding)
      → IsDistinct a.pairs
      → Distinct (success_from insert foundation a now pkt server)
  unfolding success_from
  success_from-Distinct a now pkt none h = success_checked-Distinct a pkt a.remote_credentials h
  success_from-Distinct a now pkt (some server) h =
      server_success-IsDistinct a now pkt server (first read_mapped pkt.msg.attributes) h

switch_role-IsDistinct :
    (attributes : List Attribute) (a : IceAgent)
    → IsDistinct a.pairs
    → IsDistinct (switch_role attributes a).pairs
switch_role-IsDistinct attributes a h =
    if-elim (λ (b : IceAgent). IsDistinct b.pairs) (is_some (first read_controlled attributes))
      (λ e. h)
      (λ e.
        if-elim (λ (b : IceAgent). IsDistinct b.pairs) (is_some (first read_controlling attributes))
          (λ n. h) (λ n. h))

error_with-Distinct :
    (a : IceAgent) (pkt : ReceivedPkt) (pair : CandidatePair) (code : Option ℕ)
    → IsDistinct a.pairs
    → Distinct (error_with a pkt pair code)
unfolding error_with
error_with-Distinct a pkt pair none h = h
error_with-Distinct a pkt pair (some code) h =
    let waiting = record a {
      pairs = change_first (is_checked_by pkt.msg.transaction_id) wait_again a.pairs;
      triggered_check_queue = a.triggered_check_queue ++ ((pair.local, pair.remote) ∷ []);
    } in
    if-elim Distinct (code == 487)
      (λ e. recompute_pair_priorities-Distinct (switch_role pkt.msg.attributes waiting) (
        switch_role-IsDistinct pkt.msg.attributes waiting (
          change_first-IsDistinct (is_checked_by pkt.msg.transaction_id) wait_again a.pairs
            (λ p. refl) h)))
      (λ e. h)

error_for-Distinct :
    (a : IceAgent) (pkt : ReceivedPkt) (pair : Option CandidatePair)
    → IsDistinct a.pairs
    → Distinct (error_for a pkt pair)
unfolding error_for
error_for-Distinct a pkt none h = h
error_for-Distinct a pkt (some pair) h =
    error_with-Distinct a pkt pair (first read_code pkt.msg.attributes) h

pub error_checked-Distinct :
    (a : IceAgent) (pkt : ReceivedPkt) (credentials : Option IceCredentials)
    → IsDistinct a.pairs
    → Distinct (error_checked a pkt credentials)
unfolding error_checked
error_checked-Distinct a pkt none h = h
error_checked-Distinct a pkt (some credentials) h =
    if-elim Distinct (verify_integrity a.local_credentials credentials pkt.msg)
      (λ e. error_for-Distinct a pkt (find (is_checked_by pkt.msg.transaction_id) a.pairs) h)
      (λ e. h)
