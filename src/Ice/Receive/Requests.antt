-- ===== src/Ice/Receive/Requests.antt =====
-- STUN requests, and so every STUN message, keep the pairs of the agent of media/ice/src/lib.rs
-- distinct.
use Prim.Native.String.{String}
use mathlib.Core.Path.{subst}
use ezk.Common.{
  ℕ, ◌≡◌, refl, List, Option, none, some, Bool, true, false, not, ◌&&◌, any, find, if-elim, ◌==◌,
  leb,
}
use ezk.Common.Maps.{lookup}
use ezk.Ice.Types.{
  Component, same_component, IpAddr, CandidateKind, Candidate, CandidatePair, IceCredentials,
  ReceivedPkt, Class,
}
use ezk.Ice.Stun.{wants_stun_response, verify_integrity, first}
use ezk.Ice.Pairs.{key_is}
use ezk.Ice.Pairs.Forming.{IsDistinct}
use ezk.Ice.Pairs.CheckList.{add_candidate_pair-IsDistinct}
use ezk.Ice.Agent.{IceAgent}
use ezk.Ice.Nomination.{
  best, poll_nomination, poll_nomination_of_component, nominate_controlling, nominate_controlled,
  use_found, and_rtcp, is_candidate_controlling, is_candidate_controlled,
}
use ezk.Ice.Response.{
  read_controlling, read_controlled, receive_stun_success, receive_stun_error, read_priority,
  read_use_candidate, is_some,
}
use ezk.Ice.Receive.{
  Conflict, answered, goes_on, conflict_with, role_conflict, find_local, find_remote,
  set_use_candidate, remote_for, answer_pair, answer_remote, answer_local, answer_request,
  request_with, request_checked, receive_stun_request, receive_class, receive_stun,
}
use ezk.Ice.Response.Distinct.{Distinct, recompute_pair_priorities-Distinct}
use ezk.Ice.Response.Invariant.{
  nominate-IsDistinct, change_first-IsDistinct, success_from-Distinct, error_checked-Distinct,
}

nominate_controlling-IsDistinct :
    (a : IceAgent) (pair : Option CandidatePair)
    → IsDistinct a.pairs
    → IsDistinct (nominate_controlling a pair).pairs
unfolding nominate_controlling
nominate_controlling-IsDistinct a none h = h
nominate_controlling-IsDistinct a (some pair) h = nominate-IsDistinct pair a.pairs h

use_found-Distinct :
    (a : IceAgent) (component : Component) (pair : CandidatePair) (remote : Option Candidate)
    → IsDistinct a.pairs
    → Distinct (use_found a component pair remote)
unfolding use_found
use_found-Distinct a component pair none h = tt
use_found-Distinct a component pair (some remote) h = nominate-IsDistinct pair a.pairs h

nominate_controlled-Distinct :
    (a : IceAgent) (component : Component) (pair : Option CandidatePair)
    → IsDistinct a.pairs
    → Distinct (nominate_controlled a component pair)
unfolding nominate_controlled
nominate_controlled-Distinct a component none h = h
nominate_controlled-Distinct a component (some pair) h =
    use_found-Distinct a component pair (lookup ◌==◌ pair.remote a.remote_candidates) h

poll_nomination_of_component-Distinct :
    (a : IceAgent) (component : Component)
    → IsDistinct a.pairs
    → Distinct (poll_nomination_of_component a component)
unfolding poll_nomination_of_component
poll_nomination_of_component-Distinct a component h =
    if-elim Distinct a.is_controlling
      (λ e.
        if-elim Distinct (any (λ p. same_component p.component component && p.nominated) a.pairs)
          (λ n. h)
          (λ n.
            nominate_controlling-IsDistinct a (best (is_candidate_controlling component) a.pairs)
              h))
      (λ e.
        if-elim Distinct (any (λ p. p.nominated) a.pairs) (λ n. h)
          (λ n.
            nominate_controlled-Distinct a component
              (best (is_candidate_controlled component) a.pairs) h))

and_rtcp-Distinct : (o : Option IceAgent) → Distinct o → Distinct (and_rtcp o)
unfolding and_rtcp
and_rtcp-Distinct none h = tt
and_rtcp-Distinct (some a) h =
    if-elim Distinct a.rtcp_mux (λ e. h)
      (λ e. poll_nomination_of_component-Distinct a Component.rtcp h)

poll_nomination-Distinct : (a : IceAgent) → IsDistinct a.pairs → Distinct (poll_nomination a)
unfolding poll_nomination
poll_nomination-Distinct a h =
    and_rtcp-Distinct (poll_nomination_of_component a Component.rtp)
      (poll_nomination_of_component-Distinct a Component.rtp h)

-- The agent that goes on, or that has answered, has distinct pairs.
abbrev ConflictDistinct : Conflict → Type 0
ConflictDistinct (answered a) = IsDistinct a.pairs
ConflictDistinct (goes_on o) = Distinct o

conflict_with-Distinct :
    (a : IceAgent) (pkt : ReceivedPkt) (credentials : IceCredentials) (role : Bool) (tie : Option ℕ)
    → IsDistinct a.pairs
    → ConflictDistinct (conflict_with a pkt credentials role tie)
unfolding conflict_with
conflict_with-Distinct a pkt credentials role none h = h
conflict_with-Distinct a pkt credentials role (some tie) h =
    if-elim ConflictDistinct (leb tie a.control_tie_breaker) (λ e. h)
      (λ e. recompute_pair_priorities-Distinct (record a { is_controlling = not role }) h)

role_conflict-Distinct :
    (a : IceAgent) (pkt : ReceivedPkt) (credentials : IceCredentials)
    → IsDistinct a.pairs
    → ConflictDistinct (role_conflict a pkt credentials)
unfolding role_conflict
role_conflict-Distinct a pkt credentials h =
    if-elim ConflictDistinct a.is_controlling
      (λ e.
        conflict_with-Distinct a pkt credentials true (first read_controlling pkt.msg.attributes) h)
      (λ e.
        conflict_with-Distinct a pkt credentials false (first read_controlled pkt.msg.attributes) h)

module _ (insert : List (ℕ × Candidate) → Candidate → List (ℕ × Candidate))
    (key : List (ℕ × Candidate) → ℕ) where
  remote_for-IsDistinct :
      (a : IceAgent) (pkt : ReceivedPkt) (prio : ℕ) (l : ℕ × Candidate) (r : Option (ℕ × Candidate))
      → IsDistinct a.pairs
      → IsDistinct (remote_for insert key a pkt prio l r).1.pairs
  unfolding remote_for
  remote_for-IsDistinct a pkt prio l (some remote) h = h
  remote_for-IsDistinct a pkt prio l none h =
      add_candidate_pair-IsDistinct l.0 l.1 (key a.remote_candidates)
        (record {
          addr = pkt.source;
          kind = CandidateKind.peer_reflexive;
          priority = prio;
          foundation = "~";
          component = pkt.component;
          base = pkt.source;
        })
        a.is_controlling a.pairs false h

  answer_pair-Distinct :
      (pkt : ReceivedPkt) (wanted : Bool) (l : ℕ × Candidate) (r : ℕ × IceAgent)
      (pair : Option CandidatePair)
      → IsDistinct r.1.pairs
      → Distinct (answer_pair insert key pkt wanted l r pair)
  unfolding answer_pair
  answer_pair-Distinct pkt wanted l r none h = tt
  answer_pair-Distinct pkt wanted l r (some pair) h =
      let kept =
        change_first-IsDistinct (key_is l.0 r.0) (set_use_candidate wanted) r.1.pairs (λ p. refl)
          h in
      if-elim Distinct wanted (λ e. poll_nomination-Distinct _ kept) (λ e. kept)

  answer_local-Distinct :
      (a : IceAgent) (pkt : ReceivedPkt) (prio : ℕ) (l : Option (ℕ × Candidate))
      → IsDistinct a.pairs
      → Distinct (answer_local insert key a pkt prio l)
  unfolding answer_local answer_remote
  answer_local-Distinct a pkt prio none h = h
  answer_local-Distinct a pkt prio (some l) h =
      let found = remote_for insert key a pkt prio l (find_remote pkt.source a.remote_candidates) in
      answer_pair-Distinct pkt (is_some (first read_use_candidate pkt.msg.attributes)) l found
        (find (key_is l.0 found.0) found.1.pairs)
        (remote_for-IsDistinct a pkt prio l (find_remote pkt.source a.remote_candidates) h)

  answer_request-Distinct :
      (pkt : ReceivedPkt) (prio : ℕ) (c : Conflict)
      → ConflictDistinct c
      → Distinct (answer_request insert key pkt prio c)
  unfolding answer_request
  answer_request-Distinct pkt prio (answered a) h = h
  answer_request-Distinct pkt prio (goes_on none) h = tt
  answer_request-Distinct pkt prio (goes_on (some a)) h =
      answer_local-Distinct a pkt prio (find_local pkt.destination a.local_candidates) h

  request_with-Distinct :
      (a : IceAgent) (pkt : ReceivedPkt) (credentials : IceCredentials) (prio : Option ℕ)
      → IsDistinct a.pairs
      → Distinct (request_with insert key a pkt credentials prio)
  unfolding request_with
  request_with-Distinct a pkt credentials none h = tt
  request_with-Distinct a pkt credentials (some prio) h =
      answer_request-Distinct pkt prio (role_conflict a pkt credentials)
        (role_conflict-Distinct a pkt credentials h)

  request_checked-Distinct :
      (a : IceAgent) (pkt : ReceivedPkt) (credentials : Option IceCredentials)
      → IsDistinct a.pairs
      → Distinct (request_checked insert key a pkt credentials)
  unfolding request_checked
  request_checked-Distinct a pkt none h = h
  request_checked-Distinct a pkt (some credentials) h =
      if-elim Distinct (verify_integrity a.local_credentials credentials pkt.msg)
        (λ e. request_with-Distinct a pkt credentials (first read_priority pkt.msg.attributes) h)
        (λ e. h)

  module _ (foundation : CandidateKind → IpAddr → String) where
    receive_class-Distinct :
        (a : IceAgent) (now : ℕ) (pkt : ReceivedPkt) (class : Class)
        → IsDistinct a.pairs
        → Distinct (receive_class insert key foundation a now pkt class)
    unfolding receive_class receive_stun_request receive_stun_success receive_stun_error
    receive_class-Distinct a now pkt Class.request h =
        request_checked-Distinct a pkt a.remote_credentials h
    receive_class-Distinct a now pkt Class.indication h = h
    receive_class-Distinct a now pkt Class.success h =
        success_from-Distinct insert foundation a now pkt
          (find (λ s. wants_stun_response s pkt.msg.transaction_id) a.stun_server) h
    receive_class-Distinct a now pkt Class.error h =
        error_checked-Distinct a pkt a.remote_credentials h

    -- Whatever STUN message an agent receives, of whatever class and from whomever: if no two of
    -- its pairs are of the same candidates, no two of them are afterwards, unless the reception
    -- panics.
    pub receive_stun-IsDistinct :
        (a b : IceAgent) (now : ℕ) (pkt : ReceivedPkt)
        → IsDistinct a.pairs
        → receive_stun insert key foundation a now pkt ≡ some b
        → IsDistinct b.pairs
    unfolding receive_stun
    receive_stun-IsDistinct a b now pkt h e =
        subst Distinct e (receive_class-Distinct a now pkt pkt.msg.class h)
