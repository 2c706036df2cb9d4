-- ===== src/Ice/Nomination.antt =====
-- media/ice/src/lib.rs: how the agent nominates pairs. `none` stands for a panic.
pub mod Single
use ezk.Common.{
  List, [], ◌∷◌, Option, none, some, Bool, true, false, ◌&&◌, any, ltb, ◌==◌, if◌then◌else◌,
}
use ezk.Common.Maps.{lookup}
use ezk.Ice.Types.{
  Component, same_component, Candidate, CandidatePairState, CandidatePair, use_addr,
}
use ezk.Ice.Pairs.{key_is}
use ezk.Ice.Agent.{IceAgent, push_event}

abbrev pub is_succeeded : CandidatePairState → Bool
is_succeeded CandidatePairState.succeeded = true
is_succeeded state = false

abbrev pub is_pending : CandidatePairState → Bool
is_pending CandidatePairState.waiting = true
is_pending (CandidatePairState.in_progress p) = true
is_pending state = false

-- `max_by_key`: of the pairs of the highest priority, the last one.
abbrev better : CandidatePair → Option CandidatePair → CandidatePair
better p none = p
better p (some q) = if ltb q.priority p.priority then p else q

unfoldable pub best : (CandidatePair → Bool) → List CandidatePair → Option CandidatePair
best f [] = none
best f (p ∷ pairs) = let rest = best f pairs in if f p then some (better p rest) else rest

-- The pair is changed in place; its candidates name it.
unfoldable pub nominate : CandidatePair → List CandidatePair → List CandidatePair
nominate pair [] = []
nominate pair (p ∷ pairs) =
    let rest = nominate pair pairs in
    if key_is pair.local pair.remote p then record p { nominated = true } ∷ pairs else p ∷ rest

abbrev pub is_candidate_controlling : Component → CandidatePair → Bool
is_candidate_controlling component p = same_component p.component component && is_succeeded p.state

abbrev pub is_candidate_controlled : Component → CandidatePair → Bool
is_candidate_controlled component p =
    same_component p.component component && (p.received_use_candidate && is_succeeded p.state)

unfoldable pub nominate_controlling : IceAgent → Option CandidatePair → IceAgent
unfolding nominate
nominate_controlling a none = a
nominate_controlling a (some pair) = record a {
  pairs = nominate pair a.pairs;
  triggered_check_queue = (pair.local, pair.remote) ∷ a.triggered_check_queue;
}

unfoldable pub use_found : IceAgent → Component → CandidatePair → Option Candidate → Option IceAgent
unfolding nominate
use_found a component pair none = none
use_found a component pair (some remote) =
    some (push_event (record a { pairs = nominate pair a.pairs }) (use_addr component remote.addr))

unfoldable pub nominate_controlled : IceAgent → Component → Option CandidatePair → Option IceAgent
unfolding nominate lookup use_found
nominate_controlled a component none = some a
nominate_controlled a component (some pair) =
    use_found a component pair (lookup ◌==◌ pair.remote a.remote_candidates)

unfoldable pub poll_nomination_of_component : IceAgent → Component → Option IceAgent
unfolding best nominate lookup nominate_controlling nominate_controlled
poll_nomination_of_component a component =
    if a.is_controlling
    then (if any (λ p. same_component p.component component && p.nominated) a.pairs
        then some a
        else some (nominate_controlling a (best (is_candidate_controlling component) a.pairs)))
    else (if any (λ p. p.nominated) a.pairs
        then some a
        else nominate_controlled a component (best (is_candidate_controlled component) a.pairs))

unfoldable pub and_rtcp : Option IceAgent → Option IceAgent
unfolding poll_nomination_of_component
and_rtcp none = none
and_rtcp (some a) = if a.rtcp_mux then some a else poll_nomination_of_component a Component.rtcp

unfoldable pub poll_nomination : IceAgent → Option IceAgent
unfolding poll_nomination_of_component and_rtcp
poll_nomination a = and_rtcp (poll_nomination_of_component a Component.rtp)
