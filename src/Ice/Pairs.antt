-- ===== src/Ice/Pairs.antt =====
-- media/ice/src/lib.rs: candidates, their priorities and the pairs that are formed of them.
-- `sort_unstable_by_key` is an insertion sort, which fixes the order of pairs of one priority.
pub mod Priority
pub mod Forming
pub mod CheckList
use ezk.Common.{
  ℕ, suc, ◌+◌, ◌*◌, ◌-◌, ◌/◌, ◌%◌, ◌^◌, min, max, List, [], ◌∷◌, ◌++◌, Bool, false, not, ◌&&◌,
  length, any, ltb, leb, ◌==◌, if◌then◌else◌,
}
use ezk.Ice.Types.{
  Component, component_id, same_component, IpAddr, CandidateKind, kind_value, same_kind, Candidate,
  CandidatePairState, CandidatePair,
}

unfoldable pub pair_priority : Candidate → Candidate → Bool → ℕ
pair_priority local_candidate remote_candidate is_controlling =
    let g = if is_controlling then local_candidate.priority else remote_candidate.priority in
    let d = if is_controlling then remote_candidate.priority else local_candidate.priority in
    (2 ^ 32 * min g d + 2 * max g d + (if ltb d g then 1 else 0)) % 2 ^ 64

-- `local_preference_offset`.
abbrev preference_offset : CandidateKind → ℕ
preference_offset CandidateKind.host = 65535 / 4 * 3
preference_offset CandidateKind.peer_reflexive = 65535 / 4 * 2
preference_offset CandidateKind.server_reflexive = 65535 / 4

-- The priority of a new local candidate behind `count` others of its kind, as a `u32`.
unfoldable pub local_priority : CandidateKind → Component → ℕ → ℕ
local_priority kind component count =
    (kind_value kind * 2 ^ 24
      + (count + preference_offset kind) * 2 ^ 8
      + (256 - component_id component))
    % 2 ^ 32

abbrev pub key_is : ℕ → ℕ → CandidatePair → Bool
key_is local remote p = p.local == local && p.remote == remote

-- One pair is put in its place: the step of the sort by priority.
unfoldable pub insert_sorted : CandidatePair → List CandidatePair → List CandidatePair
insert_sorted pair [] = pair ∷ []
insert_sorted pair (p ∷ pairs) =
    let rest = insert_sorted pair pairs in
    if leb pair.priority p.priority then pair ∷ p ∷ pairs else p ∷ rest

unfoldable pub sort_by_priority : List CandidatePair → List CandidatePair
unfolding insert_sorted
sort_by_priority [] = []
sort_by_priority (p ∷ pairs) = insert_sorted p (sort_by_priority pairs)

unfoldable pub add_candidate_pair :
    ℕ → Candidate → ℕ → Candidate → Bool → List CandidatePair → Bool → List CandidatePair
unfolding pair_priority sort_by_priority
add_candidate_pair local_id local_candidate remote_id remote_candidate is_controlling pairs
      use_candidate =
    if any (key_is local_id remote_id) pairs
    then pairs
    else sort_by_priority (
        pairs
        ++ (record {
          local = local_id;
          remote = remote_id;
          priority = pair_priority local_candidate remote_candidate is_controlling;
          state = CandidatePairState.waiting;
          component = local_candidate.component;
          received_use_candidate = use_candidate;
          nominated = false;
        }
            ∷ []))

abbrev same_bool : Bool → Bool → Bool
same_bool a b = if a then b else not b

-- `Ipv4Addr::is_link_local`: 169.254.0.0/16. `Ipv6Addr::is_unicast_link_local`: fe80::/10.
abbrev is_link_local_v4 : ℕ → Bool
is_link_local_v4 ip = (ip / 2 ^ 16) == 43518

abbrev is_link_local_v6 : ℕ → Bool
is_link_local_v6 ip = (ip / 2 ^ 118) == 1018

unfoldable pub ips_match : IpAddr → IpAddr → Bool
ips_match (IpAddr.v4 l) (IpAddr.v4 r) = same_bool (is_link_local_v4 l) (is_link_local_v4 r)
ips_match (IpAddr.v6 l) (IpAddr.v6 r) = same_bool (is_link_local_v6 l) (is_link_local_v6 r)
ips_match (IpAddr.v4 l) (IpAddr.v6 r) = false
ips_match (IpAddr.v6 l) (IpAddr.v4 r) = false

-- The conditions of the inner loop of `form_pairs` on the candidates themselves.
unfoldable pub may_pair : Candidate → Candidate → Bool
unfolding ips_match
may_pair l r =
    not (same_kind r.kind CandidateKind.peer_reflexive)
    && (same_component l.component r.component && ips_match l.addr.ip r.addr.ip)

unfoldable pub form_with_local :
    Bool → ℕ → Candidate → List (ℕ × Candidate) → List CandidatePair → List CandidatePair
unfolding may_pair add_candidate_pair
form_with_local is_controlling local_id l [] pairs = pairs
form_with_local is_controlling local_id l (remote ∷ remotes) pairs =
    form_with_local is_controlling local_id l remotes (
      if may_pair l remote.1 && not (any (key_is local_id remote.0) pairs)
      then add_candidate_pair local_id l remote.0 remote.1 is_controlling pairs false
      else pairs)

unfoldable pub form_all :
    Bool → List (ℕ × Candidate) → List (ℕ × Candidate) → List CandidatePair → List CandidatePair
unfolding form_with_local
form_all is_controlling [] remotes pairs = pairs
form_all is_controlling (l ∷ locals) remotes pairs =
    form_all is_controlling locals remotes (form_with_local is_controlling l.0 l.1 remotes pairs)

abbrev pub pop_back : List CandidatePair → List CandidatePair
pop_back [] = []
pop_back (p ∷ []) = []
pop_back (p ∷ q ∷ pairs) = p ∷ pop_back (q ∷ pairs)

-- The loop of `prune_pairs`; each round pops a pair, so the length is enough fuel.
unfoldable pub prune_loop : ℕ → ℕ → List CandidatePair → List CandidatePair
prune_loop ℕ.zero max_pairs pairs = pairs
prune_loop (suc fuel) max_pairs pairs =
    let pruned = prune_loop fuel max_pairs (pop_back pairs) in
    if ltb max_pairs (length pairs) then pruned else pairs

unfoldable pub prune_pairs : ℕ → List CandidatePair → List CandidatePair
unfolding prune_loop
prune_pairs max_pairs pairs = prune_loop (length pairs) max_pairs pairs

unfoldable pub form_pairs :
    Bool → ℕ → List (ℕ × Candidate) → List (ℕ × Candidate) → List CandidatePair → List CandidatePair
unfolding form_all sort_by_priority prune_pairs
form_pairs is_controlling max_pairs locals remotes pairs =
    prune_pairs max_pairs (sort_by_priority (form_all is_controlling locals remotes pairs))
