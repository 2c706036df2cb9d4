-- ===== src/Ice/Pairs/Priority.antt =====
-- The priorities of media/ice/src/lib.rs: of candidates, and of pairs.
use ezk.Common.{
  ℕ, ◌+◌, ◌*◌, ◌^◌, ◌≤◌, ◌<◌, ◌≡◌, refl, min, max, Bool, true, false, arith, if◌then◌else◌,
}
use ezk.Ice.Types.{Component, CandidateKind, Candidate, kind_value}
use ezk.Ice.Pairs.{pair_priority, local_priority}

-- Both agents give a pair the same priority: the controlling one, with its candidate as the local
-- one, and the controlled one, for which it is the remote one.
pair_priority-agree :
    (l r : Candidate) (is_controlling : Bool)
    → pair_priority l r is_controlling ≡ pair_priority r l (if is_controlling then false else true)
unfolding pair_priority
pair_priority-agree l r true = refl
pair_priority-agree l r false = refl

-- For priorities below 2 ^ 31 nothing overflows, the pair with the smaller minimum comes first,
-- and of two pairs with one minimum, the one with the smaller maximum.
pair_priority-orders :
    (l r l' r' : Candidate) (c : Bool)
    → l.priority < 2 ^ 31
    → r.priority < 2 ^ 31
    → l'.priority < 2 ^ 31
    → r'.priority < 2 ^ 31
    → (min l.priority r.priority < min l'.priority r'.priority
        → pair_priority l r c < pair_priority l' r' c)
      × (min l.priority r.priority ≡ min l'.priority r'.priority
          → max l.priority r.priority < max l'.priority r'.priority
          → pair_priority l r c < pair_priority l' r' c)
unfolding pair_priority
pair_priority-orders l r l' r' true a b c d = (λ h. ground arith, λ h k. ground arith)
pair_priority-orders l r l' r' false a b c d = (λ h. ground arith, λ h k. ground arith)

-- As long as there are at most 16383 candidates of a kind, a local priority is below 2 ^ 31.
local_priority-bound :
    (kind : CandidateKind) (component : Component) (count : ℕ)
    → count ≤ 16383
    → (kind_value kind * 2 ^ 24 ≤ local_priority kind component count)
      × (local_priority kind component count < (kind_value kind + 1) * 2 ^ 24)
unfolding local_priority
local_priority-bound CandidateKind.host Component.rtp count h = (ground arith, ground arith)
local_priority-bound CandidateKind.host Component.rtcp count h = (ground arith, ground arith)
local_priority-bound CandidateKind.peer_reflexive Component.rtp count h =
    (ground arith, ground arith)
local_priority-bound CandidateKind.peer_reflexive Component.rtcp count h =
    (ground arith, ground arith)
local_priority-bound CandidateKind.server_reflexive Component.rtp count h =
    (ground arith, ground arith)
local_priority-bound CandidateKind.server_reflexive Component.rtcp count h =
    (ground arith, ground arith)
