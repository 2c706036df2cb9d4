-- ===== src/Ice/Response/Distinct.antt =====
-- Whatever STUN message the agent of media/ice/src/lib.rs receives, no two of its pairs are of the
-- same candidates.
use ezk.Common.{
  ℕ, ◌≡◌, refl, sym, ap, ◌∙◌, List, [], ◌∷◌, Option, none, some, Bool, false, ◌&&◌, any, map, arith,
  if-elim, ◌==◌,
}
use Prim.Native.String.{String}
use mathlib.Core.Path.{subst}
use ezk.Common.Maps.{lookup}
use ezk.Ice.Types.{Component, IpAddr, SocketAddr, CandidateKind, Candidate, CandidatePair}
use ezk.Ice.Pairs.{key_is, local_priority}
use ezk.Ice.Pairs.Forming.{IsDistinct, sort_by_priority-IsDistinct}
use ezk.Ice.Pairs.CheckList.{form_pairs-IsCheckList}
use ezk.Ice.Agent.{
  IceAgent, kind_count, add_local_candidate, is_known, form, recompute, recompute_pair_priorities,
  with_pairs, and_then_cons, priority_found,
}
use ezk.Ice.Nomination.{nominate}
use ezk.Ice.Response.{change_first}

abbrev pub key_of : CandidatePair → ℕ × ℕ
key_of p = (p.local, p.remote)

abbrev pub keys : List CandidatePair → List (ℕ × ℕ)
keys pairs = map key_of pairs

abbrev has_key : ℕ → ℕ → List (ℕ × ℕ) → Bool
has_key i j ks = any (λ k. k.0 == i && k.1 == j) ks

abbrev DistinctKeys : List (ℕ × ℕ) → Type 0
DistinctKeys [] = Unit {0}
DistinctKeys (k ∷ ks) = (has_key k.0 k.1 ks ≡ false) × DistinctKeys ks

any-keys :
    (i j : ℕ) (pairs : List CandidatePair) → any (key_is i j) pairs ≡ has_key i j (keys pairs)
any-keys i j [] = refl
any-keys i j (p ∷ pairs) = ground (arith, any-keys i j pairs)

IsDistinct-DistinctKeys :
    (pairs : List CandidatePair) → IsDistinct pairs → DistinctKeys (keys pairs)
IsDistinct-DistinctKeys [] h = tt
IsDistinct-DistinctKeys (p ∷ pairs) h =
    (sym (any-keys p.local p.remote pairs) ∙ h.0, IsDistinct-DistinctKeys pairs h.1)

DistinctKeys-IsDistinct :
    (pairs : List CandidatePair) → DistinctKeys (keys pairs) → IsDistinct pairs
DistinctKeys-IsDistinct [] h = tt
DistinctKeys-IsDistinct (p ∷ pairs) h =
    (any-keys p.local p.remote pairs ∙ h.0, DistinctKeys-IsDistinct pairs h.1)

-- Pairs with the keys of distinct pairs are distinct.
pub keys-IsDistinct :
    (before after : List CandidatePair)
    → keys after ≡ keys before
    → IsDistinct before
    → IsDistinct after
keys-IsDistinct before after e h =
    DistinctKeys-IsDistinct after (subst DistinctKeys (sym e) (IsDistinct-DistinctKeys before h))

pub keys-change_first :
    (test : CandidatePair → Bool) (change : CandidatePair → CandidatePair)
    (pairs : List CandidatePair)
    → ((p : CandidatePair) → key_of (change p) ≡ key_of p)
    → keys (change_first test change pairs) ≡ keys pairs
unfolding change_first
keys-change_first test change [] k = refl
keys-change_first test change (p ∷ pairs) k =
    if-elim (λ (ps : List CandidatePair). keys ps ≡ keys (p ∷ pairs)) (test p)
      (λ e. ap (λ x. x ∷ keys pairs) (k p))
      (λ e. ap (◌∷◌ (key_of p)) (keys-change_first test change pairs k))

pub keys-nominate :
    (pair : CandidatePair) (pairs : List CandidatePair) → keys (nominate pair pairs) ≡ keys pairs
unfolding nominate
keys-nominate pair [] = refl
keys-nominate pair (p ∷ pairs) =
    if-elim (λ (ps : List CandidatePair). keys ps ≡ keys (p ∷ pairs))
      (key_is pair.local pair.remote p) (λ e. refl)
      (λ e. ap (◌∷◌ (key_of p)) (keys-nominate pair pairs))

-- Of a call that does not panic: the pairs are distinct.
abbrev pub Distinct : Option IceAgent → Type 0
Distinct none = Unit {0}
Distinct (some a) = IsDistinct a.pairs

abbrev KeysAre : List (ℕ × ℕ) → Option (List CandidatePair) → Type 0
KeysAre ks none = Unit {0}
KeysAre ks (some pairs) = keys pairs ≡ ks

and_then_cons-KeysAre :
    (k : ℕ × ℕ) (ks : List (ℕ × ℕ)) (p : Option CandidatePair) (o : Option (List CandidatePair))
    → ((q : CandidatePair) → p ≡ some q → key_of q ≡ k)
    → KeysAre ks o
    → KeysAre (k ∷ ks) (and_then_cons p o)
unfolding and_then_cons
and_then_cons-KeysAre k ks none o h e = tt
and_then_cons-KeysAre k ks (some q) none h e = tt
and_then_cons-KeysAre k ks (some q) (some pairs) h e =
    ap (◌∷◌ (key_of q)) e ∙ ap (λ x. x ∷ ks) (h q refl)

priority_found-key_of :
    (c : Bool) (p : CandidatePair) (l r : Option Candidate) (q : CandidatePair)
    → priority_found c p l r ≡ some q
    → key_of q ≡ key_of p
unfolding priority_found
priority_found-key_of c p none r q e = ground arith
priority_found-key_of c p (some l) none q e = ground arith
priority_found-key_of c p (some l) (some r) q e = ground arith

recompute-KeysAre :
    (c : Bool) (locals remotes : List (ℕ × Candidate)) (pairs : List CandidatePair)
    → KeysAre (keys pairs) (recompute c locals remotes pairs)
unfolding recompute
recompute-KeysAre c locals remotes [] = refl
recompute-KeysAre c locals remotes (p ∷ pairs) =
    and_then_cons-KeysAre (key_of p) (keys pairs) _ (recompute c locals remotes pairs)
      (priority_found-key_of c p (lookup ◌==◌ p.local locals) (lookup ◌==◌ p.remote remotes))
      (recompute-KeysAre c locals remotes pairs)

with_pairs-Distinct :
    (a : IceAgent) (o : Option (List CandidatePair))
    → KeysAre (keys a.pairs) o
    → IsDistinct a.pairs
    → Distinct (with_pairs a o)
unfolding with_pairs
with_pairs-Distinct a none k h = tt
with_pairs-Distinct a (some pairs) k h =
    sort_by_priority-IsDistinct pairs (keys-IsDistinct a.pairs pairs k h)

pub recompute_pair_priorities-Distinct :
    (a : IceAgent) → IsDistinct a.pairs → Distinct (recompute_pair_priorities a)
unfolding recompute_pair_priorities
recompute_pair_priorities-Distinct a h =
    with_pairs-Distinct a
      (recompute a.is_controlling a.local_candidates a.remote_candidates a.pairs)
      (recompute-KeysAre a.is_controlling a.local_candidates a.remote_candidates a.pairs) h

form-IsDistinct : (a : IceAgent) → IsDistinct a.pairs → IsDistinct (form a).pairs
unfolding form
form-IsDistinct a h =
    (form_pairs-IsCheckList a.is_controlling a.max_pairs a.local_candidates a.remote_candidates
      a.pairs h).0

module _ (insert : List (ℕ × Candidate) → Candidate → List (ℕ × Candidate))
    (foundation : CandidateKind → IpAddr → String) where
  pub add_local_candidate-Distinct :
      (a : IceAgent) (component : Component) (kind : CandidateKind) (base addr : SocketAddr)
      → IsDistinct a.pairs
      → IsDistinct (add_local_candidate insert foundation a component kind base addr).pairs
  unfolding add_local_candidate
  add_local_candidate-Distinct a component kind base addr h =
      if-elim (λ (b : IceAgent). IsDistinct b.pairs) (is_known kind base addr a.local_candidates)
        (λ e. h)
        (λ e.
          form-IsDistinct
            (record a {
              local_candidates = insert a.local_candidates (record {
                addr = addr;
                kind = kind;
                priority = local_priority kind component (kind_count kind a.local_candidates);
                foundation = foundation kind base.ip;
                component = component;
                base = base;
              });
            })
            h)
