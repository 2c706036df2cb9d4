-- ===== src/Ice/Nomination/Single.antt =====
-- Which pairs the nomination of media/ice/src/lib.rs chooses, and how many.
use mathlib.Core.Path.{subst}
use ezk.Common.{
  ℕ, suc, ◌≤◌, ◌≡◌, refl, List, [], ◌∷◌, Option, none, some, Bool, true, false, any, All, arith,
  Bool-cases, inl, inr, if◌then◌else◌, if-elim, ltb, ◌==◌,
}
use ezk.Common.Maps.{lookup}
use ezk.Ice.Types.{Component, Candidate, CandidatePair}
use ezk.Ice.Pairs.{key_is}
use ezk.Ice.Agent.{IceAgent}
use ezk.Ice.Nomination.{
  best, nominate, poll_nomination_of_component, poll_nomination, is_candidate_controlled, and_rtcp,
  nominate_controlled, use_found,
}

-- How many pairs are nominated.
unfoldable pub nominated_count : List CandidatePair → ℕ
nominated_count [] = 0
nominated_count (p ∷ pairs) =
    let rest = nominated_count pairs in if p.nominated then suc rest else rest

-- What `best` chooses: a pair of the list that passes the test, of the highest priority among
-- those that pass it.
pub data Chooses (f : CandidatePair → Bool) (pairs : List CandidatePair) : Type 0 where
  no_pair : best f pairs ≡ none → any f pairs ≡ false → Chooses f pairs
  one_pair :
      (p : CandidatePair)
      → best f pairs ≡ some p
      → f p ≡ true
      → any (key_is p.local p.remote) pairs ≡ true
      → All (λ q. f q ≡ true → q.priority ≤ p.priority) pairs
      → Chooses f pairs

All-higher :
    (f : CandidatePair → Bool) (m n : ℕ) (pairs : List CandidatePair)
    → m ≤ n
    → All (λ q. f q ≡ true → q.priority ≤ m) pairs
    → All (λ q. f q ≡ true → q.priority ≤ n) pairs
All-higher f m n [] h hs = tt
All-higher f m n (q ∷ pairs) h hs = (λ e. omega (arith, hs.0 e), All-higher f m n pairs h hs.1)

All-none :
    (f : CandidatePair → Bool) (n : ℕ) (pairs : List CandidatePair)
    → any f pairs ≡ false
    → All (λ q. f q ≡ true → q.priority ≤ n) pairs
All-none f n [] h = tt
All-none f n (q ∷ pairs) h = (λ e. ground arith, All-none f n pairs (ground arith))

-- The pair that is nominated has the highest priority of those that may be, and there is none
-- only if no pair may be.
best-Chooses : (f : CandidatePair → Bool) (pairs : List CandidatePair) → Chooses f pairs
unfolding best
best-Chooses f [] = no_pair refl refl
best-Chooses f (p ∷ pairs) = elim (Bool-cases (f p)) [
  | inl e ↦ elim (best-Chooses f pairs) [
    | no_pair b a ↦
        one_pair p (rw (e, b, best) refl) e (ground arith)
          (λ x. omega arith, All-none f p.priority pairs a)
    | one_pair q b fq k all ↦ elim (Bool-cases (ltb q.priority p.priority)) [
      | inl lt ↦
          one_pair p (rw (e, b, lt, best) refl) e (ground arith)
            (λ x. omega arith, All-higher f q.priority p.priority pairs (ground arith) all)
      | inr ge ↦ one_pair q (rw (e, b, ge, best) refl) fq (ground arith) (λ x. ground arith, all)
    ]
  ]
  | inr e ↦ elim (best-Chooses f pairs) [
    | no_pair b a ↦ no_pair (rw (e, b, best) refl) (ground arith)
    | one_pair q b fq k all ↦
        one_pair q (rw (e, b, best) refl) fq (ground arith) (λ x. ground arith, all)
  ]
]

none_nominated :
    (pairs : List CandidatePair) → any (λ p. p.nominated) pairs ≡ false → nominated_count pairs ≡ 0
unfolding nominated_count
none_nominated [] h = refl
none_nominated (p ∷ pairs) h = ground (arith, none_nominated pairs)

nominate_count :
    (pair : CandidatePair) (pairs : List CandidatePair)
    → nominated_count (nominate pair pairs) ≤ suc (nominated_count pairs)
unfolding nominated_count nominate
nominate_count pair [] = omega arith
nominate_count pair (p ∷ pairs) = elim (Bool-cases (key_is pair.local pair.remote p)) [
  | inl e ↦ rw (e, nominate) (ground arith)
  | inr e ↦ rw (e, nominate) (ground (arith, nominate_count pair pairs))
]

-- A controlled agent without rtcp-mux with at most one nominated pair.
pub record Controlled (a : IceAgent) : Type 0 where
  pub is_controlled : a.is_controlling ≡ false
  pub without_mux : a.rtcp_mux ≡ false
  pub at_most_one : nominated_count a.pairs ≤ 1

-- Of a call that does not panic.
abbrev Controls : Option IceAgent → Type 0
Controls none = Unit {0}
Controls (some a) = Controlled a

nominated_first :
    (a : IceAgent) (pair : CandidatePair)
    → Controlled a
    → any (λ p. p.nominated) a.pairs ≡ false
    → nominated_count (nominate pair a.pairs) ≤ 1
nominated_first a pair h e = omega (arith, nominate_count pair a.pairs, none_nominated a.pairs e)

use_found-Controls :
    (a : IceAgent) (component : Component) (pair : CandidatePair) (remote : Option Candidate)
    → Controlled a
    → any (λ p. p.nominated) a.pairs ≡ false
    → Controls (use_found a component pair remote)
unfolding use_found
use_found-Controls a component pair none h e = tt
use_found-Controls a component pair (some remote) h e = record {
  is_controlled = h.is_controlled;
  without_mux = h.without_mux;
  at_most_one = nominated_first a pair h e;
}

nominate_controlled-Controls :
    (a : IceAgent) (component : Component) (pair : Option CandidatePair)
    → Controlled a
    → any (λ p. p.nominated) a.pairs ≡ false
    → Controls (nominate_controlled a component pair)
unfolding nominate_controlled
nominate_controlled-Controls a component none h e = h
nominate_controlled-Controls a component (some pair) h e =
    use_found-Controls a component pair (lookup ◌==◌ pair.remote a.remote_candidates) h e

component-Controls :
    (a : IceAgent) (component : Component)
    → Controlled a
    → Controls (poll_nomination_of_component a component)
unfolding poll_nomination_of_component
component-Controls a component h =
    if-elim Controls a.is_controlling (λ e. ground (arith, h.is_controlled))
      (λ e.
        if-elim Controls (any (λ p. p.nominated) a.pairs) (λ n. h)
          (nominate_controlled-Controls a component
            (best (is_candidate_controlled component) a.pairs) h))

rtcp-Controls : (o : Option IceAgent) → Controls o → Controls (and_rtcp o)
unfolding and_rtcp
rtcp-Controls none h = tt
rtcp-Controls (some a) h =
    if-elim Controls a.rtcp_mux (λ e. h) (λ e. component-Controls a Component.rtcp h)

pub poll_nomination-Controlled :
    (a b : IceAgent) → Controlled a → poll_nomination a ≡ some b → Controlled b
unfolding poll_nomination
poll_nomination-Controlled a b h e = subst Controls e (
    rtcp-Controls (poll_nomination_of_component a Component.rtp)
      (component-Controls a Component.rtp h))
