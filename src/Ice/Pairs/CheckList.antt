-- ===== src/Ice/Pairs/CheckList.antt =====
-- The list of pairs that `form_pairs` and `prune_pairs` of media/ice/src/lib.rs leave behind.
use ezk.Common.{
  ℕ, suc, ◌+◌, ◌-◌, ◌≤◌, ◌<◌, ◌≡◌, refl, sym, ap, ◌∙◌, List, [], ◌∷◌, ◌++◌, Bool, false, ◌&&◌, not,
  length, take, drop, any, All, arith, Bool-cases, inl, inr, ltb, ltb→lt,
}
use ezk.Ice.Types.{Candidate, CandidatePair}
use ezk.Ice.Pairs.{
  key_is, sort_by_priority, add_candidate_pair, may_pair, form_with_local, form_all, pop_back,
  prune_loop, prune_pairs, form_pairs,
}
use ezk.Ice.Pairs.Forming.{
  IsSorted, IsDistinct, sort_by_priority-IsSorted, sort_by_priority-IsDistinct,
  append_one-IsDistinct,
}

pub add_candidate_pair-IsDistinct :
    (i : ℕ) (l : Candidate) (j : ℕ) (r : Candidate) (c : Bool) (pairs : List CandidatePair)
    (u : Bool)
    → IsDistinct pairs
    → IsDistinct (add_candidate_pair i l j r c pairs u)
unfolding add_candidate_pair
add_candidate_pair-IsDistinct i l j r c pairs u h = elim (Bool-cases (any (key_is i j) pairs)) [
  | inl e ↦ rw (e, add_candidate_pair) h
  | inr e ↦
      rw (e, add_candidate_pair) (sort_by_priority-IsDistinct _ (append_one-IsDistinct pairs _ e h))
]

form_with_local-IsDistinct :
    (c : Bool) (i : ℕ) (l : Candidate) (remotes : List (ℕ × Candidate)) (pairs : List CandidatePair)
    → IsDistinct pairs
    → IsDistinct (form_with_local c i l remotes pairs)
unfolding form_with_local
form_with_local-IsDistinct c i l [] pairs h = h
form_with_local-IsDistinct c i l (remote ∷ remotes) pairs h =
    elim (Bool-cases (may_pair l remote.1 && not (any (key_is i remote.0) pairs))) [
      | inl e ↦
          rw (e, form_with_local)
            (form_with_local-IsDistinct c i l remotes
              (add_candidate_pair i l remote.0 remote.1 c pairs false)
              (add_candidate_pair-IsDistinct i l remote.0 remote.1 c pairs false h))
      | inr e ↦ rw (e, form_with_local) (form_with_local-IsDistinct c i l remotes pairs h)
    ]

form_all-IsDistinct :
    (c : Bool) (locals remotes : List (ℕ × Candidate)) (pairs : List CandidatePair)
    → IsDistinct pairs
    → IsDistinct (form_all c locals remotes pairs)
unfolding form_all
form_all-IsDistinct c [] remotes pairs h = h
form_all-IsDistinct c (l ∷ locals) remotes pairs h =
    form_all-IsDistinct c locals remotes (form_with_local c l.0 l.1 remotes pairs)
      (form_with_local-IsDistinct c l.0 l.1 remotes pairs h)

length-pop_back : (pairs : List CandidatePair) → length (pop_back pairs) ≡ length pairs - 1
length-pop_back [] = refl
length-pop_back (p ∷ []) = refl
length-pop_back (p ∷ q ∷ pairs) = ground (arith, length-pop_back (q ∷ pairs))

take-pop_back :
    (n : ℕ) (pairs : List CandidatePair) → n < length pairs → take n (pop_back pairs) ≡ take n pairs
take-pop_back ℕ.zero pairs h = refl
take-pop_back (suc n) [] h = refl
take-pop_back (suc ℕ.zero) (p ∷ []) h = ground arith
take-pop_back (suc (suc n)) (p ∷ []) h = ground arith
take-pop_back (suc n) (p ∷ q ∷ pairs) h = ap (◌∷◌ p) (take-pop_back n (q ∷ pairs) (omega arith))

take-all : (n : ℕ) (pairs : List CandidatePair) → length pairs ≤ n → take n pairs ≡ pairs
take-all ℕ.zero [] h = refl
take-all ℕ.zero (p ∷ pairs) h = ground arith
take-all (suc n) [] h = refl
take-all (suc n) (p ∷ pairs) h = ap (◌∷◌ p) (take-all n pairs (omega arith))

prune_loop-take :
    (fuel n : ℕ) (pairs : List CandidatePair)
    → length pairs ≤ fuel + n
    → prune_loop fuel n pairs ≡ take n pairs
unfolding prune_loop
prune_loop-take ℕ.zero n pairs h = sym (take-all n pairs (omega arith))
prune_loop-take (suc fuel) n pairs h = elim (Bool-cases (ltb n (length pairs))) [
  | inl e ↦
      rw (e, prune_loop)
        (prune_loop-take fuel n (pop_back pairs) (omega (arith, length-pop_back pairs))
          ∙ take-pop_back n pairs (ltb→lt n (length pairs) e))
  | inr e ↦ rw (e, prune_loop) (sym (take-all n pairs (ground arith)))
]

-- Pruning keeps the first `max_pairs` pairs.
prune_pairs-take : (n : ℕ) (pairs : List CandidatePair) → prune_pairs n pairs ≡ take n pairs
unfolding prune_pairs
prune_pairs-take n pairs = prune_loop-take (length pairs) n pairs (omega arith)

length-take_le : (n : ℕ) (pairs : List CandidatePair) → length (take n pairs) ≤ n
length-take_le ℕ.zero pairs = omega arith
length-take_le (suc n) [] = omega arith
length-take_le (suc n) (p ∷ pairs) = omega (arith, length-take_le n pairs)

All-take :
    (P : CandidatePair → Type 0) (n : ℕ) (pairs : List CandidatePair)
    → All P pairs
    → All P (take n pairs)
All-take P ℕ.zero pairs h = tt
All-take P (suc n) [] h = tt
All-take P (suc n) (p ∷ pairs) h = (h.0, All-take P n pairs h.1)

All-drop :
    (P : CandidatePair → Type 0) (n : ℕ) (pairs : List CandidatePair)
    → All P pairs
    → All P (drop n pairs)
All-drop P ℕ.zero pairs h = h
All-drop P (suc n) [] h = tt
All-drop P (suc n) (p ∷ pairs) h = All-drop P n pairs h.1

take-IsSorted : (n : ℕ) (pairs : List CandidatePair) → IsSorted pairs → IsSorted (take n pairs)
take-IsSorted ℕ.zero pairs h = tt
take-IsSorted (suc n) [] h = tt
take-IsSorted (suc n) (p ∷ pairs) h = (All-take _ n pairs h.0, take-IsSorted n pairs h.1)

any-take :
    (f : CandidatePair → Bool) (n : ℕ) (pairs : List CandidatePair)
    → any f pairs ≡ false
    → any f (take n pairs) ≡ false
any-take f ℕ.zero pairs h = refl
any-take f (suc n) [] h = refl
any-take f (suc n) (p ∷ pairs) h = ground (arith, any-take f n pairs)

take-IsDistinct :
    (n : ℕ) (pairs : List CandidatePair) → IsDistinct pairs → IsDistinct (take n pairs)
take-IsDistinct ℕ.zero pairs h = tt
take-IsDistinct (suc n) [] h = tt
take-IsDistinct (suc n) (p ∷ pairs) h = (any-take _ n pairs h.0, take-IsDistinct n pairs h.1)

abbrev pub IsCheckList : ℕ → List CandidatePair → Type 0
IsCheckList max_pairs pairs = IsDistinct pairs × (IsSorted pairs × (length pairs ≤ max_pairs))

-- Whatever the candidates are, from distinct pairs `form_pairs` makes distinct pairs in the order
-- of their priorities, at most `max_pairs` of them.
pub form_pairs-IsCheckList :
    (c : Bool) (max_pairs : ℕ) (locals remotes : List (ℕ × Candidate)) (pairs : List CandidatePair)
    → IsDistinct pairs
    → IsCheckList max_pairs (form_pairs c max_pairs locals remotes pairs)
unfolding form_pairs
form_pairs-IsCheckList c max_pairs locals remotes pairs h =
    let formed = sort_by_priority (form_all c locals remotes pairs) in
    rw (prune_pairs-take max_pairs formed) (
      take-IsDistinct max_pairs formed
          (sort_by_priority-IsDistinct _ (form_all-IsDistinct c locals remotes pairs h)),
      (
        take-IsSorted max_pairs formed
            (sort_by_priority-IsSorted (form_all c locals remotes pairs)),
        length-take_le max_pairs formed,
      ),
    )

keeps_lowest-take :
    (n : ℕ) (pairs : List CandidatePair)
    → IsSorted pairs
    → (take n pairs ++ drop n pairs ≡ pairs)
      × All (λ p. All (λ q. p.priority ≤ q.priority) (drop n pairs)) (take n pairs)
keeps_lowest-take ℕ.zero pairs h = (refl, tt)
keeps_lowest-take (suc n) [] h = (refl, tt)
keeps_lowest-take (suc n) (p ∷ pairs) h =
    let (parts, lowest) = keeps_lowest-take n pairs h.1 in
    (ap (◌∷◌ p) parts, (All-drop _ n pairs h.0, lowest))

-- Pruning a sorted list keeps the pairs of the lowest priorities: the list is what is kept and
-- what is dropped, and no pair that is dropped has a lower priority than one that is kept.
pub prune_pairs-keeps_lowest :
    (max_pairs : ℕ) (pairs : List CandidatePair)
    → IsSorted pairs
    → (prune_pairs max_pairs pairs ++ drop max_pairs pairs ≡ pairs)
      × All
          (λ p. All (λ q. p.priority ≤ q.priority) (drop max_pairs pairs))
          (prune_pairs max_pairs pairs)
prune_pairs-keeps_lowest max_pairs pairs h =
    rw (prune_pairs-take max_pairs pairs) (keeps_lowest-take max_pairs pairs h)
