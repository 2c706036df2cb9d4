-- ===== src/Ice/Pairs/Forming.antt =====
-- The list of pairs of media/ice/src/lib.rs under sorting and appending: sorted and distinct.
use ezk.Common.{
  ℕ, ◌≤◌, ◌≡◌, refl, ap, ◌∙◌, List, [], ◌∷◌, ◌++◌, Bool, false, ◌||◌, any, All, arith, Bool-cases,
  inl, inr, leb, leb→le,
}
use ezk.Ice.Types.{CandidatePair}
use ezk.Ice.Pairs.{key_is, insert_sorted, sort_by_priority}

abbrev pub IsSorted : List CandidatePair → Type 0
IsSorted [] = Unit {0}
IsSorted (p ∷ pairs) = All (λ q. p.priority ≤ q.priority) pairs × IsSorted pairs

-- No two pairs have the same candidates.
abbrev pub IsDistinct : List CandidatePair → Type 0
IsDistinct [] = Unit {0}
IsDistinct (p ∷ pairs) = (any (key_is p.local p.remote) pairs ≡ false) × IsDistinct pairs

All-insert_sorted :
    (P : CandidatePair → Type 0) (p : CandidatePair) (pairs : List CandidatePair)
    → P p
    → All P pairs
    → All P (insert_sorted p pairs)
unfolding insert_sorted
All-insert_sorted P p [] h hs = (h, tt)
All-insert_sorted P p (q ∷ pairs) h hs = elim (Bool-cases (leb p.priority q.priority)) [
  | inl e ↦ rw (e, insert_sorted) (h, hs)
  | inr e ↦ rw (e, insert_sorted) (hs.0, All-insert_sorted P p pairs h hs.1)
]

All-le :
    (m n : ℕ) (pairs : List CandidatePair)
    → m ≤ n
    → All (λ q. n ≤ q.priority) pairs
    → All (λ q. m ≤ q.priority) pairs
All-le m n [] h hs = tt
All-le m n (q ∷ pairs) h hs = (omega (arith, hs.0), All-le m n pairs h hs.1)

insert_sorted-IsSorted :
    (p : CandidatePair) (pairs : List CandidatePair)
    → IsSorted pairs
    → IsSorted (insert_sorted p pairs)
unfolding insert_sorted
insert_sorted-IsSorted p [] h = (tt, tt)
insert_sorted-IsSorted p (q ∷ pairs) h = elim (Bool-cases (leb p.priority q.priority)) [
  | inl e ↦
      rw (e, insert_sorted)
        (
          (
            leb→le p.priority q.priority e,
            All-le p.priority q.priority pairs (leb→le p.priority q.priority e) h.0,
          ),
          h,
        )
  | inr e ↦
      rw (e, insert_sorted)
        (All-insert_sorted _ p pairs (ground arith) h.0, insert_sorted-IsSorted p pairs h.1)
]

pub sort_by_priority-IsSorted : (pairs : List CandidatePair) → IsSorted (sort_by_priority pairs)
unfolding sort_by_priority
sort_by_priority-IsSorted [] = tt
sort_by_priority-IsSorted (p ∷ pairs) =
    insert_sorted-IsSorted p (sort_by_priority pairs) (sort_by_priority-IsSorted pairs)

any-insert_sorted :
    (f : CandidatePair → Bool) (p : CandidatePair) (pairs : List CandidatePair)
    → any f (insert_sorted p pairs) ≡ (f p || any f pairs)
unfolding insert_sorted
any-insert_sorted f p [] = refl
any-insert_sorted f p (q ∷ pairs) = ground (arith, any-insert_sorted f p pairs)

any-sort_by_priority :
    (f : CandidatePair → Bool) (pairs : List CandidatePair)
    → any f (sort_by_priority pairs) ≡ any f pairs
unfolding sort_by_priority
any-sort_by_priority f [] = refl
any-sort_by_priority f (p ∷ pairs) =
    any-insert_sorted f p (sort_by_priority pairs) ∙ ap (◌||◌ (f p)) (any-sort_by_priority f pairs)

insert_sorted-IsDistinct :
    (p : CandidatePair) (pairs : List CandidatePair)
    → any (key_is p.local p.remote) pairs ≡ false
    → IsDistinct pairs
    → IsDistinct (insert_sorted p pairs)
unfolding insert_sorted
insert_sorted-IsDistinct p [] a h = (refl, tt)
insert_sorted-IsDistinct p (q ∷ pairs) a h = elim (Bool-cases (leb p.priority q.priority)) [
  | inl e ↦ rw (e, insert_sorted) (a, h)
  | inr e ↦
      rw (e, insert_sorted)
        (
          any-insert_sorted (key_is q.local q.remote) p pairs ∙ ground arith,
          insert_sorted-IsDistinct p pairs (ground arith) h.1,
        )
]

pub sort_by_priority-IsDistinct :
    (pairs : List CandidatePair) → IsDistinct pairs → IsDistinct (sort_by_priority pairs)
unfolding sort_by_priority
sort_by_priority-IsDistinct [] h = tt
sort_by_priority-IsDistinct (p ∷ pairs) h =
    insert_sorted-IsDistinct p (sort_by_priority pairs)
      (any-sort_by_priority (key_is p.local p.remote) pairs ∙ h.0)
      (sort_by_priority-IsDistinct pairs h.1)

any-append_one :
    (f : CandidatePair → Bool) (pairs : List CandidatePair) (p : CandidatePair)
    → any f (pairs ++ (p ∷ [])) ≡ (any f pairs || f p)
any-append_one f [] p = ground arith
any-append_one f (q ∷ pairs) p = ground (arith, any-append_one f pairs p)

pub append_one-IsDistinct :
    (pairs : List CandidatePair) (p : CandidatePair)
    → any (key_is p.local p.remote) pairs ≡ false
    → IsDistinct pairs
    → IsDistinct (pairs ++ (p ∷ []))
append_one-IsDistinct [] p a h = (refl, tt)
append_one-IsDistinct (q ∷ pairs) p a h = (
  any-append_one (key_is q.local q.remote) pairs p ∙ ground arith,
  append_one-IsDistinct pairs p (ground arith) h.1,
)
