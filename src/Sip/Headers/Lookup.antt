-- ===== src/Sip/Headers/Lookup.antt =====
-- What the operations on a whole multimap of sip/sip-types/src/header/headers.rs do to its values.
use mathlib.Core.List.{append-nil}
use ezk.Common.{
  ◌≡◌, refl, List, [], ◌∷◌, ◌++◌, Option, none, some, Bool, true, false, ◌⊎◌, inl, inr,
  if◌then◌else◌, Bool-cases, arith,
}
use ezk.Common.Result.{ok, err}
use ezk.Sip.Headers.{
  Entry, missing, to_list, entry, contains, remove_where, remove, insert_all, clone_into, drain,
  drain_into,
}
use ezk.Sip.Headers.Values.{
  IsSame, same_left, same_apart, same_right, values_of, values_of-insert_all,
}

module _ {N V : Type 0} (same : N → N → Bool) where
  -- No two entries have the same name.
  abbrev pub IsDistinct : List (Entry N V) → Type 0
  IsDistinct [] = Unit {0}
  IsDistinct (e ∷ entries) = (contains same entries e.name ≡ false) × IsDistinct entries

  -- Where a name is not contained, it has no values.
  values_of-absent :
      (m : N) (entries : List (Entry N V))
      → contains same entries m ≡ false
      → values_of same entries m ≡ []
  unfolding values_of contains
  values_of-absent m [] h = refl
  values_of-absent m (x ∷ entries) h = ground (arith, values_of-absent m entries)

module _ {N V : Type 0} {same : N → N → Bool} (s : IsSame same) where
  contains-same :
      (n m : N) (entries : List (Entry N V))
      → same n m ≡ true
      → contains same entries n ≡ contains same entries m
  unfolding contains
  contains-same n m [] h = refl
  contains-same n m (x ∷ entries) h =
      ground (arith, contains-same n m entries h, same_right s x.name n m h)

  values_of-drain :
      (m : N) (entries dst : List (Entry N V))
      → IsDistinct same entries
      → values_of same (drain same entries dst) m ≡ values_of same dst m ++ values_of same entries m
  unfolding drain values_of
  values_of-drain m [] dst h = rw append-nil
  values_of-drain m (x ∷ entries) dst h = ground (
    arith,
    values_of-drain m entries (insert_all same x.name (to_list x.values) dst) h.1,
    values_of-insert_all s x.name m (to_list x.values) dst,
    contains-same x.name m entries,
    values_of-absent same m entries,
    append-nil (values_of same dst m ++ to_list x.values),
  )

  -- Draining a map of distinct names puts the values of each name behind those of the target,
  -- and leaves the map empty.
  values_of-drain_into :
      (m : N) (entries dst : List (Entry N V))
      → IsDistinct same entries
      → (values_of same (drain_into same entries dst).1 m
          ≡ values_of same dst m ++ values_of same entries m)
        × ((drain_into same entries dst).0 ≡ [])
  unfolding drain_into
  values_of-drain_into m entries dst h = (values_of-drain m entries dst h, refl)

  pub contains-entry :
      (m : N) (entries : List (Entry N V))
      → (entry same entries m ≡ none × (contains same entries m ≡ false))
        ⊎ ((e : Entry N V) × (entry same entries m ≡ some e)
            × (contains same entries m ≡ true)
            × (values_of same entries m ≡ to_list e.values))
  unfolding entry contains values_of
  contains-entry m [] = inl (refl, refl)
  contains-entry m (x ∷ entries) = elim (Bool-cases (same x.name m)) [
    | inl hit ↦ inr (x, rw hit, rw hit, rw hit)
    | inr miss ↦ elim (contains-entry m entries) [
      | inl (e, c) ↦ inl (rw (miss, e), rw (miss, c))
      | inr (y, e, c, v) ↦ inr (y, rw (miss, e), rw (miss, c), rw (miss, v))
    ]
  ]

  -- Cloning a name that is there puts its values behind those of the target and changes no other
  -- name of the target; cloning a name that is not there is the error that says so.
  values_of-clone_into :
      {E : Type 0} (n m : N) (entries dest : List (Entry N V))
      → ((contains same entries n ≡ false)
          × (clone_into same {E = E} entries dest n ≡ err (missing n)))
        ⊎ ((r : List (Entry N V)) × (contains same entries n ≡ true)
            × (clone_into same {E = E} entries dest n ≡ ok r)
            × (values_of same r m ≡ (
                if same n m
                then values_of same dest m ++ values_of same entries n
                else values_of same dest m)))
  unfolding clone_into
  values_of-clone_into n m entries dest = elim (contains-entry n entries) [
    | inl (e, c) ↦ inl (c, rw (e, clone_into))
    | inr (y, e, c, v) ↦ inr (
      insert_all same n (to_list y.values) dest,
      c,
      rw (e, clone_into),
      rw v (values_of-insert_all s n m (to_list y.values) dest),
    )
  ]

  abbrev Removes : N → N → List (Entry N V) → Option (Entry N V × List (Entry N V)) → Type 0
  Removes n m entries none = contains same entries n ≡ false
  Removes n m entries (some (e, rest)) =
      (contains same entries n ≡ true)
      × (to_list e.values ≡ values_of same entries n)
      × (contains same rest m ≡ (if same n m then false else contains same entries m))
      × (values_of same rest m ≡ (if same n m then [] else values_of same entries m))

  remove_where-Removes :
      (n m : N) (entries : List (Entry N V))
      → IsDistinct same entries
      → Removes n m entries (remove_where same n entries)
  unfolding remove_where contains values_of
  remove_where-Removes n m [] h = refl
  remove_where-Removes n m (x ∷ entries) h = ground (
    arith,
    remove_where-Removes n m entries h.1,
    same_left s x.name n m,
    same_apart s x.name n m,
    contains-same x.name m entries,
    values_of-absent same m entries,
  )

  abbrev pub Removal : N → N → List (Entry N V) → Option (List V) × List (Entry N V) → Type 0
  Removal n m entries r =
      (r.0 ≡ (if contains same entries n then some (values_of same entries n) else none))
      × (contains same r.1 m ≡ (if same n m then false else contains same entries m))
      × (values_of same r.1 m ≡ (if same n m then [] else values_of same entries m))

  -- Removing a name from a map of distinct names returns its values, if it is there; afterwards the
  -- name is gone with its values, and no other name is touched.
  remove-Removal :
      (n m : N) (entries : List (Entry N V))
      → IsDistinct same entries
      → Removal n m entries (remove same n entries)
  unfolding remove
  remove-Removal n m entries h = go (remove_where same n entries) refl
    where
      go :
          (o : Option (Entry N V × List (Entry N V)))
          → remove_where same n entries ≡ o
          → Removal n m entries (remove same n entries)
      go none e =
          let r = remove_where-Removes n m entries h in
          rw (e, remove)
            (ground (arith, e, r, contains-same n m entries, values_of-absent same m entries))
      go (some (x, rest)) e =
          let r = remove_where-Removes n m entries h in rw (e, remove) (ground (arith, e, r))
