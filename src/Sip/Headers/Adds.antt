-- ===== src/Sip/Headers/Adds.antt =====
-- What writing a name that is not there does to the multimap of sip/sip-types/src/header/headers.rs.
-- Nothing is asked of the comparison of names but that the name is the same as itself.
use mathlib.Core.Path.{subst}
use ezk.Common.{
  ◌≡◌, refl, ◌∙◌, ap, List, [], ◌∷◌, ◌++◌, Bool, true, false, some, none, All, All-append, arith,
  Bool-cases, inl, inr,
}
use mathlib.Core.List.{append-nil, append_assoc}
use ezk.Common.Result.{ok}
use ezk.Sip.Headers.{
  Entry, OneOrMore, one, push, HeaderType, to_list, entry, contains, update, insert, insert_type,
  clone_into, insert_all,
}
use ezk.Sip.Headers.Values.{values_of, to_list-push}

module _ {N V : Type 0} (same : N → N → Bool) where
  -- No entry has a name that is the same as `n`.
  abbrev pub IsAbsent : N → List (Entry N V) → Type 0
  IsAbsent n entries = All (λ e. same e.name n ≡ false) entries

  -- `r` is `dest` with the values `vs` under the name `n`, which was not there.
  pub record Adds (n : N) (vs : List V) (dest r : List (Entry N V)) : Type 0 where
    pub own : values_of same r n ≡ vs
    pub others : (m : N) → same n m ≡ false → values_of same r m ≡ values_of same dest m
    pub absent : (m : N) → same n m ≡ false → IsAbsent m dest → IsAbsent m r

  values_of-absent :
      (n : N) (dest : List (Entry N V)) → IsAbsent n dest → values_of same dest n ≡ []
  unfolding values_of
  values_of-absent n [] h = refl
  values_of-absent n (e ∷ dest) h = rw (h.0) (values_of-absent n dest h.1)

  update_absent :
      (n : N) (write : OneOrMore V → OneOrMore V) (dest : List (Entry N V))
      → IsAbsent n dest
      → update same n write dest ≡ none
  unfolding update
  update_absent n write [] h = refl
  update_absent n write (e ∷ dest) h = rw (h.0, update_absent n write dest h.1) refl

  module _ (n : N) (is : same n n ≡ true) where
    -- The entry that was written last.
    abbrev with_last : List (Entry N V) → OneOrMore V → List (Entry N V)
    with_last dest values = dest ++ (record { name = n; values = values } ∷ [])

    update-behind :
        (write : OneOrMore V → OneOrMore V) (values : OneOrMore V) (dest : List (Entry N V))
        → IsAbsent n dest
        → update same n write (with_last dest values) ≡ some (with_last dest (write values))
    unfolding update
    update-behind write values [] h = rw is refl
    update-behind write values (e ∷ dest) h = rw (h.0, update-behind write values dest h.1) refl

    values_of-behind :
        (values : OneOrMore V) (dest : List (Entry N V))
        → IsAbsent n dest
        → values_of same (with_last dest values) n ≡ to_list values
    unfolding values_of
    values_of-behind values [] h = rw is refl
    values_of-behind values (e ∷ dest) h = rw (h.0) (values_of-behind values dest h.1)

    values_of-others :
        (m : N) (values : OneOrMore V) (dest : List (Entry N V))
        → same n m ≡ false
        → values_of same (with_last dest values) m ≡ values_of same dest m
    unfolding values_of
    values_of-others m values [] h = rw h refl
    values_of-others m values (e ∷ dest) h = ground (arith, values_of-others m values dest h)

    Adds-behind :
        (values : OneOrMore V) (dest : List (Entry N V))
        → IsAbsent n dest
        → Adds n (to_list values) dest (with_last dest values)
    Adds-behind values dest h = record {
      own = values_of-behind values dest h;
      others = λ m apart. values_of-others m values dest apart;
      absent = λ m apart there. All-append (λ e. same e.name m ≡ false) dest _ there (apart, tt);
    }

    insert-behind :
        (v : V) (values : OneOrMore V) (dest : List (Entry N V))
        → IsAbsent n dest
        → insert same n v (with_last dest values) ≡ with_last dest (push values v)
    unfolding insert
    insert-behind v values dest h =
        rw (update-behind (λ values. push values v) values dest h, insert) refl

    insert_absent :
        (v : V) (dest : List (Entry N V))
        → IsAbsent n dest
        → insert same n v dest ≡ with_last dest (one v)
    unfolding insert
    insert_absent v dest h = rw (update_absent n (λ values. push values v) dest h, insert) refl

    insert_all-behind :
        (vs : List V) (values : OneOrMore V) (dest : List (Entry N V))
        → IsAbsent n dest
        → Adds n (to_list values ++ vs) dest (insert_all same n vs (with_last dest values))
    unfolding insert_all
    insert_all-behind [] values dest h = rw append-nil (Adds-behind values dest h)
    insert_all-behind (v ∷ vs) values dest h = rw (insert-behind v values dest h) (
        subst (λ all. Adds n all dest (insert_all same n vs (with_last dest (push values v))))
          (ap (λ front. front ++ vs) (to_list-push values v)
            ∙ append_assoc (to_list values) (v ∷ []) vs)
          (insert_all-behind vs (push values v) dest h))

    insert_all-Adds :
        (vs : List V) (dest : List (Entry N V))
        → IsAbsent n dest
        → Adds n vs dest (insert_all same n vs dest)
    unfolding insert_all to_list
    insert_all-Adds [] dest h = record {
      own = values_of-absent n dest h;
      others = λ m apart. refl;
      absent = λ m apart there. there;
    }
    insert_all-Adds (v ∷ vs) dest h =
        rw (insert_absent v dest h) (insert_all-behind vs (one v) dest h)

    pub insert_type-Adds :
        {E H : Type 0} (t : HeaderType V E H) (h : H) (dest : List (Entry N V))
        → IsAbsent n dest
        → Adds n (to_list (t.create_values h)) dest (insert_type same t n h dest)
    unfolding insert_type
    insert_type-Adds t h dest absent =
        rw (update_absent n (t.extend_values h) dest absent, insert_type)
          (Adds-behind (t.create_values h) dest absent)

    entry_there :
        (entries : List (Entry N V))
        → contains same entries n ≡ true
        → (y : Entry N V) × (entry same entries n ≡ some y)
          × (values_of same entries n ≡ to_list y.values)
    unfolding contains entry values_of
    entry_there [] h = ground arith
    entry_there (e ∷ entries) h = elim (Bool-cases (same e.name n)) [
      | inl here ↦ (e, rw here refl, rw here refl)
      | inr not_here ↦
          let (y, found, values) = entry_there entries (rw not_here at h) in
          (y, rw not_here found, rw not_here values)
    ]

    pub clone_into-Adds :
        {E : Type 0} (entries dest : List (Entry N V))
        → contains same entries n ≡ true
        → IsAbsent n dest
        → (r : List (Entry N V)) × (clone_into same {E = E} entries dest n ≡ ok r)
          × Adds n (values_of same entries n) dest r
    unfolding clone_into
    clone_into-Adds entries dest there h =
        let (y, found, values) = entry_there entries there in
        (
          insert_all same n (to_list y.values) dest,
          rw (found, clone_into) refl,
          rw values (insert_all-Adds (to_list y.values) dest h),
        )
