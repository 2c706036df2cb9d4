-- ===== src/Sip/Headers/Values.antt =====
-- The values held under a name in the multimap of sip/sip-types/src/header/headers.rs, and what the
-- two ways to write them do.
use mathlib.Core.List.{append-nil, append_assoc}
use ezk.Common.{
  ◌≡◌, refl, ◌∙◌, List, [], ◌∷◌, ◌++◌, none, some, Bool, true, false, inl, inr, if◌then◌else◌,
  Bool-cases, Option-cases, arith,
}
use ezk.Sip.Headers.{
  OneOrMore, one, more, Entry, push, extend, to_list, update, insert, insert_front, insert_all,
}

-- The comparison of header names is an equivalence. The `==` of `Name` is one on names of which none
-- is unknown and spelled as a known one.
pub record IsSame {N : Type 0} (same : N → N → Bool) : Type 0 where
  pub same_refl : (a : N) → same a a ≡ true
  pub same_symm : (a b : N) → same a b ≡ true → same b a ≡ true
  pub same_trans : (a b c : N) → same a b ≡ true → same b c ≡ true → same a c ≡ true

module _ {N : Type 0} {same : N → N → Bool} (s : IsSame same) where
  bool_eq : (a b : Bool) → (a ≡ true → b ≡ true) → (b ≡ true → a ≡ true) → a ≡ b
  bool_eq true b f g = ground (arith, f refl)
  bool_eq false true f g = g refl
  bool_eq false false f g = refl

  -- Names that are the same are the same as the same names.
  pub same_left : (a n m : N) → same a n ≡ true → same a m ≡ same n m
  same_left a n m h =
      bool_eq (same a m) (same n m) (s.same_trans n a m (s.same_symm a n h)) (s.same_trans a n m h)

  pub same_apart : (a n m : N) → same a n ≡ false → same a m ≡ true → same n m ≡ false
  same_apart a n m h k = elim (Bool-cases (same n m)) [
    | inr e ↦ e
    | inl e ↦ cc (s.same_trans a m n k (s.same_symm n m e))
  ]

  pub same_right : (a n m : N) → same n m ≡ true → same a n ≡ same a m
  same_right a n m h =
      bool_eq (same a n) (same a m) (λ e. s.same_trans a n m e h)
        (λ e. s.same_trans a m n e (s.same_symm n m h))

module _ {V : Type 0} where
  pub to_list-push :
      (values : OneOrMore V) (v : V) → to_list (push values v) ≡ to_list values ++ (v ∷ [])
  unfolding to_list push
  to_list-push (one x) v = refl
  to_list-push (more xs) v = refl

  to_list-extend :
      (values : OneOrMore V) (vs : List V) → to_list (extend values vs) ≡ to_list values ++ vs
  unfolding to_list extend
  to_list-extend (one x) [] = refl
  to_list-extend (one x) (v ∷ vs) = refl
  to_list-extend (more xs) vs = refl

module _ {N V : Type 0} (same : N → N → Bool) where
  -- All the values under a name, in order: those of the first entry with the name.
  unfoldable pub values_of : List (Entry N V) → N → List V
  unfolding to_list
  values_of [] m = []
  values_of (e ∷ entries) m = if same e.name m then to_list e.values else values_of entries m

module _ {N V : Type 0} {same : N → N → Bool} (s : IsSame same) where
  update_miss :
      (n : N) (write : OneOrMore V → OneOrMore V) (x : Entry N V) (entries r : List (Entry N V))
      → same x.name n ≡ false
      → update same n write entries ≡ some r
      → update same n write (x ∷ entries) ≡ some (x ∷ r)
  unfolding update
  update_miss n write x entries r miss e = rw (miss, e)

  -- The values after a write through `entry_mut`, by the list that the write makes.
  pub values_of-update :
      (n m : N) (write : OneOrMore V → OneOrMore V) (to : List V → List V)
      → ((v : OneOrMore V) → to_list (write v) ≡ to (to_list v))
      → (entries r : List (Entry N V)) → update same n write entries ≡ some r
      → values_of same r m
        ≡ (if same n m then to (values_of same entries m) else values_of same entries m)
  unfolding update values_of
  values_of-update n m write to h [] r e = cc
  values_of-update n m write to h (x ∷ entries) r e = elim (Bool-cases (same x.name n)) [
    | inl hit ↦ ground (arith, h x.values, same_left s x.name n m hit)
    | inr miss ↦ elim (Option-cases (update same n write entries)) [
      | inl e' ↦ ground arith
      | inr (r', e') ↦
          ground
            (arith, values_of-update n m write to h entries r' e', same_apart s x.name n m miss)
    ]
  ]

  -- A name that no write finds has no values.
  values_of-update-none :
      (n m : N) (write : OneOrMore V → OneOrMore V) (entries : List (Entry N V))
      → update same n write entries ≡ none
      → same n m ≡ true
      → values_of same entries m ≡ []
  unfolding update values_of
  values_of-update-none n m write [] e h = refl
  values_of-update-none n m write (x ∷ entries) e h =
      ground (arith, same_apart s x.name n m, values_of-update-none n m write entries)

  -- A name that no write finds gets a new entry at the end.
  values_of-append :
      (n m : N) (write : OneOrMore V → OneOrMore V) (values : OneOrMore V)
      (entries : List (Entry N V))
      → update same n write entries ≡ none
      → values_of same (entries ++ (record { name = n; values = values } ∷ [])) m
        ≡ (if same n m then to_list values else values_of same entries m)
  unfolding update values_of
  values_of-append n m write values [] e = refl
  values_of-append n m write values (x ∷ entries) e =
      ground (arith, same_apart s x.name n m, values_of-append n m write values entries)

  -- The value goes behind those that its name has, and no other name's values change.
  values_of-insert :
      (n m : N) (v : V) (entries : List (Entry N V))
      → values_of same (insert same n v entries) m
        ≡ (if same n m then values_of same entries m ++ (v ∷ []) else values_of same entries m)
  unfolding insert to_list
  values_of-insert n m v entries =
      let write = λ (values : OneOrMore V). push values v in
      elim (Option-cases (update same n write entries)) [
        | inr (r, e) ↦
            rw (e, insert)
              (values_of-update n m write (λ vs. vs ++ (v ∷ [])) (λ values. to_list-push values v)
                entries r e)
        | inl e ↦
            rw (e, insert)
              (values_of-append n m write (one v) entries e
                ∙ ground (arith, values_of-update-none n m write entries e))
      ]

  values_of-insert_front :
      (n m : N) (v : V) (entries : List (Entry N V))
      → values_of same (insert_front same n v entries) m
        ≡ (if same n m then values_of same entries m ++ (v ∷ []) else values_of same entries m)
  unfolding insert_front values_of
  values_of-insert_front n m v entries =
      let write = λ (values : OneOrMore V). push values v in
      elim (Option-cases (update same n write entries)) [
        | inr (r, e) ↦
            rw (e, insert_front)
              (values_of-update n m write (λ vs. vs ++ (v ∷ [])) (λ values. to_list-push values v)
                entries r e)
        | inl e ↦ rw (e, insert_front) (ground (arith, values_of-update-none n m write entries e))
      ]

  pub values_of-insert_all :
      (n m : N) (vs : List V) (entries : List (Entry N V))
      → values_of same (insert_all same n vs entries) m
        ≡ (if same n m then values_of same entries m ++ vs else values_of same entries m)
  unfolding insert_all
  values_of-insert_all n m [] entries = ground (arith, append-nil (values_of same entries m))
  values_of-insert_all n m (v ∷ vs) entries = ground (
    arith,
    values_of-insert_all n m vs (insert same n v entries),
    values_of-insert n m v entries,
    append_assoc (values_of same entries m) (v ∷ []) vs,
  )
