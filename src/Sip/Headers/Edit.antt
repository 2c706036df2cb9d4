-- ===== src/Sip/Headers/Edit.antt =====
-- Writing through an entry of the multimap of sip/sip-types/src/header/headers.rs: `edit`, and that
-- the insertions keep the names distinct.
use mathlib.Core.Option
use ezk.Common.{
  ◌≡◌, refl, ◌∙◌, ap, List, [], ◌∷◌, ◌++◌, Option, none, some, Bool, true, false, inl, inr,
  if◌then◌else◌, Bool-cases, arith, ◌||◌,
}
use ezk.Common.Result.{Result, ok, err}
use ezk.Sip.Headers.{
  OneOrMore, Entry, HeaderType, HeaderError, missing, to_list, contains, update, insert,
  insert_front, try_get, get, edit, write_back, push,
}
use ezk.Sip.Headers.Values.{IsSame, values_of, values_of-update}
use ezk.Sip.Headers.Lookup.{IsDistinct, contains-entry}

module _ {N : Type 0} {same : N → N → Bool} (s : IsSame same) where
  apart_symm : (a b : N) → same a b ≡ false → same b a ≡ false
  apart_symm a b h = elim (Bool-cases (same b a)) [ inr e ↦ e | inl e ↦ cc (s.same_symm b a e) ]

module _ {N V : Type 0} {same : N → N → Bool} (s : IsSame same) where
  abbrev Updated : N → List (Entry N V) → Option (List (Entry N V)) → Type 0
  Updated n entries none = contains same entries n ≡ false
  Updated n entries (some r) =
      IsDistinct same r
      × ((m : N) → contains same r m ≡ contains same entries m)
      × (contains same entries n ≡ true)

  extend-Updated :
      (n : N) (x : Entry N V) (entries : List (Entry N V)) (o : Option (List (Entry N V)))
      → same x.name n ≡ false
      → contains same entries x.name ≡ false
      → Updated n entries o
      → Updated n (x ∷ entries) (Option.map (◌∷◌ x) o)
  unfolding contains
  extend-Updated n x entries none miss d h = rw (miss, h)
  extend-Updated n x entries (some r) miss d h =
      ((h.1 x.name ∙ d, h.0), λ m. ap (λ b. same x.name m || b) (h.1 m), rw (miss, h.2))

  -- A write through `entry_mut` keeps the names, and fails where the name is not there.
  update-Updated :
      (n : N) (write : OneOrMore V → OneOrMore V) (entries : List (Entry N V))
      → IsDistinct same entries
      → Updated n entries (update same n write entries)
  unfolding update contains
  update-Updated n write [] h = refl
  update-Updated n write (x ∷ entries) h = elim (Bool-cases (same x.name n)) [
    | inl hit ↦ rw (hit, update) ((h.0, h.1), λ m. refl, rw hit)
    | inr miss ↦
        rw (miss, update)
          (extend-Updated n x entries (update same n write entries) miss h.0
            (update-Updated n write entries h.1))
  ]

  contains-append :
      (entries : List (Entry N V)) (e : Entry N V) (m : N)
      → contains same (entries ++ (e ∷ [])) m ≡ (contains same entries m || same e.name m)
  unfolding contains
  contains-append [] e m = ground arith
  contains-append (x ∷ entries) e m = ground (arith, contains-append entries e m)

  append-IsDistinct :
      (entries : List (Entry N V)) (e : Entry N V)
      → IsDistinct same entries
      → contains same entries e.name ≡ false
      → IsDistinct same (entries ++ (e ∷ []))
  unfolding contains
  append-IsDistinct [] e h fresh = (refl, tt)
  append-IsDistinct (x ∷ entries) e h fresh = (
    ground (arith, contains-append entries e x.name, apart_symm s x.name e.name),
    append-IsDistinct entries e h.1 (ground arith),
  )

  -- Inserting keeps the names distinct, at either end.
  insert-IsDistinct :
      (n : N) (v : V) (entries : List (Entry N V))
      → IsDistinct same entries
      → IsDistinct same (insert same n v entries) × IsDistinct same (insert_front same n v entries)
  unfolding insert insert_front
  insert-IsDistinct n v entries h =
      go (update same n (λ values. push values v) entries) refl
        (update-Updated n (λ values. push values v) entries h)
    where
      go :
          (o : Option (List (Entry N V)))
          → update same n (λ values. push values v) entries ≡ o
          → Updated n entries o
          → IsDistinct same (insert same n v entries)
            × IsDistinct same (insert_front same n v entries)
      go none e u = rw (e, insert, insert_front) (append-IsDistinct entries _ h u, (u, h))
      go (some r) e u = rw (e, insert, insert_front) (u.0, u.0)

  abbrev pub Edits :
      {E H : Type 0}
      → HeaderType V E H
      → N
      → (H → H)
      → N
      → List (Entry N V)
      → Result (HeaderError N E) H
      → Result (HeaderError N E) (List (Entry N V))
      → Type 0
  Edits t n change m entries (err e) r = r ≡ err e
  Edits t n change m entries (ok header) r =
      (entries' : List (Entry N V)) × (r ≡ ok entries')
      × (values_of same entries' m ≡ (
          if same n m then to_list (t.create_values (change header)) else values_of same entries m))

  write_back-Edits :
      {E H : Type 0} (t : HeaderType V E H) (n m : N) (change : H → H) (entries : List (Entry N V))
      (got : Result (HeaderError N E) H)
      → IsDistinct same entries
      → (contains same entries n ≡ false → (header : H) → got ≡ ok header → ⊥)
      → Edits t n change m entries got (write_back same t n entries change got)
  unfolding write_back
  write_back-Edits t n m change entries (err e) h present = refl
  write_back-Edits t n m change entries (ok header) h present =
      go (update same n (λ _. t.create_values (change header)) entries) refl
        (update-Updated n (λ _. t.create_values (change header)) entries h)
    where
      go :
          (o : Option (List (Entry N V)))
          → update same n (λ _. t.create_values (change header)) entries ≡ o
          → Updated n entries o
          → Edits t n change m entries (ok header) (write_back same t n entries change (ok header))
      go none e u = absurd (present u header refl)
      go (some r) e u = (
        r,
        rw (e, write_back),
        values_of-update s n m (λ _. t.create_values (change header))
            (λ _. to_list (t.create_values (change header))) (λ v. refl) entries r e,
      )

  get-missing :
      {E H : Type 0} (t : HeaderType V E H) (n : N) (entries : List (Entry N V))
      → contains same entries n ≡ false
      → get same t entries n ≡ err (missing n)
  unfolding get try_get
  get-missing t n entries h = elim (contains-entry s n entries) [
    | inl (e, c) ↦ rw (e, get, try_get)
    | inr (y, e, c, v) ↦ cc
  ]

  -- Editing a header that `get` gives replaces the values under its name by those of the edited
  -- header, and touches no other name; otherwise the edit answers the error of `get`.
  pub edit-Edits :
      {E H : Type 0} (t : HeaderType V E H) (n m : N) (change : H → H) (entries : List (Entry N V))
      → IsDistinct same entries
      → Edits t n change m entries (get same t entries n) (edit same t n change entries)
  unfolding edit
  edit-Edits t n m change entries h =
      write_back-Edits t n m change entries (get same t entries n) h
        (λ absent header e. ne (get-missing t n entries absent) e)
    where
      ne :
          {E H : Type 0} {r : Result (HeaderError N E) H} {x : HeaderError N E} {y : H}
          → r ≡ err x
          → r ≡ ok y
          → ⊥
      ne a b = cc
