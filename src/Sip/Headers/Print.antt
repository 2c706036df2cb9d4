-- ===== src/Sip/Headers/Print.antt =====
-- Iterating and printing the multimap of sip/sip-types/src/header/headers.rs.
use mathlib.Core.Option
use ezk.Common.{
  ℕ, ◌≡◌, refl, ap, List, [], ◌∷◌, ◌++◌, some, inl, inr, arith, length, length-append, All,
  Option-cases,
}
use ezk.Sip.Headers.{
  OneOrMore, one, more, Entry, to_list, iter, iter_entry, pairs, sum_len, lines, printed_len,
  display,
}

module _ {N V : Type 0} where
  -- `More` with no values, on which `iter` panics.
  abbrev pub HasValues : Entry N V → Type 0
  HasValues e = to_list e.values ≡ [] → ⊥

  -- The pairs of all entries, in order.
  abbrev pub all_pairs : List (Entry N V) → List (N × V)
  unfolding to_list
  all_pairs [] = []
  all_pairs (e ∷ entries) = pairs e.name (to_list e.values) ++ all_pairs entries

  iter_entry-pairs :
      (name : N) (values : OneOrMore V)
      → (to_list values ≡ [] → ⊥)
      → iter_entry name values ≡ some (pairs name (to_list values))
  unfolding to_list
  iter_entry-pairs name (one v) h = refl
  iter_entry-pairs name (more []) h = absurd (h refl)
  iter_entry-pairs name (more (v ∷ values)) h = refl

  -- Where every entry has a value, iterating does not panic, and yields each value of each entry
  -- in order, with the entry's name.
  iter-all_pairs :
      (entries : List (Entry N V)) → All HasValues entries → iter entries ≡ some (all_pairs entries)
  unfolding iter to_list
  iter-all_pairs [] h = refl
  iter-all_pairs (e ∷ entries) h =
      rw (iter_entry-pairs e.name e.values h.0, iter, iter-all_pairs entries h.1)

  module _ (name_str : N → List ℕ) (value_str : V → List ℕ) where
    sum_len-lines :
        (items : List (N × V))
        → sum_len name_str value_str items ≡ length (lines name_str value_str items)
    unfolding sum_len lines
    sum_len-lines [] = refl
    sum_len-lines ((name, value) ∷ items) = omega (
      arith,
      sum_len-lines items,
      length-append (name_str name)
          (b':' ∷ b' ' ∷ (value_str value ++ (13 ∷ 10 ∷ lines name_str value_str items))),
      length-append (value_str value) (13 ∷ 10 ∷ lines name_str value_str items),
    )

    -- `printed_len` is the number of bytes that `Display` prints, panics included.
    pub printed_len-display :
        (entries : List (Entry N V))
        → printed_len name_str value_str entries
          ≡ Option.map length (display name_str value_str entries)
    unfolding printed_len display
    printed_len-display entries = elim (Option-cases (iter entries)) [
      | inl e ↦ rw e
      | inr (items, e) ↦ rw e (ap some (sum_len-lines items))
    ]
