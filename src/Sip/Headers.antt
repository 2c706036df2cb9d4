-- ===== src/Sip/Headers.antt =====
-- sip/sip-types/src/header/headers.rs: the `Vec`-backed multimap of message headers.
-- Names are compared by `same`, the `==` of `Name`; a value is the `BytesStr` of one header line.
-- A header type is what its `DecodeValues` and `ExtendValues` implementations do.
pub mod Values
pub mod Lookup
pub mod Edit
pub mod Print
pub mod Adds
use mathlib.Core.Option
use ezk.Common.Result.{Result, ok, err, ok_or, map_err, ◌>>=◌}
use ezk.Common.{
  ℕ, ◌+◌, List, [], ◌∷◌, ◌++◌, Option, none, some, Bool, length, find, any, if◌then◌else◌,
}

pub data OneOrMore (V : Type 0) : Type 0 where
  one : V → OneOrMore V
  more : List V → OneOrMore V

pub record Entry (N V : Type 0) : Type 0 where
  pub name : N
  pub values : OneOrMore V

pub data HeaderError (N E : Type 0) : Type 0 where
  missing : N → HeaderError N E
  malformed : N → E → HeaderError N E

-- The trait implementations of a header type `H`; `E` is the parser's error.
pub record HeaderType (V E H : Type 0) : Type 0 where
  pub decode : List V → Result E H
  pub extend_values : H → OneOrMore V → OneOrMore V
  pub create_values : H → OneOrMore V

module _ {V : Type 0} where
  unfoldable pub push : OneOrMore V → V → OneOrMore V
  push (one existing) value = more (existing ∷ value ∷ [])
  push (more vec) value = more (vec ++ (value ∷ []))

  -- `Extend for OneOrMore`.
  unfoldable pub extend : OneOrMore V → List V → OneOrMore V
  extend (one value) [] = one value
  extend (one value) (v ∷ vec) = more (value ∷ v ∷ vec)
  extend (more vec) iter = more (vec ++ iter)

  -- What `decode` iterates over.
  unfoldable pub to_list : OneOrMore V → List V
  to_list (one v) = v ∷ []
  to_list (more v) = v

module _ {N V : Type 0} (same : N → N → Bool) where
  unfoldable pub entry : List (Entry N V) → N → Option (Entry N V)
  entry entries n = find (λ e. same e.name n) entries

  unfoldable pub contains : List (Entry N V) → N → Bool
  contains entries name = any (λ e. same e.name name) entries

  -- `entry_mut` and a write through it; `none` is a name that is not there.
  unfoldable pub update :
      N → (OneOrMore V → OneOrMore V) → List (Entry N V) → Option (List (Entry N V))
  update n write [] = none
  update n write (e ∷ entries) =
      let rest = Option.map (◌∷◌ e) (update n write entries) in
      if same e.name n then some (record e { values = write e.values } ∷ entries) else rest

  -- `vec.iter().position(f).map(|i| vec.remove(i))`: the removed entry, and what is left.
  unfoldable pub remove_where : N → List (Entry N V) → Option (Entry N V × List (Entry N V))
  remove_where n [] = none
  remove_where n (e ∷ entries) =
      let rest =
        Option.map (λ (r : Entry N V × List (Entry N V)). (r.0, e ∷ r.1))
          (remove_where n entries) in
      if same e.name n then some (e, entries) else rest

  unfoldable pub insert : N → V → List (Entry N V) → List (Entry N V)
  unfolding update push
  insert name value entries = elim (update name (λ values. push values value) entries) [
    | some entries' ↦ entries'
    | none ↦ entries ++ (record { name = name; values = one value } ∷ [])
  ]

  unfoldable pub insert_front : N → V → List (Entry N V) → List (Entry N V)
  unfolding update push
  insert_front name value entries = elim (update name (λ values. push values value) entries) [
    | some entries' ↦ entries'
    | none ↦ record { name = name; values = one value } ∷ entries
  ]

  unfoldable pub remove : N → List (Entry N V) → Option (List V) × List (Entry N V)
  unfolding remove_where to_list
  remove name entries = elim (remove_where name entries) [
    | none ↦ (none, entries)
    | some (e, rest) ↦ (some (to_list e.values), rest)
  ]

  -- The loop of `clone_into` and of `drain_into` over the values of one name.
  unfoldable pub insert_all : N → List V → List (Entry N V) → List (Entry N V)
  unfolding insert
  insert_all name [] dest = dest
  insert_all name (v ∷ values) dest = insert_all name values (insert name v dest)

  -- The answer, and `dest` afterwards.
  unfoldable pub clone_into :
      {E : Type 0}
      → List (Entry N V)
      → List (Entry N V)
      → N
      → Result (HeaderError N E) (List (Entry N V))
  unfolding entry to_list insert_all
  clone_into entries dest name = elim (entry entries name) [
    | none ↦ err (missing name)
    | some e ↦ ok (insert_all name (to_list e.values) dest)
  ]

  -- The drained map, which is empty, and `dst`.
  drain : List (Entry N V) → List (Entry N V) → List (Entry N V)
  drain [] dst = dst
  drain (e ∷ entries) dst = drain entries (insert_all e.name (to_list e.values) dst)

  unfoldable pub drain_into :
      List (Entry N V) → List (Entry N V) → List (Entry N V) × List (Entry N V)
  unfolding drain insert_all to_list
  drain_into entries dst = ([], drain entries dst)

module _ {N V : Type 0} where
  abbrev pairs : N → List V → List (N × V)
  pairs name [] = []
  pairs name (v ∷ values) = (name, v) ∷ pairs name values

  -- `Headers::iter`: the name and value pairs in order; `none` is the panic on an empty `More`.
  abbrev iter_entry : N → OneOrMore V → Option (List (N × V))
  iter_entry name (one v) = some ((name, v) ∷ [])
  iter_entry name (more []) = none
  iter_entry name (more (v ∷ values)) = some ((name, v) ∷ pairs name values)

  unfoldable pub iter : List (Entry N V) → Option (List (N × V))
  iter [] = some []
  iter (e ∷ entries) = elim (iter_entry e.name e.values) [
    | none ↦ none
    | some front ↦ Option.map (◌++◌ front) (iter entries)
  ]

  -- `name_str` is `as_print_str`, and `value_str` the bytes of a value.
  module _ (name_str : N → List ℕ) (value_str : V → List ℕ) where
    sum_len : List (N × V) → ℕ
    sum_len [] = 0
    sum_len ((name, value) ∷ items) =
        length (name_str name) + length (value_str value) + 4 + sum_len items

    unfoldable pub printed_len : List (Entry N V) → Option ℕ
    unfolding iter sum_len
    printed_len entries = Option.map sum_len (iter entries)

    lines : List (N × V) → List ℕ
    lines [] = []
    lines ((name, value) ∷ items) =
        name_str name ++ (b':' ∷ b' ' ∷ (value_str value ++ (13 ∷ 10 ∷ lines items)))

    -- `Display for Headers`: "{}: {}\r\n" for each pair.
    unfoldable pub display : List (Entry N V) → Option (List ℕ)
    unfolding iter lines
    display entries = Option.map lines (iter entries)

module _ {N V E H : Type 0} (same : N → N → Bool) (t : HeaderType V E H) where
  -- `OneOrMore::decode`.
  unfoldable pub decode : OneOrMore V → N → Result (HeaderError N E) H
  unfolding to_list
  decode values name = map_err (malformed name) (t.decode (to_list values))

  unfoldable pub insert_type : N → H → List (Entry N V) → List (Entry N V)
  unfolding update
  insert_type name header entries = elim (update same name (t.extend_values header) entries) [
    | some entries' ↦ entries'
    | none ↦ entries ++ (record { name = name; values = t.create_values header } ∷ [])
  ]

  unfoldable pub insert_type_front : N → H → List (Entry N V) → List (Entry N V)
  unfolding update
  insert_type_front name header entries = elim (update same name (t.extend_values header) entries) [
    | some entries' ↦ entries'
    | none ↦ record { name = name; values = t.create_values header } ∷ entries
  ]

  unfoldable pub try_get : List (Entry N V) → N → Option (Result (HeaderError N E) H)
  unfolding entry decode
  try_get entries name =
      Option.map (λ (e : Entry N V). decode e.values name) (entry same entries name)

  unfoldable pub get : List (Entry N V) → N → Result (HeaderError N E) H
  unfolding try_get
  get entries name = elim (try_get entries name) [ some res ↦ res | none ↦ err (missing name) ]

  -- The answer, and the map without the entry.
  unfoldable pub try_take :
      N → List (Entry N V) → Option (Result (HeaderError N E) H) × List (Entry N V)
  unfolding remove_where decode
  try_take name entries = elim (remove_where same name entries) [
    | none ↦ (none, entries)
    | some (e, rest) ↦ (some (decode e.values name), rest)
  ]

  abbrev result_ok : Option (Result (HeaderError N E) H) → Option H
  result_ok none = none
  result_ok (some (ok h)) = some h
  result_ok (some (err e)) = none

  unfoldable pub take : N → List (Entry N V) → Option H × List (Entry N V)
  unfolding try_take
  take name entries = let (res, rest) = try_take name entries in (result_ok res, rest)

  abbrev write_back :
      N
      → List (Entry N V)
      → (H → H)
      → Result (HeaderError N E) H
      → Result (HeaderError N E) (List (Entry N V))
  unfolding update
  write_back name entries edit (err e) = err e
  write_back name entries edit (ok header) =
      ok_or (missing name) (update same name (λ _. t.create_values (edit header)) entries)

  -- The map after the edit, or the error, which leaves the map as it was.
  unfoldable pub edit : N → (H → H) → List (Entry N V) → Result (HeaderError N E) (List (Entry N V))
  unfolding get update
  edit name change entries = write_back name entries change (get entries name)
