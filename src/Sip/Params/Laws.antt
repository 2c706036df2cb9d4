-- ===== src/Sip/Params/Laws.antt =====
-- The parameters of sip/sip-types/src/uri/params.rs as a map from names to values.
use Prim.Native.String.{String}
use text.Mathlib.Text.{◌==◌ as str_eq}
use text.Mathlib.TextEquality.{eq_iff}
use ezk.Common.{
  ◌≡◌, ◌≢◌, refl, List, [], ◌∷◌, ◌++◌, none, some, if◌then◌else◌, arith, Option-cases, inl, inr,
}
use ezk.Sip.Params.{Param, get_val, take, set_value, push_or_edit}

-- `get_val` by recursion on the list.
get_val-cons :
    (p : Param) (params : List Param) (name : String)
    → get_val (p ∷ params) name ≡ (if str_eq p.name name then p.value else get_val params name)
unfolding get_val
get_val-cons p params name = ground arith

set_value-get_val :
    (params r : List Param) (name key value : String)
    → set_value params name value ≡ some r
    → get_val r key ≡ (if str_eq name key then some value else get_val params key)
unfolding set_value
set_value-get_val [] r name key value e = cc
set_value-get_val (p ∷ params) r name key value e =
    elim (Option-cases (set_value params name value)) [
      | inl none' ↦ ground (
        arith,
        get_val-cons p params key,
        get_val-cons (record p { value = some value }) params key,
        eq_iff p.name name,
        eq_iff p.name key,
        eq_iff name key,
      )
      | inr (r', e') ↦ ground (
        arith,
        set_value-get_val params r' name key value e',
        get_val-cons p params key,
        get_val-cons p r' key,
        get_val-cons (record p { value = some value }) params key,
        eq_iff p.name name,
        eq_iff p.name key,
        eq_iff name key,
      )
    ]

-- The list with a new parameter at its end, whose name no other has.
get_val-push :
    (params : List Param) (name key value : String)
    → set_value params name value ≡ none
    → get_val (params ++ (record { name = name; value = some value } ∷ [])) key
      ≡ (if str_eq name key then some value else get_val params key)
unfolding set_value
get_val-push [] name key value e = get_val-cons (record { name = name; value = some value }) [] key
get_val-push (p ∷ params) name key value e = ground (
  arith,
  get_val-push params name key value,
  get_val-cons p params key,
  get_val-cons p (params ++ (record { name = name; value = some value } ∷ [])) key,
  eq_iff p.name name,
  eq_iff p.name key,
  eq_iff name key,
)

-- After `push_or_edit` the name has the value, and every other name has the value that it had.
get_val-push_or_edit :
    (params : List Param) (name key value : String)
    → get_val (push_or_edit params name value) key
      ≡ (if str_eq name key then some value else get_val params key)
unfolding push_or_edit
get_val-push_or_edit params name key value = elim (Option-cases (set_value params name value)) [
  | inl e ↦ rw (e, push_or_edit) (get_val-push params name key value e)
  | inr (r, e) ↦ rw (e, push_or_edit) (set_value-get_val params r name key value e)
]

-- `take` returns the value that `get_val` reads.
take-get_val : (params : List Param) (name : String) → (take params name).0 ≡ get_val params name
unfolding take get_val
take-get_val [] name = refl
take-get_val (p ∷ params) name = ground (arith, take-get_val params name)

-- It leaves every other name its value.
get_val-take :
    (params : List Param) (name key : String)
    → name ≢ key
    → get_val (take params name).1 key ≡ get_val params key
unfolding take
get_val-take [] name key ne = refl
get_val-take (p ∷ params) name key ne = ground (
  arith,
  get_val-take params name key ne,
  get_val-cons p params key,
  get_val-cons p (take params name).1 key,
  eq_iff p.name name,
  eq_iff p.name key,
)
