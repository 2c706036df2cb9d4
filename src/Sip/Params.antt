-- ===== src/Sip/Params.antt =====
-- sip/sip-types/src/uri/params.rs: the list of parameters behind a URI or a header value.
-- A `BytesStr` is a text.
pub mod Laws
use mathlib.Core.Option
use Prim.Native.String.{String}
use text.Mathlib.Text.{◌==◌ as str_eq}
use ezk.Common.{List, [], ◌∷◌, ◌++◌, Option, none, some, Bool, true, false, find, if◌then◌else◌}

pub record Param : Type 0 where
  pub name : String
  pub value : Option String

abbrev pub is_named : String → Param → Bool
is_named name p = str_eq p.name name

abbrev pub is_empty : List Param → Bool
is_empty [] = true
is_empty (p ∷ params) = false

-- `push`, and `with`, which returns the list.
unfoldable pub push : List Param → Param → List Param
push params param = params ++ (param ∷ [])

unfoldable pub get : List Param → String → Option Param
get params name = find (is_named name) params

abbrev value_of : Option Param → Option String
value_of none = none
value_of (some p) = p.value

-- `get(name).and_then(|p| p.value.as_ref())`.
unfoldable pub get_val : List Param → String → Option String
unfolding get
get_val params name = value_of (get params name)

-- The value of the parameter that is removed, and the list without it.
unfoldable pub take : List Param → String → Option String × List Param
take [] name = (none, [])
take (p ∷ params) name =
    let (value, rest) = take params name in
    if is_named name p then (p.value, params) else (value, p ∷ rest)

-- A write of the value through `get_mut`; `none` is a name that is not there.
unfoldable pub set_value : List Param → String → String → Option (List Param)
set_value [] name value = none
set_value (p ∷ params) name value =
    let rest = Option.map (◌∷◌ p) (set_value params name value) in
    if is_named name p then some (record p { value = some value } ∷ params) else rest

unfoldable pub push_or_edit : List Param → String → String → List Param
unfolding set_value push
push_or_edit params name value = elim (set_value params name value) [
  | some params' ↦ params'
  | none ↦ push params (record { name = name; value = some value })
]
