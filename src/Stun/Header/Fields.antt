-- ===== src/Stun/Header/Fields.antt =====
-- The fields of the head of media/stun-types/src/header.rs, written and read.
use ezk.Common.{ℕ, ◌^◌, ◌<◌, ◌≡◌, refl, arith}
use ezk.Common.Result.{ok}
use ezk.Stun.Header.{
  z, typ, len, set_typ, set_len, Class, Method, set_class_bits, set_method_bits, class_try_from,
  method_try_from,
}

-- The two bytes of a class and a method, as `MessageBuilder::new` makes them.
abbrev pub type_of : Class → Method → ℕ
type_of class method = set_class_bits class (set_method_bits method 0)

pub class_try_from-type_of :
    (class : Class) (method : Method) → class_try_from (type_of class method) ≡ ok class
unfolding class_try_from set_class_bits set_method_bits
class_try_from-type_of Class.request Method.binding = refl
class_try_from-type_of Class.request method = refl
class_try_from-type_of Class.indication Method.binding = refl
class_try_from-type_of Class.indication method = refl
class_try_from-type_of Class.success Method.binding = refl
class_try_from-type_of Class.success method = refl
class_try_from-type_of Class.error Method.binding = refl
class_try_from-type_of Class.error method = refl

pub method_try_from-type_of :
    (class : Class) (method : Method) → method_try_from (type_of class method) ≡ ok method
unfolding method_try_from set_class_bits set_method_bits
method_try_from-type_of Class.request Method.binding = refl
method_try_from-type_of Class.request method = refl
method_try_from-type_of Class.indication Method.binding = refl
method_try_from-type_of Class.indication method = refl
method_try_from-type_of Class.success Method.binding = refl
method_try_from-type_of Class.success method = refl
method_try_from-type_of Class.error Method.binding = refl
method_try_from-type_of Class.error method = refl

pub type_of-lt : (class : Class) (method : Method) → type_of class method < 2 ^ 14
unfolding set_class_bits set_method_bits
type_of-lt Class.request Method.binding = omega arith
type_of-lt Class.request method = omega arith
type_of-lt Class.indication Method.binding = omega arith
type_of-lt Class.indication method = omega arith
type_of-lt Class.success Method.binding = omega arith
type_of-lt Class.success method = omega arith
type_of-lt Class.error Method.binding = omega arith
type_of-lt Class.error method = omega arith

-- The head of a message of the type `v` and the length `n`.
pub head_fields :
    (v n : ℕ)
    → v < 2 ^ 14
    → n < 2 ^ 16
    → (z (set_len (set_typ 0 v) n) ≡ 0)
      × (typ (set_len (set_typ 0 v) n) ≡ v)
      × (len (set_len (set_typ 0 v) n) ≡ n)
      × (set_len (set_typ 0 v) n < 2 ^ 32)
unfolding z typ len set_typ set_len
head_fields v n hv hn = omega arith

pub set_len_twice : (head a b : ℕ) → set_len (set_len head a) b ≡ set_len head b
unfolding set_len
set_len_twice head a b = omega arith

set_len-len : (head : ℕ) → set_len head (len head) ≡ head
unfolding set_len len
set_len-len head = omega arith

set_len-lt : (head n : ℕ) → head < 2 ^ 32 → set_len head n < 2 ^ 32
unfolding set_len
set_len-lt head n h = omega arith

-- The head of a message that is begun.
abbrev pub head_of : Class → Method → ℕ
head_of class method = set_typ 0 (type_of class method)

pub head_of-lt : (class : Class) (method : Method) → head_of class method < 2 ^ 32
unfolding set_typ
head_of-lt class method = omega (arith, type_of-lt class method)
