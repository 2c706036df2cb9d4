-- ===== src/Stun/Header.antt =====
-- media/stun-types/src/header.rs, and of lib.rs the errors and the padding. A bitfield is the number
-- that holds it; the accessors that the macro `bitfield!` makes read and replace the digits that
-- its declaration names.
pub mod Fields
use Prim.Native.String.{String}
use ezk.Common.{ℕ, ◌+◌, ◌*◌, ◌/◌, ◌%◌, ◌^◌, ◌==◌, if◌then◌else◌, bit_and, bit_or}
use ezk.Common.Result.{Result, ok, err}

-- `io_error` is what an `UnexpectedEof` becomes.
pub data Error : Type 0 where
  invalid_data : String → Error
  try_from_int utf8 : Error

abbrev pub incomplete : Error
incomplete = invalid_data "buffer seems incomplete"

-- `padding_u16` and `padding_usize`.
unfoldable pub padding : ℕ → ℕ
padding n = let r = n % 4 in if r == 0 then 0 else if r == 1 then 3 else if r == 2 then 2 else 1

abbrev pub cookie : ℕ
cookie = 0x2112A442

abbrev pub stun_header_length : ℕ
stun_header_length = 20

-- `MessageHead`: z in the bits 31 and 30, typ in 29 to 16, len in 15 to 0.
abbrev pub MessageHead : Type 0
MessageHead = ℕ

unfoldable pub z : MessageHead → ℕ
z head = head / 2 ^ 30 % 4

unfoldable pub typ : MessageHead → ℕ
typ head = head / 2 ^ 16 % 2 ^ 14

unfoldable pub len : MessageHead → ℕ
len head = head % 2 ^ 16

unfoldable pub set_typ : MessageHead → ℕ → MessageHead
set_typ head v = head / 2 ^ 30 * 2 ^ 30 + v % 2 ^ 14 * 2 ^ 16 + head % 2 ^ 16

unfoldable pub set_len : MessageHead → ℕ → MessageHead
set_len head v = head / 2 ^ 16 * 2 ^ 16 + v % 2 ^ 16

pub data Class : Type 0 where
  request indication success error : Class

pub data Method : Type 0 where
  binding allocate refresh send data_method create_permission channel_bind : Method

abbrev pub class_mask : ℕ
class_mask = 0x110

abbrev pub method_mask : ℕ
method_mask = 0x3EEF

abbrev pub class_bits : Class → ℕ
class_bits Class.request = 0x000
class_bits Class.indication = 0x010
class_bits Class.success = 0x100
class_bits Class.error = 0x110

abbrev pub method_bits : Method → ℕ
method_bits Method.binding = 0x1
method_bits Method.allocate = 0x3
method_bits Method.refresh = 0x4
method_bits Method.send = 0x6
method_bits Method.data_method = 0x7
method_bits Method.create_permission = 0x8
method_bits Method.channel_bind = 0x9

-- `Class::set_bits`, which keeps the bits of the method.
unfoldable pub set_class_bits : Class → ℕ → ℕ
set_class_bits class v = bit_or (bit_and v method_mask) (class_bits class)

-- `Method::set_bits`, which keeps the bits of the class.
unfoldable pub set_method_bits : Method → ℕ → ℕ
set_method_bits method v = bit_or (bit_and v class_mask) (method_bits method)

unfoldable pub class_try_from : ℕ → Result Error Class
class_try_from value =
    let bits = bit_and value class_mask in
    if bits == 0x000
    then ok Class.request
    else if bits == 0x010
    then ok Class.indication
    else if bits == 0x100
    then ok Class.success
    else if bits == 0x110
    then ok Class.error
    else err (invalid_data "unknown class")

unfoldable pub method_try_from : ℕ → Result Error Method
method_try_from value =
    let bits = bit_and value method_mask in
    if bits == 0x1
    then ok Method.binding
    else if bits == 0x3
    then ok Method.allocate
    else if bits == 0x4
    then ok Method.refresh
    else if bits == 0x6
    then ok Method.send
    else if bits == 0x7
    then ok Method.data_method
    else if bits == 0x8
    then ok Method.create_permission
    else if bits == 0x9
    then ok Method.channel_bind
    else err (invalid_data "unknown method")
