-- ===== src/Stun/Attribute/Addr.antt =====
-- media/stun-types/src/attributes/addr.rs, with the two attributes of turn.rs that stand for
-- XOR-MAPPED-ADDRESS under another type. An IPv6 address has no flow label and no scope here.
pub mod RoundTrip
use ezk.Common.{ℕ, ◌/◌, ◌^◌, List, some, ◌==◌, if◌then◌else◌, bit_xor}
use ezk.Common.BufMut.{BufMut}
use ezk.Common.Bytes.{ReadBytes}
use ezk.Common.Result.{Result, ok, err, ◌>>=◌}
use ezk.Ice.Types.{IpAddr, SocketAddr}
use ezk.Stun.Header.{Error, invalid_data, cookie}
use ezk.Stun.Message.{get_value, read_word}
use ezk.Stun.Builder
use ezk.Stun.Attribute.{Attribute}

-- What an address is combined with: the masks of the port, of an IPv4 and of an IPv6 address.
pub record Masks : Type 0 where
  pub xor16 : ℕ
  pub xor32 : ℕ
  pub xor128 : ℕ

abbrev pub no_masks : Masks
no_masks = record { xor16 = 0; xor32 = 0; xor128 = 0 }

-- Of the magic cookie and the identifier of the message.
abbrev pub masks_of : ℕ → Masks
masks_of id = record { xor16 = cookie / 2 ^ 16; xor32 = cookie; xor128 = id }

abbrev pub at_port : ℕ → IpAddr → SocketAddr
at_port port ip = record { ip = ip; port = port }

abbrev read_ip : ReadBytes → Masks → ℕ → ℕ → List ℕ → Result Error SocketAddr
read_ip rd m family port rest =
    if family == 1
    then (do (ip, _) ← read_word rd 4 rest; ok (at_port port (IpAddr.v4 (bit_xor ip m.xor32))))
    else if family == 2
    then (do (ip, _) ← read_word rd 16 rest; ok (at_port port (IpAddr.v6 (bit_xor ip m.xor128))))
    else err (invalid_data "invalid address family")

abbrev read_family : ReadBytes → Masks → List ℕ → Result Error SocketAddr
read_family rd m bytes = do
  (family, after_family) ← read_word rd 1 bytes
  (port, rest) ← read_word rd 2 after_family
  read_ip rd m family (bit_xor port m.xor16) rest

unfoldable pub decode_addr : ReadBytes → Masks → List ℕ → Result Error SocketAddr
decode_addr rd m bytes = do
  (first, rest) ← read_word rd 1 bytes
  if first == 0 then read_family rd m rest else err (invalid_data "first byte must be zero")

abbrev encode_ip : BufMut → Masks → ℕ → List ℕ → IpAddr → List ℕ
encode_ip buf m port b (IpAddr.v4 ip) =
    buf.put_word 4 (buf.put_word 2 (buf.put_word 1 b 1) (bit_xor port m.xor16)) (bit_xor ip m.xor32)
encode_ip buf m port b (IpAddr.v6 ip) =
    buf.put_word 16 (buf.put_word 2 (buf.put_word 1 b 2) (bit_xor port m.xor16))
      (bit_xor ip m.xor128)

unfoldable pub encode_addr : BufMut → Masks → SocketAddr → List ℕ → List ℕ
encode_addr buf m addr b = encode_ip buf m addr.port (buf.put_word 1 b 0) addr.ip

abbrev pub addr_len : IpAddr → ℕ
addr_len (IpAddr.v4 ip) = 8
addr_len (IpAddr.v6 ip) = 20

-- MAPPED-ADDRESS and ALTERNATE-SERVER, by their types.
unfoldable pub plain_address : ReadBytes → BufMut → ℕ → Attribute (Unit {0}) SocketAddr
unfolding get_value decode_addr encode_addr
plain_address rd buf t = record {
  attr_type = t;
  decode = λ ctx msg span. (decode_addr rd no_masks (get_value span msg.buffer), msg);
  encode = λ ctx addr b. some (record b { buffer = encode_addr buf no_masks addr b.buffer });
  encode_len = λ addr. some (addr_len addr.ip);
}

-- XOR-MAPPED-ADDRESS, XOR-PEER-ADDRESS and XOR-RELAYED-ADDRESS.
unfoldable pub xor_address : ReadBytes → BufMut → ℕ → Attribute (Unit {0}) SocketAddr
unfolding get_value decode_addr encode_addr Builder.id
xor_address rd buf t = record {
  attr_type = t;
  decode = λ ctx msg span. (decode_addr rd (masks_of msg.id) (get_value span msg.buffer), msg);
  encode = λ ctx addr b.
      some (record b { buffer = encode_addr buf (masks_of (Builder.id b)) addr b.buffer });
  encode_len = λ addr. some (addr_len addr.ip);
}

abbrev pub mapped_address_type : ℕ
mapped_address_type = 0x0001

abbrev pub xor_mapped_address_type : ℕ
xor_mapped_address_type = 0x0020

abbrev pub alternate_server_type : ℕ
alternate_server_type = 0x8023

abbrev pub xor_peer_address_type : ℕ
xor_peer_address_type = 0x0012

abbrev pub xor_relayed_address_type : ℕ
xor_relayed_address_type = 0x0016
