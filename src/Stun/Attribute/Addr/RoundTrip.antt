-- ===== src/Stun/Attribute/Addr/RoundTrip.antt =====
-- Addresses of media/stun-types/src/attributes/addr.rs, written and read.
use mathlib.Core.List.{append_assoc}
use ezk.Common.{
  ℕ, ◌^◌, ◌<◌, ◌≡◌, refl, ◌∙◌, ap, sym, List, ◌++◌, some, length, arith, bit_xor, bit_xor-lt,
  bit_xor_twice,
}
use ezk.Common.BufMut.{BufMut, to_be_bytes}
use ezk.Common.Bytes.{ReadBytes, read_word-whole}
use ezk.Common.Result.{ok}
use ezk.Ice.Types.{IpAddr, SocketAddr}
use ezk.Stun.Message.{get_value}
use ezk.Stun.Attribute.Codes.{Codes}
use ezk.Stun.Attribute.Addr.{
  Masks, no_masks, masks_of, at_port, decode_addr, encode_addr, addr_len, plain_address,
  xor_address,
}

abbrev pub IsIp : IpAddr → Type 0
IsIp (IpAddr.v4 ip) = ip < 2 ^ 32
IsIp (IpAddr.v6 ip) = ip < 2 ^ 128

pub record IsAddr (addr : SocketAddr) : Type 0 where
  pub port_range : addr.port < 2 ^ 16
  pub ip_range : IsIp addr.ip

pub record IsMasks (m : Masks) : Type 0 where
  pub range16 : m.xor16 < 2 ^ 16
  pub range32 : m.xor32 < 2 ^ 32
  pub range128 : m.xor128 < 2 ^ 128

abbrev pub ip_bytes : Masks → ℕ → IpAddr → List ℕ
ip_bytes m port (IpAddr.v4 ip) =
    to_be_bytes 1 1 ++ (to_be_bytes 2 (bit_xor port m.xor16) ++ to_be_bytes 4 (bit_xor ip m.xor32))
ip_bytes m port (IpAddr.v6 ip) =
    to_be_bytes 1 2
    ++ (to_be_bytes 2 (bit_xor port m.xor16) ++ to_be_bytes 16 (bit_xor ip m.xor128))

abbrev pub addr_bytes : Masks → SocketAddr → List ℕ
addr_bytes m addr = to_be_bytes 1 0 ++ ip_bytes m addr.port addr.ip

-- Four words, one after the other.
put_four :
    (buf : BufMut) (b : List ℕ) (family port n ip : ℕ)
    → family < 256
    → port < 2 ^ 16
    → ip < 256 ^ n
    → buf.put_word n (buf.put_word 2 (buf.put_word 1 (buf.put_word 1 b 0) family) port) ip
      ≡ b ++ (to_be_bytes 1 0 ++ (to_be_bytes 1 family ++ (to_be_bytes 2 port ++ to_be_bytes n ip)))
put_four buf b family port n ip hf hp hi =
    let zero_put = buf.put_word-append 1 b 0 (omega arith) in
    let front = b ++ to_be_bytes 1 0 in
    let family_put = buf.put_word-append 1 front family hf in
    let port_put = buf.put_word-append 2 (front ++ to_be_bytes 1 family) port hp in
    let ip_put =
      buf.put_word-append n ((front ++ to_be_bytes 1 family) ++ to_be_bytes 2 port) ip hi in
    rw (zero_put, family_put, port_put, ip_put) (simp append_assoc)

encode_addr-addr_bytes :
    (buf : BufMut) (m : Masks) (addr : SocketAddr) (b : List ℕ)
    → IsMasks m
    → IsAddr addr
    → encode_addr buf m addr b ≡ b ++ addr_bytes m addr
unfolding encode_addr
encode_addr-addr_bytes buf m addr b hm ha = go addr.ip ha.ip_range
  where
    go :
        (ip : IpAddr)
        → IsIp ip
        → encode_addr buf m (at_port addr.port ip) b ≡ b ++ addr_bytes m (at_port addr.port ip)
    go (IpAddr.v4 ip) h =
        put_four buf b 1 (bit_xor addr.port m.xor16) 4 (bit_xor ip m.xor32) (omega arith)
          (bit_xor-lt 16 addr.port m.xor16 ha.port_range hm.range16)
          (bit_xor-lt 32 ip m.xor32 h hm.range32)
    go (IpAddr.v6 ip) h =
        put_four buf b 2 (bit_xor addr.port m.xor16) 16 (bit_xor ip m.xor128) (omega arith)
          (bit_xor-lt 16 addr.port m.xor16 ha.port_range hm.range16)
          (bit_xor-lt 128 ip m.xor128 h hm.range128)

-- What was combined with the masks once is combined with them again.
decode_addr-addr_bytes :
    (rd : ReadBytes) (m : Masks) (addr : SocketAddr)
    → IsMasks m
    → IsAddr addr
    → decode_addr rd m (addr_bytes m addr) ≡ ok addr
unfolding decode_addr
decode_addr-addr_bytes rd m addr hm ha = go addr.ip ha.ip_range
  where
    go :
        (ip : IpAddr)
        → IsIp ip
        → decode_addr rd m (addr_bytes m (at_port addr.port ip)) ≡ ok (at_port addr.port ip)
    go (IpAddr.v4 ip) h =
        let port = bit_xor addr.port m.xor16 in
        let masked = bit_xor ip m.xor32 in
        let behind = to_be_bytes 2 port ++ to_be_bytes 4 masked in
        rw (rd.read_word-be 1 0 (to_be_bytes 1 1 ++ behind) (omega arith), decode_addr)
          (rw (rd.read_word-be 1 1 behind (omega arith)) (
            rw
              (rd.read_word-be 2 port (to_be_bytes 4 masked)
                (bit_xor-lt 16 addr.port m.xor16 ha.port_range hm.range16))
              (rw (read_word-whole rd 4 masked (bit_xor-lt 32 ip m.xor32 h hm.range32)) (
                rw
                  (
                    bit_xor_twice 16 addr.port m.xor16 ha.port_range hm.range16,
                    bit_xor_twice 32 ip m.xor32 h hm.range32,
                  )
                  refl))))
    go (IpAddr.v6 ip) h =
        let port = bit_xor addr.port m.xor16 in
        let masked = bit_xor ip m.xor128 in
        let behind = to_be_bytes 2 port ++ to_be_bytes 16 masked in
        rw (rd.read_word-be 1 0 (to_be_bytes 1 2 ++ behind) (omega arith), decode_addr)
          (rw (rd.read_word-be 1 2 behind (omega arith)) (
            rw
              (rd.read_word-be 2 port (to_be_bytes 16 masked)
                (bit_xor-lt 16 addr.port m.xor16 ha.port_range hm.range16))
              (rw (read_word-whole rd 16 masked (bit_xor-lt 128 ip m.xor128 h hm.range128)) (
                rw
                  (
                    bit_xor_twice 16 addr.port m.xor16 ha.port_range hm.range16,
                    bit_xor_twice 128 ip m.xor128 h hm.range128,
                  )
                  refl))))

pub length-addr_bytes :
    (m : Masks) (addr : SocketAddr) → length (addr_bytes m addr) ≡ addr_len addr.ip
unfolding to_be_bytes
length-addr_bytes m addr = go addr.ip
  where
    go : (ip : IpAddr) → length (addr_bytes m (at_port addr.port ip)) ≡ addr_len ip
    go (IpAddr.v4 ip) = refl
    go (IpAddr.v6 ip) = refl

no_masks-IsMasks : IsMasks no_masks
no_masks-IsMasks = omega arith

plain_address-Codes :
    (rd : ReadBytes) (buf : BufMut) (t id : ℕ) (addr : SocketAddr)
    → IsAddr addr
    → Codes (plain_address rd buf t) id tt addr (addr_bytes no_masks addr)
unfolding plain_address
plain_address-Codes rd buf t id addr h = record {
  written = λ b same.
      ap (λ buffer. some (record b { buffer = buffer }))
        (encode_addr-addr_bytes buf no_masks addr b.buffer no_masks-IsMasks h);
  measured = ap some (sym (length-addr_bytes no_masks addr));
  read = λ msg span same value.
      ap (decode_addr rd no_masks) value
      ∙ decode_addr-addr_bytes rd no_masks addr no_masks-IsMasks h;
}

-- An address under the masks of the message that carries it.
pub xor_address-Codes :
    (rd : ReadBytes) (buf : BufMut) (t id : ℕ) (addr : SocketAddr)
    → id < 2 ^ 128
    → IsAddr addr
    → Codes (xor_address rd buf t) id tt addr (addr_bytes (masks_of id) addr)
unfolding xor_address
xor_address-Codes rd buf t id addr hid h =
    let masks : IsMasks (masks_of id) = omega arith in
    record {
      written = λ b same.
          ap (λ i. some (record b { buffer = encode_addr buf (masks_of i) addr b.buffer })) same
          ∙ ap (λ buffer. some (record b { buffer = buffer }))
              (encode_addr-addr_bytes buf (masks_of id) addr b.buffer masks h);
      measured = ap some (sym (length-addr_bytes (masks_of id) addr));
      read = λ msg span same value.
          ap (λ i. decode_addr rd (masks_of i) (get_value span msg.buffer)) same
          ∙ ap (decode_addr rd (masks_of id)) value
          ∙ decode_addr-addr_bytes rd (masks_of id) addr masks h;
    }
