-- ===== src/Stun/Attribute/Words.antt =====
-- The attributes that are words or fixed bytes: media/stun-types/src/attributes/ice.rs, turn.rs and
-- user_hash.rs.
use Prim.Native.String.{String}
use ezk.Common.{ℕ, List, [], ◌∷◌, some, Bool, length, ◌==◌, if◌then◌else◌}
use ezk.Common.BufMut.{BufMut}
use ezk.Common.Bytes.{ReadBytes}
use ezk.Common.Result.{Result, ok, err, ◌>>=◌}
use ezk.Stun.Header.{Error, invalid_data}
use ezk.Stun.Message.{get_value, read_word}
use ezk.Stun.Attribute.{Attribute, extend}

abbrev word_of : ReadBytes → ℕ → List ℕ → Result Error ℕ
word_of rd n value = do (v, _) ← read_word rd n value; ok v

-- PRIORITY, ICE-CONTROLLED and ICE-CONTROLLING: a word that must be all of the value.
unfoldable pub exact_word : ReadBytes → BufMut → ℕ → ℕ → String → Attribute (Unit {0}) ℕ
unfolding get_value
exact_word rd buf n t wrong = record {
  attr_type = t;
  decode = λ ctx msg span.
      let value = get_value span msg.buffer in
      ((if length value == n then word_of rd n value else err (invalid_data wrong)), msg);
  encode = λ ctx v b. some (record b { buffer = buf.put_word n b.buffer v });
  encode_len = λ v. some n;
}

abbrev pub priority : ReadBytes → BufMut → Attribute (Unit {0}) ℕ
unfolding exact_word
priority rd buf = exact_word rd buf 4 0x0024 "priority value must be 4 bytes"

abbrev pub ice_controlled : ReadBytes → BufMut → Attribute (Unit {0}) ℕ
unfolding exact_word
ice_controlled rd buf = exact_word rd buf 8 0x8029 "ice-controlled value must be 8 bytes"

abbrev pub ice_controlling : ReadBytes → BufMut → Attribute (Unit {0}) ℕ
unfolding exact_word
ice_controlling rd buf = exact_word rd buf 8 0x802A "ice-controlling value must be 8 bytes"

-- CHANNEL-NUMBER, LIFETIME and REQUESTED-TRANSPORT: a word at the front of the value, which is
-- written with the words `zeros` behind it, each given by its number of bytes.
abbrev put_zeros : BufMut → List ℕ → List ℕ → List ℕ
put_zeros buf [] b = b
put_zeros buf (n ∷ zeros) b = put_zeros buf zeros (buf.put_word n b 0)

unfoldable pub leading_word : ReadBytes → BufMut → ℕ → List ℕ → ℕ → ℕ → Attribute (Unit {0}) ℕ
unfolding get_value
leading_word rd buf n zeros total t = record {
  attr_type = t;
  decode = λ ctx msg span. (word_of rd n (get_value span msg.buffer), msg);
  encode = λ ctx v b. some (record b { buffer = put_zeros buf zeros (buf.put_word n b.buffer v) });
  encode_len = λ v. some total;
}

abbrev pub channel_number : ReadBytes → BufMut → Attribute (Unit {0}) ℕ
unfolding leading_word
channel_number rd buf = leading_word rd buf 2 (2 ∷ []) 4 0x000C

abbrev pub lifetime : ReadBytes → BufMut → Attribute (Unit {0}) ℕ
unfolding leading_word
lifetime rd buf = leading_word rd buf 4 [] 4 0x000D

abbrev pub requested_transport : ReadBytes → BufMut → Attribute (Unit {0}) ℕ
unfolding leading_word
requested_transport rd buf = leading_word rd buf 1 (1 ∷ 2 ∷ []) 4 0x0019

abbrev is_one : Result Error ℕ → Result Error Bool
is_one (ok v) = ok (v == 1)
is_one (err e) = err e

unfoldable pub even_port : ReadBytes → BufMut → Attribute (Unit {0}) Bool
unfolding get_value
even_port rd buf = record {
  attr_type = 0x0018;
  decode = λ ctx msg span. (is_one (word_of rd 1 (get_value span msg.buffer)), msg);
  encode = λ ctx v b. some (record b { buffer = buf.put_word 1 b.buffer (if v then 1 else 0) });
  encode_len = λ v. some 1;
}

-- USE-CANDIDATE and DONT-FRAGMENT, which have no value.
unfoldable pub flag : ℕ → Attribute (Unit {0}) (Unit {0})
flag t = record {
  attr_type = t;
  decode = λ ctx msg span. (ok tt, msg);
  encode = λ ctx v b. some b;
  encode_len = λ v. some 0;
}

abbrev pub use_candidate_type : ℕ
use_candidate_type = 0x0025

abbrev pub dont_fragment_type : ℕ
dont_fragment_type = 0x001A

-- RESERVATION-TOKEN and USERHASH: an array of `n` bytes.
unfoldable pub fixed_bytes : ℕ → ℕ → String → Attribute (Unit {0}) (List ℕ)
unfolding get_value
fixed_bytes n t wrong = record {
  attr_type = t;
  decode = λ ctx msg span.
      let value = get_value span msg.buffer in
      ((if length value == n then ok value else err (invalid_data wrong)), msg);
  encode = λ ctx v b. extend v b;
  encode_len = λ v. some n;
}

abbrev pub reservation_token : Attribute (Unit {0}) (List ℕ)
unfolding fixed_bytes
reservation_token = fixed_bytes 8 0x0022 "reservation token must be 8 bytes"

abbrev pub user_hash : Attribute (Unit {0}) (List ℕ)
unfolding fixed_bytes
user_hash = fixed_bytes 32 0x001E "user hash buf must be 32 bytes"
