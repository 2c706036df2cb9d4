-- ===== src/Tests/Stun.antt =====
-- STUN messages and the STUN endpoint on concrete messages.
use ezk.Common.{
  ℕ, ◌+◌, ◌%◌, ◌≡◌, ◌≤◌, ◌≢◌, refl, sym, List, [], ◌∷◌, ◌++◌, none, some, true, false, length, All,
  arith, ltb, if◌then◌else◌,
}
use ezk.Common.BufMut.{vec, to_be_bytes}
use ezk.Common.Bytes.{reader}
use ezk.Common.Result.{ok, ◌>>=◌}
use ezk.Ice.Types.{IpAddr, SocketAddr}
use ezk.Stun.Header.{Class, Method, padding}
use ezk.Stun.Message.{Message, parse, message_integrity_type}
use ezk.Stun.Attribute.{attribute_with, string_attribute}
use ezk.Stun.Attribute.Addr.{xor_address, xor_mapped_address_type}
use ezk.Stun.Attribute.Integrity.{integrity, same_bytes}
use ezk.Stun.Attribute.PasswordAlgorithms.{read_algorithms, put_algorithms}
use ezk.Stun.Attribute.PasswordAlgorithms.Parameters.{put_algorithms_unreadable}
use ezk.Stun.Endpoint.{Attempt, returns, send_request}
use ezk.Stun.Endpoint.Requests.{unanswered, answered_by, total_wait, send_request_answered}
use ezk.Stun.Wire.{Item, IsItem, wire}
use ezk.Stun.Wire.RoundTrip.{IsTransactionId, Says, build, parse-build, message_of, header_of}
use ezk.Stun.Wire.Found.{IsPassed, attribute_with_unsigned}
use ezk.Stun.Wire.Carried.{carry, attribute_with-xor_address}
use ezk.Stun.Wire.Signed.{checked, attribute_with-integrity}
use ezk.Stun.Wire.Signing.{sign, attribute_with-sign}

abbrev transaction_id : List ℕ
transaction_id = 1 ∷ 2 ∷ 3 ∷ 4 ∷ 5 ∷ 6 ∷ 7 ∷ 8 ∷ 9 ∷ 10 ∷ 11 ∷ 12 ∷ []

transaction_id-IsTransactionId : IsTransactionId transaction_id
transaction_id-IsTransactionId = record {
  long = refl;
  bytes = (
    omega arith,
    (
      omega arith,
      (
        omega arith,
        (
          omega arith,
          (
            omega arith,
            (
              omega arith,
              (
                omega arith,
                (omega arith, (omega arith, (omega arith, (omega arith, (omega arith, tt))))),
              ),
            ),
          ),
        ),
      ),
    ),
  );
}

-- SOFTWARE and USERNAME.
abbrev items : List Item
items = (0x8022, 101 ∷ 122 ∷ 107 ∷ []) ∷ (0x0006, 97 ∷ []) ∷ []

items-IsItem : All IsItem items
items-IsItem = (
  record { typed = omega arith; short = omega arith },
  (record { typed = omega arith; short = omega arith }, tt),
)

parse-build_example :
    (bytes : List ℕ) × (msg : Message) × (build vec Class.request Method.binding transaction_id
        items
      ≡ some bytes)
    × (parse reader bytes ≡ ok msg)
    × Says msg Class.request Method.binding transaction_id items
unfolding padding to_be_bytes
parse-build_example =
    parse-build reader vec Class.request Method.binding transaction_id items
      transaction_id-IsTransactionId items-IsItem (omega arith)

-- A digest of four bytes, the length of what is signed.
abbrev digest : ℕ → List ℕ → List ℕ
digest key bytes = key ∷ 0 ∷ 0 ∷ length bytes % 256 ∷ []

items-IsPassed : (t : ℕ) → t ≢ 0x8022 → t ≢ 0x0006 → All (IsPassed t) items
items-IsPassed t a b = (
  record { other = λ e. a (sym e); not_integrity = omega arith; not_sha256 = omega arith },
  (record { other = λ e. b (sym e); not_integrity = omega arith; not_sha256 = omega arith }, tt),
)

attribute_with-sign_example :
    (bytes : List ℕ) × (msg : Message) × (sign digest vec message_integrity_type 4 7 Class.request
        Method.binding transaction_id items
      ≡ some bytes)
    × (parse reader bytes ≡ ok msg)
    × ((attribute_with (integrity digest message_integrity_type 4) 7 msg).0 ≡ some (ok tt))
unfolding padding to_be_bytes
attribute_with-sign_example =
    attribute_with-sign digest reader vec message_integrity_type 4 7 Class.request Method.binding
      transaction_id items (omega arith) transaction_id-IsTransactionId items-IsItem
      (items-IsPassed message_integrity_type (omega arith) (omega arith)) (omega arith) refl refl

-- The digest in the message is another one.
attribute_with-integrity_example :
    attribute_with (integrity digest message_integrity_type 4) 7 (
      message_of Class.request Method.binding transaction_id
        (items ++ ((message_integrity_type, 8 ∷ 0 ∷ 0 ∷ 40 ∷ []) ∷ (0x0024, 1 ∷ []) ∷ [])))
    ≡ (
      some (
          checked (
            same_bytes
              (digest 7 (
                header_of Class.request Method.binding
                  (length (wire items) + 4 + 4 + padding 4)
                  transaction_id
                ++ wire items))
              (8 ∷ 0 ∷ 0 ∷ 40 ∷ []))),
      message_of Class.request Method.binding transaction_id
          (items ++ ((message_integrity_type, 8 ∷ 0 ∷ 0 ∷ 40 ∷ []) ∷ (0x0024, 1 ∷ []) ∷ [])),
    )
unfolding padding to_be_bytes
attribute_with-integrity_example =
    attribute_with-integrity digest message_integrity_type 4 7 Class.request Method.binding
      transaction_id items (8 ∷ 0 ∷ 0 ∷ 40 ∷ []) ((0x0024, 1 ∷ []) ∷ []) refl
      (items-IsPassed message_integrity_type (omega arith) (omega arith)) (omega arith)

abbrev mapped : SocketAddr
mapped = record { ip = IpAddr.v4 0xC0A80001; port = 5004 }

attribute_with-xor_address_example :
    (bytes : List ℕ) × (msg : Message) × (carry reader vec xor_mapped_address_type mapped
        Class.success Method.binding transaction_id items
        ((0x8022, 1 ∷ []) ∷ [])
      ≡ some bytes)
    × (parse reader bytes ≡ ok msg)
    × ((attribute_with (xor_address reader vec xor_mapped_address_type) tt msg).0
        ≡ some (ok mapped))
unfolding to_be_bytes padding
attribute_with-xor_address_example =
    attribute_with-xor_address reader vec xor_mapped_address_type mapped Class.success
      Method.binding transaction_id items ((0x8022, 1 ∷ []) ∷ []) (omega arith)
      transaction_id-IsTransactionId (record { port_range = omega arith; ip_range = omega arith })
      items-IsItem (record { typed = omega arith; short = omega arith }, tt)
      (items-IsPassed xor_mapped_address_type (omega arith) (omega arith)) (omega arith)

-- REALM behind MESSAGE-INTEGRITY is not found.
attribute_with_unsigned_example :
    attribute_with (string_attribute (λ bytes. true) 0x0014) tt (
      message_of Class.request Method.binding transaction_id
        (items ++ ((message_integrity_type, 1 ∷ []) ∷ (0x0014, 97 ∷ []) ∷ [])))
    ≡ (
      none,
      message_of Class.request Method.binding transaction_id
          (items ++ ((message_integrity_type, 1 ∷ []) ∷ (0x0014, 97 ∷ []) ∷ [])),
    )
unfolding string_attribute
attribute_with_unsigned_example =
    attribute_with_unsigned (string_attribute (λ bytes. true) 0x0014) tt Class.request
      Method.binding transaction_id items (message_integrity_type, 1 ∷ []) ((0x0014, 97 ∷ []) ∷ [])
      (omega arith, (omega arith, tt)) refl (omega arith) (omega arith) (omega arith)

put_algorithms_unreadable_example :
    (value : List ℕ) × (put_algorithms vec ((1, 5 ∷ 6 ∷ []) ∷ []) [] ≡ some value)
    × ((fuel : ℕ) × (4 ≤ fuel)
        × (read_algorithms reader (length value) value ≡ (
            read_algorithms reader fuel (5 ∷ 6 ∷ 0 ∷ 0 ∷ []) >>= λ more.
            ok ((1, 5 ∷ 6 ∷ []) ∷ more))))
    × (read_algorithms reader (length value) value ≢ ok ((1, 5 ∷ 6 ∷ []) ∷ []))
unfolding padding
put_algorithms_unreadable_example =
    put_algorithms_unreadable reader vec (1, 5 ∷ 6 ∷ []) (omega arith) (omega arith) (omega arith)

-- The third attempt is answered.
abbrev attempts : ℕ → Attempt ℕ
attempts i = if ltb i 2 then unanswered else answered_by 9

send_request_answered_example : send_request false attempts ≡ returns (some 9) 3 (total_wait 500 2)
send_request_answered_example =
    send_request_answered attempts 9 2 (omega arith) (λ i below. ground arith) refl
