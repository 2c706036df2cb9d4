-- ===== src/Tests/Streams.antt =====
-- The decoder of streams on concrete bytes.
use ezk.Common.{
  ℕ, ◌-◌, ◌≡◌, refl, List, [], ◌∷◌, ◌++◌, Option, none, some, true, length, ◌<◌, arith,
}
use ezk.Sip.Streaming.{
  Parsers, decode, item, decoded_message, needs_more, panics, content_length, split_colon,
  is_content_length, eq_ignore_ascii_case, parse_lines, parse_headers, whitespace_count,
}
use ezk.Sip.Streaming.Lines.{IsLine, head_bytes, with_breaks}
use ezk.Sip.Streaming.Framing.{decode-message}
use ezk.Sip.Streaming.Resumed.{decode_forgets_length}
use ezk.Sip.Streaming.Panics.{mixed, decode_panics}

abbrev digit : List ℕ → Option ℕ
digit (b ∷ []) = some (b - 48)
digit bytes = none

-- Lines stand for what they are parsed to, and a length has one digit.
abbrev parsers : Parsers (List ℕ) (List ℕ)
parsers = record {
  is_utf8 = λ bytes. true;
  parse_message_line = λ bytes. some bytes;
  parse_line = λ bytes. some bytes;
  parse_usize = digit;
}

-- "M", "l:3" and "Via", and the body "abc".
abbrev first_line : List ℕ
first_line = b'M' ∷ []

abbrev length_line : List ℕ
length_line = b'l' ∷ b':' ∷ b'3' ∷ []

abbrev via_line : List ℕ
via_line = b'V' ∷ b'i' ∷ b'a' ∷ []

abbrev body : List ℕ
body = b'a' ∷ b'b' ∷ b'c' ∷ []

first_line-IsLine : IsLine first_line
first_line-IsLine = record {
  plain = (record { not_lf = omega arith; not_cr = omega arith }, tt);
  begun = refl;
}

length_line-IsLine : IsLine length_line
length_line-IsLine = record {
  plain = (
    record { not_lf = omega arith; not_cr = omega arith },
    (
      record { not_lf = omega arith; not_cr = omega arith },
      (record { not_lf = omega arith; not_cr = omega arith }, tt),
    ),
  );
  begun = refl;
}

via_line-IsLine : IsLine via_line
via_line-IsLine = record {
  plain = (
    record { not_lf = omega arith; not_cr = omega arith },
    (
      record { not_lf = omega arith; not_cr = omega arith },
      (record { not_lf = omega arith; not_cr = omega arith }, tt),
    ),
  );
  begun = refl;
}

decode-message_example :
    (decode parsers 0 (head_bytes (first_line ∷ length_line ∷ []) via_line (body ++ (b'M' ∷ [])))
      ≡ item
          (decoded_message (record {
            message_line = first_line;
            headers = length_line ∷ via_line ∷ [];
            body = body;
          }))
          0
          (b'M' ∷ []))
    × ((part : List ℕ)
        → length part < length body
        → decode parsers 0 (head_bytes (first_line ∷ length_line ∷ []) via_line part)
          ≡ needs_more 0 (head_bytes (first_line ∷ length_line ∷ []) via_line part))
unfolding content_length split_colon is_content_length eq_ignore_ascii_case parse_lines
    parse_headers whitespace_count
decode-message_example =
    decode-message parsers (first_line ∷ length_line ∷ []) via_line body first_line
      (length_line ∷ via_line ∷ []) (first_line-IsLine, (length_line-IsLine, tt)) via_line-IsLine
      refl refl refl (b'M' ∷ []) (omega arith)

decode_panics_example : decode parsers 0 (mixed first_line b'x' []) ≡ panics
unfolding split_colon is_content_length eq_ignore_ascii_case whitespace_count
decode_panics_example =
    decode_panics parsers first_line b'x' [] first_line-IsLine refl refl (omega arith) refl
      (omega arith)

-- The first bytes end behind "Vi".
decode_forgets_length_example :
    (decode parsers 0 (with_breaks (first_line ∷ length_line ∷ []) ++ (b'V' ∷ b'i' ∷ []))
      ≡ needs_more
          (length (with_breaks (first_line ∷ length_line ∷ [])))
          (with_breaks (first_line ∷ length_line ∷ []) ++ (b'V' ∷ b'i' ∷ [])))
    × (decode parsers
          (length (with_breaks (first_line ∷ length_line ∷ [])))
          (head_bytes (first_line ∷ length_line ∷ []) via_line body)
        ≡ item
            (decoded_message (record {
              message_line = first_line;
              headers = length_line ∷ via_line ∷ [];
              body = [];
            }))
            0
            body)
unfolding content_length split_colon is_content_length eq_ignore_ascii_case parse_lines
    parse_headers whitespace_count
decode_forgets_length_example =
    decode_forgets_length parsers (first_line ∷ length_line ∷ []) [] via_line (b'V' ∷ b'i' ∷ [])
      body first_line (length_line ∷ via_line ∷ []) 3 (first_line-IsLine, (length_line-IsLine, tt))
      tt via_line-IsLine
      (
        record { not_lf = omega arith; not_cr = omega arith },
        (record { not_lf = omega arith; not_cr = omega arith }, tt),
      )
      (refl, omega arith) refl refl refl refl (omega arith) refl (omega arith)
