-- ===== src/Sip/Streaming.antt =====
-- sip/sip-core/src/transport/streaming/decode.rs, which cuts a stream of bytes into messages, and
-- PullParser of sip/sip-types/src/msg.rs, which cuts the head of a message into lines. The parsers
-- of sip-types for a message line and a header line, and the reading of UTF-8 and of a number by
-- the standard library, are parameters.
pub mod Lines
pub mod Framing
pub mod Resumed
pub mod Panics
use ezk.Common.{
  ℕ, zero, suc, ◌+◌, List, [], ◌∷◌, ◌++◌, Option, none, some, Bool, true, false, length, take, drop,
  any, ltb, ◌==◌, ◌&&◌, ◌||◌, if◌then◌else◌,
}
use ezk.Common.Result.{Result, ok, err, ◌>>=◌}

abbrev pub lf : ℕ
lf = 10

abbrev pub cr : ℕ
cr = 13

abbrev pub is_blank : ℕ → Bool
is_blank b = b == 32 || b == 9

-- What `next` of PullParser answers: no line any more, `Incomplete`, or a line and by how much the
-- progress grows.
pub data Next : Type 0 where
  finished incomplete : Next
  line : List ℕ → ℕ → Next

-- The end of a line: `grows` is what the progress grows by.
abbrev pub ended : List ℕ → ℕ → Next
ended [] grows = finished
ended (b ∷ bs) grows = line (b ∷ bs) grows

-- What follows a line feed behind the line `taken`, and what follows a carriage return; `fold` is
-- the search behind it, for a line that goes on.
abbrev pub after_lf : List ℕ → Next → List ℕ → Next
after_lf taken fold [] = incomplete
after_lf taken fold (b ∷ rest) =
    if is_blank b then fold else ended taken (if b == lf then length taken else length taken + 1)

abbrev pub after_crlf : List ℕ → Next → List ℕ → Next
after_crlf taken fold [] = incomplete
after_crlf taken fold (b1 ∷ []) = if is_blank b1 then fold else incomplete
after_crlf taken fold (b1 ∷ b2 ∷ rest) =
    if is_blank b1
    then fold
    else ended taken (if b1 == cr && b2 == lf then length taken else length taken + 2)

abbrev pub after_cr : List ℕ → Next → List ℕ → Next
after_cr taken fold [] = incomplete
after_cr taken fold (b ∷ rest) = if b == lf then after_crlf taken fold rest else incomplete

-- The loop of `next` on what is behind the progress; `taken` was passed over already.
unfoldable pub scan : List ℕ → List ℕ → Next
scan taken [] = incomplete
scan taken (b ∷ rest) =
    let more = scan (taken ++ (b ∷ [])) rest in
    if b == lf then after_lf taken more rest else if b == cr then after_cr taken more rest else more

unfoldable pub next : List ℕ → ℕ → Next
unfolding scan
next input progress = scan [] (drop progress input)

-- `starts_with` of slices, and the patterns that a slice begins with.
unfoldable pub starts_with : List ℕ → List ℕ → Bool
starts_with [] bytes = true
starts_with (p ∷ prefix) [] = false
starts_with (p ∷ prefix) (b ∷ bytes) = p == b && starts_with prefix bytes

unfoldable pub head_end : List ℕ → ℕ → ℕ
unfolding starts_with
head_end input progress =
    let rest = drop progress input in
    if starts_with (cr ∷ lf ∷ cr ∷ lf ∷ []) rest
    then progress + 4
    else if starts_with (lf ∷ lf ∷ []) rest
    then progress + 2
    else progress

-- What the iteration over a parser gives: its lines, whether it came to the end of the head, and its
-- progress. Every line takes a byte, so the length of the input and one is enough fuel.
pub record Pulled : Type 0 where
  pub pulled_lines : List (List ℕ)
  pub complete : Bool
  pub progress : ℕ

abbrev pub pull_next : ℕ → (ℕ → Pulled) → Next → Pulled
pull_next progress again finished = record {
  pulled_lines = [];
  complete = true;
  progress = progress;
}
pull_next progress again incomplete = record {
  pulled_lines = [];
  complete = false;
  progress = progress;
}
pull_next progress again (line l grows) =
    let more = again (progress + grows) in record more { pulled_lines = l ∷ more.pulled_lines }

unfoldable pub pull : ℕ → List ℕ → ℕ → Pulled
pull zero input progress = record { pulled_lines = []; complete = false; progress = progress }
pull (suc fuel) input progress = pull_next progress (pull fuel input) (next input progress)

pub data Error : Type 0 where
  message_too_large malformed : Error

-- `splitn(2, ':')`: the name, and the value if there is a colon.
unfoldable pub split_colon : List ℕ → List ℕ × Option (List ℕ)
split_colon [] = ([], none)
split_colon (b ∷ bytes) =
    let (name, value) = split_colon bytes in
    if b == b':' then ([], some bytes) else (b ∷ name, value)

abbrev lower : ℕ → ℕ
lower b = if ltb 64 b && ltb b 91 then b + 32 else b

unfoldable pub eq_ignore_ascii_case : List ℕ → List ℕ → Bool
eq_ignore_ascii_case [] [] = true
eq_ignore_ascii_case [] (b ∷ bs) = false
eq_ignore_ascii_case (a ∷ rest) [] = false
eq_ignore_ascii_case (a ∷ rest) (b ∷ bs) = lower a == lower b && eq_ignore_ascii_case rest bs

-- `as_parse_strs` of CONTENT_LENGTH, in lower case.
abbrev pub content_length_names : List (List ℕ)
content_length_names =
    (b'c' ∷ b'o' ∷ b'n' ∷ b't' ∷ b'e' ∷ b'n' ∷ b't' ∷ b'-' ∷ b'l' ∷ b'e' ∷ b'n' ∷ b'g' ∷ b't' ∷ b'h'
      ∷ [])
    ∷ (b'l' ∷ [])
    ∷ []

unfoldable pub is_content_length : List ℕ → Bool
unfolding eq_ignore_ascii_case
is_content_length name = any (λ str. eq_ignore_ascii_case name str) content_length_names

abbrev is_ascii_whitespace : ℕ → Bool
is_ascii_whitespace b = b == 32 || (b == 9 || (b == 10 || (b == 12 || b == 13)))

unfoldable pub whitespace_count : List ℕ → ℕ
whitespace_count [] = 0
whitespace_count (b ∷ bytes) =
    let more = whitespace_count bytes in if is_ascii_whitespace b then suc more else 0

-- What a message is parsed with: a message line, a header line, and what `from_utf8`, `trim` and
-- `parse` of a value come to.
pub record Parsers (L H : Type 0) : Type 0 where
  pub is_utf8 : List ℕ → Bool
  pub parse_message_line : List ℕ → Option L
  pub parse_line : List ℕ → Option H
  pub parse_usize : List ℕ → Option ℕ

pub record DecodedMessage (L H : Type 0) : Type 0 where
  pub message_line : L
  pub headers : List H
  pub body : List ℕ

pub data Item (L H : Type 0) : Type 0 where
  decoded_message : DecodedMessage L H → Item L H
  keep_alive_request keep_alive_response : Item L H

-- What a call of `decode` comes to, with the head progress and the buffer that it leaves: an item,
-- no item yet, an error, or a panic.
pub data Decoded (L H : Type 0) : Type 0 where
  item : Item L H → ℕ → List ℕ → Decoded L H
  needs_more : ℕ → List ℕ → Decoded L H
  fails : Error → ℕ → List ℕ → Decoded L H
  panics : Decoded L H

module _ {L H : Type 0} (p : Parsers L H) where
  abbrev number_of : Option (List ℕ) → Result Error ℕ
  number_of none = err malformed
  number_of (some value) = within (p.parse_usize value)
    where
      within : Option ℕ → Result Error ℕ
      within none = err malformed
      within (some n) = if ltb 65535 n then err message_too_large else ok n

  -- The loop that looks for the length, which is `found` so far.
  unfoldable pub content_length : ℕ → List (List ℕ) → Result Error ℕ
  unfolding split_colon is_content_length
  content_length found [] = ok found
  content_length found (l ∷ lines) =
      let (name, value) = split_colon l in
      let passed = content_length found lines in
      if is_content_length name then number_of value >>= (λ n. content_length n lines) else passed

  -- The second parser, over the bytes of the message; a header line that is malformed is left out.
  unfoldable pub parse_headers : List (List ℕ) → Result Error (List H)
  parse_headers [] = ok []
  parse_headers (l ∷ lines) =
      if p.is_utf8 l
      then (do headers ← parse_headers lines; ok (with_header (p.parse_line l) headers))
      else err malformed
    where
      with_header : Option H → List H → List H
      with_header none headers = headers
      with_header (some h) headers = h ∷ headers

  unfoldable pub parse_lines : List (List ℕ) → Result Error (L × List H)
  unfolding parse_headers
  parse_lines [] = err malformed
  parse_lines (l ∷ lines) =
      if p.is_utf8 l then first_line (p.parse_message_line l) else err malformed
    where
      first_line : Option L → Result Error (L × List H)
      first_line none = err malformed
      first_line (some message_line) = do headers ← parse_headers lines; ok (message_line, headers)

  abbrev pub message_of : List ℕ → List ℕ → ℕ → ℕ → Result Error (L × List H) → Decoded L H
  message_of src_bytes rest end content_len (err e) = fails e 0 rest
  message_of src_bytes rest end content_len (ok (message_line, headers)) =
      if length (take content_len (drop end src_bytes)) == content_len
      then item
          (decoded_message (record {
            message_line = message_line;
            headers = headers;
            body = take content_len (drop end src_bytes);
          }))
          0 rest
      else panics

  -- The message is complete in the buffer; the parser must come to its end again.
  unfoldable pub parse_message : List ℕ → List ℕ → ℕ → Decoded L H
  unfolding pull head_end parse_lines
  parse_message src_bytes rest content_len =
      let pulled = pull (suc (length src_bytes)) src_bytes 0 in
      if pulled.complete
      then message_of src_bytes rest (head_end src_bytes pulled.progress) content_len
          (parse_lines pulled.pulled_lines)
      else panics

  abbrev pub with_length : ℕ → List ℕ → Pulled → Result Error ℕ → Decoded L H
  with_length head_progress src pulled (err e) = fails e head_progress src
  with_length head_progress src pulled (ok content_len) =
      if pulled.complete
      then (let size = head_end src pulled.progress + content_len in
          if ltb (length src) size
          then needs_more head_progress src
          else parse_message (take size src) (drop size src) content_len)
      else needs_more pulled.progress src

  abbrev pub decode_head : ℕ → List ℕ → Decoded L H
  decode_head head_progress src =
      let pulled = pull (suc (length src)) src head_progress in
      with_length head_progress src pulled (content_length 0 pulled.pulled_lines)

  unfoldable pub decode : ℕ → List ℕ → Decoded L H
  unfolding whitespace_count starts_with
  decode head_progress src =
      let count = whitespace_count src in
      let rest = drop count src in
      if ltb 0 count && starts_with (cr ∷ lf ∷ cr ∷ lf ∷ []) src
      then item keep_alive_request head_progress rest
      else if ltb 0 count && starts_with (cr ∷ lf ∷ []) src
      then item keep_alive_response head_progress rest
      else if ltb 65535 (length rest)
      then fails message_too_large head_progress []
      else decode_head head_progress rest
