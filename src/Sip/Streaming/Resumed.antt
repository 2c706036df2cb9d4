-- ===== src/Sip/Streaming/Resumed.antt =====
-- StreamingDecoder of sip/sip-core/src/transport/streaming/decode.rs on a head that comes in parts.
use mathlib.Core.List.{append_assoc, append-nil}
use ezk.Common.{
  ℕ, suc, ◌+◌, ◌-◌, ◌≤◌, ◌<◌, ◌≡◌, refl, ◌∙◌, ap, sym, List, [], ◌∷◌, ◌++◌, false, length, drop,
  take, All, All-append, arith, ltb, if◌then◌else◌, length-append, drop-append,
}
use ezk.Common.Result.{ok}
use ezk.Sip.Streaming.{
  pull, pull_next, incomplete, Pulled, scan, next, whitespace_count, Parsers, item, decoded_message,
  needs_more, content_length, parse_lines, parse_message, with_length, decode,
}
use ezk.Sip.Streaming.Lines.{
  IsLine, IsPlain, IsNext, in_front-append, head_bytes, head_length, with_breaks, in_front,
  pull-with_breaks, length-lines, length-head_bytes, scan-plain,
}
use ezk.Sip.Streaming.Framing.{
  decode-decode_head, decode_head-found, parse_message-head_bytes, cut, begins,
}

with_breaks-append :
    (front middle : List (List ℕ))
    → with_breaks (front ++ middle) ≡ with_breaks front ++ with_breaks middle
with_breaks-append [] middle = refl
with_breaks-append (l ∷ front) middle =
    ap (λ r. l ++ (13 ∷ 10 ∷ r)) (with_breaks-append front middle)
    ∙ sym (append_assoc l (13 ∷ 10 ∷ with_breaks front) (with_breaks middle))

-- Lines, and the beginning of another one.
pull-part :
    (front : List (List ℕ)) (part : List ℕ) (fuel : ℕ)
    → All IsLine front
    → All IsPlain part
    → IsNext part
    → length front < fuel
    → pull fuel (with_breaks front ++ part) 0
      ≡ record { pulled_lines = front; complete = false; progress = length (with_breaks front) }
unfolding pull next scan
pull-part front part fuel h plain n enough =
    let src = with_breaks front ++ part in
    let k = 0 + length (with_breaks front) in
    let (lines, at) = pull-with_breaks front fuel src 0 part h n enough refl in
    let fuel_left : fuel - length front ≡ suc (fuel - length front - 1) = omega arith in
    let stopped : scan [] part ≡ incomplete =
      ap (scan []) (sym (append-nil part)) ∙ scan-plain [] part [] plain in
    let none : List (List ℕ) = [] in
    lines
    ∙ ap (λ f. in_front front (pull f src k)) fuel_left
    ∙ ap (λ r. in_front front (pull_next k (pull (fuel - length front - 1) src) (scan [] r))) at
    ∙ ap (λ r. in_front front (pull_next k (pull (fuel - length front - 1) src) r)) stopped
    ∙ in_front-append front none false k
    ∙ (let same : k ≡ length (with_breaks front) = omega arith in
        let all : front ++ [] ≡ front = append-nil front in
        λ i.
          let q : Pulled = record { pulled_lines = all i; complete = false; progress = same i } in
          q)

module _ {L H : Type 0} (p : Parsers L H) (front middle : List (List ℕ)) (last part tail : List ℕ)
    (message_line : L) (headers : List H) (n : ℕ) where
  resumed :
      All IsLine front
      → All IsLine middle
      → IsLine last
      → content_length p 0 (middle ++ (last ∷ [])) ≡ ok 0
      → parse_lines p ((front ++ middle) ++ (last ∷ [])) ≡ ok (message_line, headers)
      → whitespace_count (head_bytes (front ++ middle) last []) ≡ 0
      → length (head_bytes (front ++ middle) last tail) ≤ 65535
      → decode p (length (with_breaks front)) (head_bytes (front ++ middle) last tail)
        ≡ item
            (decoded_message (record { message_line = message_line; headers = headers; body = [] }))
            0
            tail
  resumed h hm hl silent parsed clean short =
      let lines = front ++ middle in
      let src = head_bytes lines last tail in
      let k = length (with_breaks front) in
      let size = head_length lines last + 4 + 0 in
      let at : drop k src ≡ head_bytes middle last tail =
        ap (λ bytes. drop k (bytes ++ (last ++ (13 ∷ 10 ∷ 13 ∷ 10 ∷ tail))))
          (with_breaks-append front middle)
        ∙ ap (drop k) (
            append_assoc (with_breaks front) (with_breaks middle)
              (last ++ (13 ∷ 10 ∷ 13 ∷ 10 ∷ tail)))
        ∙ drop-append (with_breaks front) (head_bytes middle last tail) in
      let same : k + head_length middle last + 4 + 0 ≡ size = omega (
        arith,
        ap length (with_breaks-append front middle),
        length-append (with_breaks front) (with_breaks middle),
      ) in
      let there : ltb (length src) size ≡ false =
        ground (arith, length-head_bytes lines last tail) in
      decode-decode_head p k src (begins lines last tail clean) short
      ∙ decode_head-found p middle last tail src k 0 hm hl at
          (omega (arith, length-head_bytes lines last tail, length-lines middle, same)) silent
      ∙ ap
          (λ m.
            if ltb (length src) m
            then needs_more k src
            else parse_message p (take m src) (drop m src) 0)
          same
      ∙ ap (λ b. if b then needs_more k src else parse_message p (take size src) (drop size src) 0)
          there
      ∙ (let (shown, behind) = cut lines last [] tail in
          λ i. parse_message p (shown i) (behind i) 0)
      ∙ parse_message-head_bytes p lines last [] tail message_line headers
          (All-append IsLine front middle h hm) hl parsed

  -- When the first bytes of a message end within a line, the decoder goes on behind the lines that
  -- it has seen, and forgets the length that they announce: if no line behind them announces one,
  -- the message is decoded with an empty body, and its body is left as if it were the next
  -- message.
  pub decode_forgets_length :
      All IsLine front
      → All IsLine middle
      → IsLine last
      → All IsPlain part
      → IsNext part
      → content_length p 0 front ≡ ok n
      → content_length p 0 (middle ++ (last ∷ [])) ≡ ok 0
      → parse_lines p ((front ++ middle) ++ (last ∷ [])) ≡ ok (message_line, headers)
      → whitespace_count (with_breaks front ++ part) ≡ 0
      → length (with_breaks front ++ part) ≤ 65535
      → whitespace_count (head_bytes (front ++ middle) last []) ≡ 0
      → length (head_bytes (front ++ middle) last tail) ≤ 65535
      → (decode p 0 (with_breaks front ++ part)
          ≡ needs_more (length (with_breaks front)) (with_breaks front ++ part))
        × (decode p (length (with_breaks front)) (head_bytes (front ++ middle) last tail)
            ≡ item
                (decoded_message
                  (record { message_line = message_line; headers = headers; body = [] }))
                0
                tail)
  decode_forgets_length h hm hl plain begun announced silent parsed clean short clean_all
        short_all =
      (
        decode-decode_head p 0 (with_breaks front ++ part) clean short
            ∙ ap
                (λ (pl : Pulled).
                  with_length p 0 (with_breaks front ++ part) pl
                    (content_length p 0 pl.pulled_lines))
                (pull-part front part (suc (length (with_breaks front ++ part))) h plain begun
                  (omega (arith, length-lines front, length-append (with_breaks front) part)))
            ∙ ap
                (with_length p 0 (with_breaks front ++ part) (record {
                  pulled_lines = front;
                  complete = false;
                  progress = length (with_breaks front);
                }))
                announced,
        resumed h hm hl silent parsed clean_all short_all,
      )
