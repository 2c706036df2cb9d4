-- ===== src/Sip/Streaming/Framing.antt =====
-- The messages that StreamingDecoder of sip/sip-core/src/transport/streaming/decode.rs cuts out of a
-- buffer.
use mathlib.Core.List.{append_assoc, append-nil}
use ezk.Common.{
  ℕ, suc, ◌+◌, ◌≤◌, ◌<◌, ◌≡◌, refl, ◌∙◌, ap, sym, List, [], ◌∷◌, ◌++◌, true, false, length, drop,
  take, All, arith, ltb, ◌==◌, ◌&&◌, if◌then◌else◌, length-append, drop-append, take-append,
}
use ezk.Common.Result.{ok}
use ezk.Sip.Streaming.{
  lf, cr, Pulled, head_end, starts_with, whitespace_count, Parsers, item, decoded_message,
  needs_more, fails, panics, keep_alive_request, keep_alive_response, message_too_large,
  content_length, parse_lines, message_of, parse_message, with_length, decode_head, decode,
}
use ezk.Sip.Streaming.Lines.{
  IsLine, head_bytes, head_length, pull-head_bytes, length-lines, length-head_bytes,
}

-- Everything up to the end of the empty line.
abbrev pub head_only : List (List ℕ) → List ℕ → List ℕ
head_only lines last = head_bytes lines last []

head_bytes-head_only :
    (lines : List (List ℕ)) (last tail : List ℕ)
    → head_bytes lines last tail ≡ head_only lines last ++ tail
head_bytes-head_only lines last tail = simp append_assoc

length-head_only :
    (lines : List (List ℕ)) (last : List ℕ)
    → length (head_only lines last) ≡ head_length lines last + 4
length-head_only lines last = omega (arith, length-head_bytes lines last [])

drop-head_bytes :
    (lines : List (List ℕ)) (last tail : List ℕ)
    → drop (head_length lines last + 4) (head_bytes lines last tail) ≡ tail
drop-head_bytes lines last tail =
    (let n = length-head_only lines last in
      let split = head_bytes-head_only lines last tail in λ i. drop (sym n i) (split i))
    ∙ drop-append (head_only lines last) tail

-- What a complete message is cut into.
pub cut :
    (lines : List (List ℕ)) (last body rest : List ℕ)
    → let size = head_length lines last + 4 + length body in
      let src = head_bytes lines last (body ++ rest) in
      (take size src ≡ head_bytes lines last body) × (drop size src ≡ rest)
cut lines last body rest =
    let front = head_only lines last ++ body in
    let split : head_bytes lines last (body ++ rest) ≡ front ++ rest =
      head_bytes-head_only lines last (body ++ rest)
      ∙ sym (append_assoc (head_only lines last) body rest) in
    let size : head_length lines last + 4 + length body ≡ length front =
      omega (arith, length-append (head_only lines last) body, length-head_only lines last) in
    (
      (λ i. take (size i) (split i))
          ∙ take-append front rest
          ∙ sym (head_bytes-head_only lines last body),
      (λ i. drop (size i) (split i)) ∙ drop-append front rest,
    )

same_number : (n : ℕ) → (n == n) ≡ true
same_number n = ground arith

whole : (body : List ℕ) → take (length body) body ≡ body
whole body = ap (take (length body)) (sym (append-nil body)) ∙ take-append body []

-- The head alone says whether whitespace is in front.
pub begins :
    (lines : List (List ℕ)) (last tail : List ℕ)
    → whitespace_count (head_bytes lines last []) ≡ 0
    → whitespace_count (head_bytes lines last tail) ≡ 0
unfolding whitespace_count
begins lines last tail none_left =
    ap whitespace_count (head_bytes-head_only lines last tail)
    ∙ front (head_only lines last) (omega (arith, length-head_only lines last)) none_left
  where
    front :
        (bytes : List ℕ)
        → 0 < length bytes
        → whitespace_count bytes ≡ 0
        → whitespace_count (bytes ++ tail) ≡ 0
    front [] some_bytes h = ground arith
    front (b ∷ bytes) some_bytes h = ground arith

module _ {L H : Type 0} (p : Parsers L H) where
  -- A buffer that begins with no whitespace and is not too long is searched for a head.
  pub decode-decode_head :
      (progress : ℕ) (src : List ℕ)
      → whitespace_count src ≡ 0
      → length src ≤ 65535
      → decode p progress src ≡ decode_head p progress src
  unfolding decode
  decode-decode_head progress src none_left short =
      ap
        (λ count.
          if ltb 0 count && starts_with (cr ∷ lf ∷ cr ∷ lf ∷ []) src
          then item keep_alive_request progress (drop count src)
          else if ltb 0 count && starts_with (cr ∷ lf ∷ []) src
          then item keep_alive_response progress (drop count src)
          else if ltb 65535 (length (drop count src))
          then fails message_too_large progress []
          else decode_head p progress (drop count src))
        none_left
      ∙ (let fits : ltb 65535 (length src) ≡ false = ground arith in
          ap (λ b. if b then fails message_too_large progress [] else decode_head p progress src)
            fits)

  pub parse_message-head_bytes :
      (lines : List (List ℕ)) (last body rest : List ℕ) (message_line : L) (headers : List H)
      → All IsLine lines
      → IsLine last
      → parse_lines p (lines ++ (last ∷ [])) ≡ ok (message_line, headers)
      → parse_message p (head_bytes lines last body) rest (length body)
        ≡ item
            (decoded_message
              (record { message_line = message_line; headers = headers; body = body }))
            0
            rest
  unfolding parse_message
  parse_message-head_bytes lines last body rest message_line headers h hl parsed =
      let src = head_bytes lines last body in
      let n = head_length lines last in
      let (pulled, end) =
        pull-head_bytes lines last body (suc (length src)) src 0 h hl
          (omega (arith, length-lines lines, length-head_bytes lines last body)) refl in
      let zero_n : 0 + n ≡ n = omega arith in
      let body_shown : take (length body) (drop (0 + n + 4) src) ≡ body =
        ap (λ k. take (length body) (drop (k + 4) src)) zero_n
        ∙ ap (take (length body)) (drop-head_bytes lines last body)
        ∙ whole body in
      ap
        (λ (pl : Pulled).
          if pl.complete
          then message_of p src rest (head_end src pl.progress) (length body)
              (parse_lines p pl.pulled_lines)
          else panics)
        pulled
      ∙ (λ i. message_of p src rest (end i) (length body) (parsed i))
      ∙ ap
          (λ (shown : List ℕ).
            if length shown == length body
            then item
                (decoded_message
                  (record { message_line = message_line; headers = headers; body = shown }))
                0 rest
            else panics)
          body_shown
      ∙ ap
          (λ b.
            if b
            then item
                (decoded_message
                  (record { message_line = message_line; headers = headers; body = body }))
                0 rest
            else panics)
          (same_number (length body))

  -- The head is complete in the buffer, and the lines behind the progress announce `n` bytes.
  pub decode_head-found :
      (lines : List (List ℕ)) (last tail : List ℕ) (src : List ℕ) (progress n : ℕ)
      → All IsLine lines
      → IsLine last
      → drop progress src ≡ head_bytes lines last tail
      → length lines + 1 ≤ length src
      → content_length p 0 (lines ++ (last ∷ [])) ≡ ok n
      → decode_head p progress src ≡ (
          if ltb (length src) (progress + head_length lines last + 4 + n)
          then needs_more progress src
          else parse_message p
              (take (progress + head_length lines last + 4 + n) src)
              (drop (progress + head_length lines last + 4 + n) src)
              n)
  decode_head-found lines last tail src progress n h hl at enough announced =
      let (pulled, end) =
        pull-head_bytes lines last tail (suc (length src)) src progress h hl (omega arith) at in
      ap (λ (pl : Pulled). with_length p progress src pl (content_length p 0 pl.pulled_lines))
        pulled
      ∙ ap
          (with_length p progress src (record {
            pulled_lines = lines ++ (last ∷ []);
            complete = true;
            progress = progress + head_length lines last;
          }))
          announced
      ∙ ap
          (λ k.
            if ltb (length src) (k + n)
            then needs_more progress src
            else parse_message p (take (k + n) src) (drop (k + n) src) n)
          end

  module _ (lines : List (List ℕ)) (last : List ℕ) (h : All IsLine lines) (hl : IsLine last) (n : ℕ)
      (announced : content_length p 0 (lines ++ (last ∷ [])) ≡ ok n) (tail : List ℕ)
      (none_left : whitespace_count (head_bytes lines last tail) ≡ 0)
      (short : length (head_bytes lines last tail) ≤ 65535) where
    decode-found :
        let src = head_bytes lines last tail in
        let size = head_length lines last + 4 + n in
        decode p 0 src ≡ (
          if ltb (length src) size
          then needs_more 0 src
          else parse_message p (take size src) (drop size src) n)
    decode-found =
        let src = head_bytes lines last tail in
        let same : 0 + head_length lines last + 4 + n ≡ head_length lines last + 4 + n =
          omega arith in
        decode-decode_head 0 src none_left short
        ∙ decode_head-found lines last tail src 0 n h hl refl
            (omega (arith, length-lines lines, length-head_bytes lines last tail)) announced
        ∙ ap
            (λ size.
              if ltb (length src) size
              then needs_more 0 src
              else parse_message p (take size src) (drop size src) n)
            same

    -- A part of the body.
    decode-part :
        length tail < n
        → decode p 0 (head_bytes lines last tail) ≡ needs_more 0 (head_bytes lines last tail)
    decode-part part =
        let src = head_bytes lines last tail in
        let size = head_length lines last + 4 + n in
        let missing : ltb (length src) size ≡ true =
          ground (arith, length-head_bytes lines last tail) in
        decode-found
        ∙ ap
            (λ b. if b then needs_more 0 src else parse_message p (take size src) (drop size src) n)
            missing

    decode-there :
        n ≤ length tail
        → decode p 0 (head_bytes lines last tail)
          ≡ parse_message p
              (take (head_length lines last + 4 + n) (head_bytes lines last tail))
              (drop (head_length lines last + 4 + n) (head_bytes lines last tail))
              n
    decode-there all =
        let src = head_bytes lines last tail in
        let size = head_length lines last + 4 + n in
        let there : ltb (length src) size ≡ false =
          ground (arith, length-head_bytes lines last tail) in
        decode-found
        ∙ ap
            (λ b. if b then needs_more 0 src else parse_message p (take size src) (drop size src) n)
            there

  -- A message whose head has lines without folding, ends its lines with CRLF, and announces the
  -- length of its body, in a buffer of at most 65535 bytes: with the whole of it there the message
  -- is decoded, with its body, and what stands behind it is left; with a part of the body the
  -- decoder waits, and changes nothing.
  pub decode-message :
      (lines : List (List ℕ)) (last body : List ℕ) (message_line : L) (headers : List H)
      → All IsLine lines
      → IsLine last
      → content_length p 0 (lines ++ (last ∷ [])) ≡ ok (length body)
      → parse_lines p (lines ++ (last ∷ [])) ≡ ok (message_line, headers)
      → whitespace_count (head_bytes lines last []) ≡ 0
      → (rest : List ℕ) → length (head_bytes lines last (body ++ rest)) ≤ 65535
      → (decode p 0 (head_bytes lines last (body ++ rest))
          ≡ item
              (decoded_message
                (record { message_line = message_line; headers = headers; body = body }))
              0
              rest)
        × ((part : List ℕ)
            → length part < length body
            → decode p 0 (head_bytes lines last part) ≡ needs_more 0 (head_bytes lines last part))
  decode-message lines last body message_line headers h hl announced parsed none_left rest short = (
    decode-there lines last h hl (length body) announced (body ++ rest)
          (begins lines last (body ++ rest) none_left) short
          (omega (arith, length-append body rest))
        ∙ (let (front, behind) = cut lines last body rest in
            λ i. parse_message p (front i) (behind i) (length body))
        ∙ parse_message-head_bytes lines last body rest message_line headers h hl parsed,
    λ part fewer.
        decode-part lines last h hl (length body) announced part (begins lines last part none_left)
          (omega (
            arith,
            length-head_bytes lines last part,
            length-head_bytes lines last (body ++ rest),
            length-append body rest,
          ))
          fewer,
  )
