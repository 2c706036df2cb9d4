-- ===== src/Sip/Streaming/Panics.antt =====
-- StreamingDecoder of sip/sip-core/src/transport/streaming/decode.rs on line breaks of both kinds.
use mathlib.Core.List.{append_assoc}
use ezk.Common.{
  ℕ, zero, suc, ◌+◌, ◌≤◌, ◌<◌, ◌≡◌, ◌≢◌, refl, ◌∙◌, ap, sym, List, [], ◌∷◌, ◌++◌, true, false,
  length, drop, take, arith, ltb, ◌&&◌, if◌then◌else◌, length-append, drop-append, take-append,
}
use ezk.Common.Result.{ok}
use ezk.Sip.Streaming.{
  lf, cr, is_blank, pull, pull_next, finished, Next, Pulled, head_end, starts_with, scan, next,
  whitespace_count, Parsers, needs_more, panics, content_length, split_colon, is_content_length,
  parse_lines, message_of, parse_message, with_length, decode,
}
use ezk.Sip.Streaming.Lines.{IsLine, scan-line, scan-plain, drop_more, equal_no}
use ezk.Sip.Streaming.Framing.{decode-decode_head}

-- A line that ends with CRLF, and an empty line that ends with LF alone.
abbrev pub mixed : List ℕ → ℕ → List ℕ → List ℕ
mixed l b rest = l ++ (13 ∷ 10 ∷ 10 ∷ b ∷ rest)

module _ (l : List ℕ) (b : ℕ) (rest : List ℕ) (h : IsLine l) (no_blank : is_blank b ≡ false)
    (no_lf : b ≢ 10) where
  behind-mixed : drop (length l + 2) (mixed l b rest) ≡ 10 ∷ b ∷ rest
  behind-mixed =
      drop_more (length l) 2 (mixed l b rest)
      ∙ ap (drop 2) (drop-append l (13 ∷ 10 ∷ 10 ∷ b ∷ rest))

  front-mixed : take (length l + 2) (mixed l b rest) ≡ l ++ (13 ∷ 10 ∷ [])
  front-mixed =
      let front = l ++ (13 ∷ 10 ∷ []) in
      let split : mixed l b rest ≡ front ++ (10 ∷ b ∷ rest) =
        sym (append_assoc l (13 ∷ 10 ∷ []) (10 ∷ b ∷ rest)) in
      let size : length l + 2 ≡ length front = omega (arith, length-append l (13 ∷ 10 ∷ [])) in
      (λ i. take (size i) (split i)) ∙ take-append front (10 ∷ b ∷ rest)

  pull-mixed :
      (fuel : ℕ)
      → 1 < fuel
      → pull fuel (mixed l b rest) 0
        ≡ record { pulled_lines = l ∷ []; complete = true; progress = length l + 2 }
  unfolding pull next scan
  pull-mixed zero enough = ground arith
  pull-mixed (suc zero) enough = ground arith
  pull-mixed (suc (suc fuel)) enough =
      let src = mixed l b rest in
      let again = λ (k : ℕ) (r : List ℕ).
        (let more = pull_next k (pull fuel src) (scan [] r) in
          let q : Pulled = record more { pulled_lines = l ∷ more.pulled_lines } in q) in
      let same : 0 + (length l + 2) ≡ length l + 2 = omega arith in
      ap (pull_next 0 (pull (suc fuel) src))
        (scan-line l (10 ∷ b ∷ rest) h (refl, λ e. ground arith))
      ∙ ap (λ k. again k (drop k src)) same
      ∙ ap (again (length l + 2)) behind-mixed
      ∙ ap
          (λ x.
            let more =
              pull_next (length l + 2) (pull fuel src)
                (if x then scan (10 ∷ []) (b ∷ rest) else finished) in
            let q : Pulled = record more { pulled_lines = l ∷ more.pulled_lines } in q)
          no_blank

  head_end-mixed : head_end (mixed l b rest) (length l + 2) ≡ length l + 2
  unfolding head_end starts_with
  head_end-mixed =
      ap
        (λ (r : List ℕ).
          if starts_with (cr ∷ lf ∷ cr ∷ lf ∷ []) r
          then length l + 2 + 4
          else if starts_with (lf ∷ lf ∷ []) r
          then length l + 2 + 2
          else length l + 2)
        behind-mixed
      ∙ ap (λ x. if x && true then length l + 2 + 2 else length l + 2)
          (equal_no lf b (λ e. no_lf (sym e)))

-- Cut off in front of the empty line, the head is not complete any more.
pull-cut :
    (l : List ℕ) (fuel : ℕ) → IsLine l → (pull (suc fuel) (l ++ (13 ∷ 10 ∷ [])) 0).complete ≡ false
unfolding pull next scan
pull-cut l fuel h =
    ap (λ (n : Next). (pull_next 0 (pull fuel (l ++ (13 ∷ 10 ∷ []))) n).complete)
      (scan-plain [] l (13 ∷ 10 ∷ []) h.plain)

module _ {L H : Type 0} (p : Parsers L H) where
  length_unseen :
      (l : List ℕ)
      → is_content_length (split_colon l).0 ≡ false
      → content_length p 0 (l ∷ []) ≡ ok 0
  unfolding content_length
  length_unseen l other = rw other refl

  -- A line that ends with CRLF and is not Content-Length, with no whitespace in front, an empty line
  -- that ends with LF alone, and behind it any byte but a blank or another LF, at most 65535 bytes
  -- in all: the decoder takes the head for complete, cuts it off in front of the empty line, and
  -- panics when it parses it for the second time.
  pub decode_panics :
      (l : List ℕ) (b : ℕ) (rest : List ℕ)
      → IsLine l
      → is_content_length (split_colon l).0 ≡ false
      → is_blank b ≡ false
      → b ≢ 10
      → whitespace_count (mixed l b rest) ≡ 0
      → length (mixed l b rest) ≤ 65535
      → decode p 0 (mixed l b rest) ≡ panics
  unfolding parse_message
  decode_panics l b rest h other no_blank no_lf none_left short =
      let src = mixed l b rest in
      let size : length l + 2 + 0 ≡ length l + 2 = omega arith in
      let enough : ltb (length src) (length l + 2) ≡ false =
        ground (arith, length-append l (13 ∷ 10 ∷ 10 ∷ b ∷ rest)) in
      decode-decode_head p 0 src none_left short
      ∙ ap (λ (pl : Pulled). with_length p 0 src pl (content_length p 0 pl.pulled_lines))
          (pull-mixed l b rest h no_blank no_lf (suc (length src))
            (omega (arith, length-append l (13 ∷ 10 ∷ 10 ∷ b ∷ rest))))
      ∙ ap
          (with_length p 0 src
            (record { pulled_lines = l ∷ []; complete = true; progress = length l + 2 }))
          (length_unseen l other)
      ∙ ap
          (λ k.
            if ltb (length src) (k + 0)
            then needs_more 0 src
            else parse_message p (take (k + 0) src) (drop (k + 0) src) 0)
          (head_end-mixed l b rest h no_blank no_lf)
      ∙ ap
          (λ k.
            if ltb (length src) k
            then needs_more 0 src
            else parse_message p (take k src) (drop k src) 0)
          size
      ∙ ap
          (λ x.
            if x
            then needs_more 0 src
            else parse_message p (take (length l + 2) src) (drop (length l + 2) src) 0)
          enough
      ∙ ap (λ front. parse_message p front (drop (length l + 2) src) 0)
          (front-mixed l b rest h no_blank no_lf)
      ∙ ap
          (λ x.
            let front = l ++ (13 ∷ 10 ∷ []) in
            let pulled = pull (suc (length front)) front 0 in
            if x
            then message_of p front (drop (length l + 2) src) (head_end front pulled.progress) 0
                (parse_lines p pulled.pulled_lines)
            else panics)
          (pull-cut l (length (l ++ (13 ∷ 10 ∷ []))) h)
