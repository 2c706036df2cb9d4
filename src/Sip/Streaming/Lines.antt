-- ===== src/Sip/Streaming/Lines.antt =====
-- The lines that PullParser of sip/sip-types/src/msg.rs finds in the head of a message.
use mathlib.Core.List.{append_assoc, append-nil}
use mathlib.Core.Path.{subst}
use ezk.Common.{
  ℕ, zero, suc, ◌+◌, ◌-◌, ◌≤◌, ◌<◌, ◌≡◌, ◌≢◌, refl, ◌∙◌, ap, sym, List, [], ◌∷◌, ◌++◌, Bool, true,
  false, length, drop, All, arith, ◌==◌, ◌&&◌, if◌then◌else◌, length-append, drop-append,
}
use ezk.Sip.Streaming.{
  lf, cr, is_blank, Next, line, after_lf, after_crlf, after_cr, scan, next, pull, pull_next, Pulled,
  head_end, starts_with,
}

pub record IsPlain (b : ℕ) : Type 0 where
  pub not_lf : b ≢ 10
  pub not_cr : b ≢ 13

abbrev pub IsBegun : List ℕ → Type 0
IsBegun [] = ⊥
IsBegun (b ∷ bytes) = is_blank b ≡ false

-- A line has a byte at least, no line break, and does not begin with a blank.
pub record IsLine (l : List ℕ) : Type 0 where
  pub plain : All IsPlain l
  pub begun : IsBegun l

-- What stands behind a line break shows that the line ended: two bytes, the first of them neither
-- a blank nor a carriage return.
abbrev pub IsNext : List ℕ → Type 0
IsNext [] = ⊥
IsNext (b ∷ []) = ⊥
IsNext (b1 ∷ b2 ∷ bytes) = (is_blank b1 ≡ false) × (b1 ≢ 13)

IsLine-IsNext : (l : List ℕ) (b : ℕ) (rest : List ℕ) → IsLine l → IsNext (l ++ (b ∷ rest))
IsLine-IsNext [] b rest h = absurd h.begun
IsLine-IsNext (c ∷ []) b rest h = (h.begun, h.plain.0.not_cr)
IsLine-IsNext (c ∷ d ∷ l) b rest h = (h.begun, h.plain.0.not_cr)

pub drop_more : (n m : ℕ) (xs : List ℕ) → drop (n + m) xs ≡ drop m (drop n xs)
drop_more zero m xs = ap (λ k. drop k xs) (omega arith)
drop_more (suc n) m [] = drop_nil m (suc n + m)
  where
    drop_nil : (m k : ℕ) → drop k [] ≡ drop {A = ℕ} m []
    drop_nil zero zero = refl
    drop_nil zero (suc k) = refl
    drop_nil (suc m) zero = refl
    drop_nil (suc m) (suc k) = refl
drop_more (suc n) m (x ∷ xs) =
    let same : suc n + m ≡ suc (n + m) = omega arith in
    ap (λ k. drop k (x ∷ xs)) same ∙ drop_more n m xs

pub equal_no : (a b : ℕ) → a ≢ b → (a == b) ≡ false
equal_no a b h = ground arith

pub scan-plain :
    (taken l rest : List ℕ) → All IsPlain l → scan taken (l ++ rest) ≡ scan (taken ++ l) rest
unfolding scan
scan-plain taken [] rest h = ap (λ t. scan t rest) (sym (append-nil taken))
scan-plain taken (b ∷ l) rest h =
    let more = scan (taken ++ (b ∷ [])) (l ++ rest) in
    ap
      (λ x.
        if x
        then after_lf taken more (l ++ rest)
        else if b == cr
        then after_cr taken more (l ++ rest)
        else more)
      (equal_no b lf h.0.not_lf)
    ∙ ap (λ x. if x then after_cr taken more (l ++ rest) else more) (equal_no b cr h.0.not_cr)
    ∙ scan-plain (taken ++ (b ∷ [])) l rest h.1
    ∙ ap (λ t. scan t rest) (append_assoc taken (b ∷ []) l)

crlf_end :
    (b : ℕ) (l : List ℕ) (fold : Next) (rest : List ℕ)
    → IsNext rest
    → after_crlf (b ∷ l) fold rest ≡ line (b ∷ l) (length (b ∷ l) + 2)
crlf_end b l fold [] h = absurd h
crlf_end b l fold (b1 ∷ []) h = absurd h
crlf_end b l fold (b1 ∷ b2 ∷ rest) h =
    let n = length (b ∷ l) in
    ap (λ x. if x then fold else line (b ∷ l) (if b1 == cr && b2 == lf then n else n + 2)) h.0
    ∙ ap (λ x. line (b ∷ l) (if x && b2 == lf then n else n + 2)) (equal_no b1 cr h.1)

-- A line that more than the line break follows, and the last line before the empty one.
pub scan-line :
    (l rest : List ℕ)
    → IsLine l
    → IsNext rest
    → scan [] (l ++ (13 ∷ 10 ∷ rest)) ≡ line l (length l + 2)
unfolding scan
scan-line [] rest h n = absurd h.begun
scan-line (b ∷ l) rest h n =
    scan-plain [] (b ∷ l) (13 ∷ 10 ∷ rest) h.plain
    ∙ crlf_end b l (scan (b ∷ l ++ (13 ∷ [])) (10 ∷ rest)) rest n

scan-last_line :
    (l rest : List ℕ) → IsLine l → scan [] (l ++ (13 ∷ 10 ∷ 13 ∷ 10 ∷ rest)) ≡ line l (length l)
unfolding scan
scan-last_line [] rest h = absurd h.begun
scan-last_line (b ∷ l) rest h = scan-plain [] (b ∷ l) (13 ∷ 10 ∷ 13 ∷ 10 ∷ rest) h.plain

-- The lines of a head with their line breaks.
abbrev pub with_breaks : List (List ℕ) → List ℕ
with_breaks [] = []
with_breaks (l ∷ lines) = l ++ (13 ∷ 10 ∷ with_breaks lines)

abbrev pub in_front : List (List ℕ) → Pulled → Pulled
in_front [] pulled = pulled
in_front (l ∷ lines) pulled =
    let more = in_front lines pulled in record more { pulled_lines = l ∷ more.pulled_lines }

with_breaks-IsNext :
    (lines : List (List ℕ)) (rest : List ℕ)
    → All IsLine lines
    → IsNext rest
    → IsNext (with_breaks lines ++ rest)
with_breaks-IsNext [] rest h n = n
with_breaks-IsNext (l ∷ lines) rest h n =
    subst IsNext (sym (append_assoc l (13 ∷ 10 ∷ with_breaks lines) rest))
      (IsLine-IsNext l 13 (10 ∷ (with_breaks lines ++ rest)) h.0)

-- Lines in front are pulled one by one.
pub pull-with_breaks :
    (lines : List (List ℕ)) (fuel : ℕ) (input : List ℕ) (progress : ℕ) (rest : List ℕ)
    → All IsLine lines
    → IsNext rest
    → length lines < fuel
    → drop progress input ≡ with_breaks lines ++ rest
    → (pull fuel input progress
        ≡ in_front lines (pull (fuel - length lines) input (progress + length (with_breaks lines))))
      × (drop (progress + length (with_breaks lines)) input ≡ rest)
unfolding pull next
pull-with_breaks [] fuel input progress rest h n enough at = (
  (let same_fuel : fuel ≡ fuel - 0 = omega arith in
      let same : progress ≡ progress + 0 = omega arith in λ i. pull (same_fuel i) input (same i)),
  ap (λ k. drop k input) (omega arith) ∙ at,
)
pull-with_breaks (l ∷ lines) zero input progress rest h n enough at = ground arith
pull-with_breaks (l ∷ lines) (suc fuel) input progress rest h n enough at =
    let behind = with_breaks lines ++ rest in
    let here : drop progress input ≡ l ++ (13 ∷ 10 ∷ behind) =
      at ∙ append_assoc l (13 ∷ 10 ∷ with_breaks lines) rest in
    let after : drop (progress + (length l + 2)) input ≡ behind =
      drop_more progress (length l + 2) input
      ∙ ap (drop (length l + 2)) here
      ∙ drop_more (length l) 2 (l ++ (13 ∷ 10 ∷ behind))
      ∙ ap (drop 2) (drop-append l (13 ∷ 10 ∷ behind)) in
    let grown : length (with_breaks (l ∷ lines)) ≡ length l + 2 + length (with_breaks lines) =
      omega (arith, length-append l (13 ∷ 10 ∷ with_breaks lines)) in
    let same : progress + (length l + 2) + length (with_breaks lines)
        ≡ progress + length (with_breaks (l ∷ lines)) =
      omega (arith, grown) in
    let same_fuel : fuel - length lines ≡ suc fuel - suc (length lines) = omega arith in
    let (later, end) =
      pull-with_breaks lines fuel input (progress + (length l + 2)) rest h.1 n (omega arith)
        after in
    (
      ap (λ r. pull_next progress (pull fuel input) (scan [] r)) here
          ∙ ap (pull_next progress (pull fuel input))
              (scan-line l behind h.0 (with_breaks-IsNext lines rest h.1 n))
          ∙ ap (λ p. let q : Pulled = record p { pulled_lines = l ∷ p.pulled_lines } in q)
              (later ∙ (λ i. in_front lines (pull (same_fuel i) input (same i)))),
      ap (λ k. drop k input) (sym same) ∙ end,
    )

pub in_front-append :
    (lines more : List (List ℕ)) (complete : Bool) (progress : ℕ)
    → in_front lines (record { pulled_lines = more; complete = complete; progress = progress })
      ≡ record { pulled_lines = lines ++ more; complete = complete; progress = progress }
in_front-append [] more complete progress = refl
in_front-append (l ∷ lines) more complete progress =
    ap (λ p. let q : Pulled = record p { pulled_lines = l ∷ p.pulled_lines } in q)
      (in_front-append lines more complete progress)

-- A head of lines, the last of them apart, and what stands behind it.
abbrev pub head_bytes : List (List ℕ) → List ℕ → List ℕ → List ℕ
head_bytes lines last tail = with_breaks lines ++ (last ++ (13 ∷ 10 ∷ 13 ∷ 10 ∷ tail))

abbrev pub head_length : List (List ℕ) → List ℕ → ℕ
head_length lines last = length (with_breaks lines) + length last

-- The last line and the empty one.
pull-last_line :
    (fuel : ℕ) (input : List ℕ) (progress : ℕ) (last tail : List ℕ)
    → IsLine last
    → 1 < fuel
    → drop progress input ≡ last ++ (13 ∷ 10 ∷ 13 ∷ 10 ∷ tail)
    → (pull fuel input progress
        ≡ record { pulled_lines = last ∷ []; complete = true; progress = progress + length last })
      × (drop (progress + length last) input ≡ 13 ∷ 10 ∷ 13 ∷ 10 ∷ tail)
unfolding pull next scan
pull-last_line zero input progress last tail h enough at = ground arith
pull-last_line (suc zero) input progress last tail h enough at = ground arith
pull-last_line (suc (suc fuel)) input progress last tail h enough at =
    let behind : drop (progress + length last) input ≡ 13 ∷ 10 ∷ 13 ∷ 10 ∷ tail =
      drop_more progress (length last) input
      ∙ ap (drop (length last)) at
      ∙ drop-append last (13 ∷ 10 ∷ 13 ∷ 10 ∷ tail) in
    (
      ap (λ r. pull_next progress (pull (suc fuel) input) (scan [] r)) at
          ∙ ap (pull_next progress (pull (suc fuel) input)) (scan-last_line last tail h)
          ∙ ap
              (λ r.
                let p = pull_next (progress + length last) (pull fuel input) (scan [] r) in
                let q : Pulled = record p { pulled_lines = last ∷ p.pulled_lines } in q)
              behind,
      behind,
    )

-- A whole head is pulled to its end, from whatever progress it starts at.
pub pull-head_bytes :
    (lines : List (List ℕ)) (last tail : List ℕ) (fuel : ℕ) (input : List ℕ) (progress : ℕ)
    → All IsLine lines
    → IsLine last
    → length lines + 1 < fuel
    → drop progress input ≡ head_bytes lines last tail
    → (pull fuel input progress ≡ record {
      pulled_lines = lines ++ (last ∷ []);
      complete = true;
      progress = progress + head_length lines last;
    })
      × (head_end input (progress + head_length lines last) ≡ progress + head_length lines last + 4)
unfolding head_end starts_with
pull-head_bytes lines last tail fuel input progress h hl enough at =
    let rest = last ++ (13 ∷ 10 ∷ 13 ∷ 10 ∷ tail) in
    let (front, here) =
      pull-with_breaks lines fuel input progress rest h
        (IsLine-IsNext last 13 (10 ∷ 13 ∷ 10 ∷ tail) hl) (omega arith) at in
    let (end, behind) =
      pull-last_line (fuel - length lines) input (progress + length (with_breaks lines)) last tail
        hl (omega arith) here in
    let same : progress + length (with_breaks lines) + length last
        ≡ progress + head_length lines last =
      omega arith in
    (
      front
          ∙ ap (in_front lines) end
          ∙ in_front-append lines (last ∷ []) true
              (progress + length (with_breaks lines) + length last)
          ∙ ap
              (λ k.
                let q : Pulled = record {
                  pulled_lines = lines ++ (last ∷ []);
                  complete = true;
                  progress = k;
                } in
                q)
              same,
      ap
          (λ (r : List ℕ).
            if starts_with (cr ∷ lf ∷ cr ∷ lf ∷ []) r
            then progress + head_length lines last + 4
            else if starts_with (lf ∷ lf ∷ []) r
            then progress + head_length lines last + 2
            else progress + head_length lines last)
          (ap (λ k. drop k input) (sym same) ∙ behind),
    )

pub length-lines : (lines : List (List ℕ)) → length lines ≤ length (with_breaks lines)
length-lines [] = omega arith
length-lines (l ∷ lines) =
    omega (arith, length-lines lines, length-append l (13 ∷ 10 ∷ with_breaks lines))

pub length-head_bytes :
    (lines : List (List ℕ)) (last tail : List ℕ)
    → length (head_bytes lines last tail) ≡ head_length lines last + 4 + length tail
length-head_bytes lines last tail = omega (
  arith,
  length-append (with_breaks lines) (last ++ (13 ∷ 10 ∷ 13 ∷ 10 ∷ tail)),
  length-append last (13 ∷ 10 ∷ 13 ∷ 10 ∷ tail),
)
