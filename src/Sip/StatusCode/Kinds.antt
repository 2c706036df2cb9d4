-- ===== src/Sip/StatusCode/Kinds.antt =====
-- How the kinds and the texts of sip/sip-types/src/code.rs fit together.
use Prim.Native.String.{String}
use ezk.Common.{
  ℕ, ◌≡◌, ◌≢◌, List, [], ◌∷◌, some, arith, ◌/◌, ◌≤◌, ◌<◌, ◌==◌, if◌then◌else◌, All, Bool-cases,
  ==_iff, inl, inr,
}
use ezk.Sip.StatusCode.{CodeKind, kind, codes, text, find_text}

-- The first digit of a three-digit code, as RFC 3261 reads it.
abbrev pub class_kind : ℕ → CodeKind
class_kind h =
    if h == 1
    then CodeKind.provisional
    else if h == 2
    then CodeKind.success
    else if h == 3
    then CodeKind.redirection
    else if h == 4
    then CodeKind.request_failure
    else if h == 5
    then CodeKind.server_failure
    else if h == 6
    then CodeKind.global_failure
    else CodeKind.custom

-- The kind of every code is that of its hundreds, and a code outside 100 to 699 is custom.
kind-class_kind : (code : ℕ) → kind code ≡ class_kind (code / 100)
unfolding kind
kind-class_kind code = ground arith

-- A code that an arm lists is in the range of the codes.
find_text-range :
    (code : ℕ) (arms : List (ℕ × String)) (reason : String)
    → All (λ arm. (100 ≤ arm.0) × (arm.0 < 700)) arms
    → find_text code arms ≡ some reason
    → (100 ≤ code) × (code < 700)
find_text-range code [] reason h e = cc
find_text-range code ((c, t) ∷ arms) reason h e = elim (Bool-cases (code == c)) [
  | inl hit ↦ let same : code ≡ c = (==_iff code c).0 hit in omega arith
  | inr miss ↦ find_text-range code arms reason h.1 (rw miss at e)
]

kind-ne-custom : (code : ℕ) → 100 ≤ code → code < 700 → kind code ≢ CodeKind.custom
unfolding kind
kind-ne-custom code lo hi = ground arith

-- Every code that has a default text has a kind of its own: none is custom.
text-kind : (code : ℕ) (reason : String) → text code ≡ some reason → kind code ≢ CodeKind.custom
unfolding text
text-kind code reason e =
    let range = find_text-range code codes reason (omega arith) e in
    kind-ne-custom code range.0 range.1
