-- ===== src/Stun/Attribute/PasswordAlgorithms/Parameters.antt =====
-- PASSWORD-ALGORITHMS of media/stun-types/src/attributes/password_algs.rs, with parameters and
-- without.
use mathlib.Core.List.{append-nil, append_assoc}
use ezk.Common.{
  ℕ, zero, suc, ◌^◌, ◌<◌, ◌≤◌, ◌≡◌, ◌≢◌, refl, ◌∙◌, ap, sym, List, [], ◌∷◌, ◌++◌, some, length, map,
  All, arith, replicate, take-append, length-append, ltb, true,
}
use ezk.Common.BufMut.{BufMut, to_be_bytes}
use ezk.Common.Bytes.{ReadBytes}
use ezk.Common.Result.{Result, ok, err, ◌>>=◌}
use ezk.Stun.Header.{Error, padding}
use ezk.Stun.Attribute.Codes.{framed}
use ezk.Stun.Wire.{framed-rest}
use ezk.Stun.Attribute.PasswordAlgorithms.{
  Algorithm, params_of, read_algorithms, put_algorithm, put_algorithms,
}

-- Parameters and the padding behind them.
abbrev pub padded : List ℕ → List ℕ
padded params = params ++ replicate (padding (length params)) 0

pub encoding : List Algorithm → List ℕ
encoding [] = []
encoding (a ∷ algorithms) = framed a.0 a.1 (encoding algorithms)

below : (a b : ℕ) → a < b → ltb a b ≡ true
below a b h = ground arith

put_algorithm_lem :
    (buf : BufMut) (a : Algorithm) (b : List ℕ)
    → a.0 < 2 ^ 16
    → length a.1 < 2 ^ 16
    → put_algorithm buf a b ≡ b ++ framed a.0 a.1 []
unfolding put_algorithm
put_algorithm_lem buf a b ht hn =
    ap (λ front. (buf.put_word 2 front (length a.1) ++ a.1) ++ replicate (padding (length a.1)) 0)
      (buf.put_word-append 2 b a.0 ht)
    ∙ ap (λ front. (front ++ a.1) ++ replicate (padding (length a.1)) 0)
        (buf.put_word-append 2 (b ++ to_be_bytes 2 a.0) (length a.1) hn)
    ∙ simp (append_assoc, append-nil)

-- It is what `encode` appends.
put_algorithms-encoding :
    (buf : BufMut) (algorithms : List Algorithm) (b : List ℕ)
    → All (λ a. (a.0 < 2 ^ 16) × (length a.1 < 2 ^ 16)) algorithms
    → put_algorithms buf algorithms b ≡ some (b ++ encoding algorithms)
unfolding encoding put_algorithms
put_algorithms-encoding buf [] b h = ap some (sym (append-nil b))
put_algorithms-encoding buf (a ∷ algorithms) b h = rw (below (length a.1) (2 ^ 16) h.0.1) (
    ap (put_algorithms buf algorithms) (put_algorithm_lem buf a b h.0.0 h.0.1)
    ∙ put_algorithms-encoding buf algorithms (b ++ framed a.0 a.1 []) h.1
    ∙ ap some (
        append_assoc b (framed a.0 a.1 []) (encoding algorithms)
        ∙ ap (λ rest. b ++ rest) (sym (framed-rest a.0 a.1 (encoding algorithms)))))

params_of-append : (params rest : List ℕ) → params_of (length params) (params ++ rest) ≡ ok params
params_of-append params rest = ground (arith, length-append params rest, take-append params rest)

read_algorithms_step :
    (rd : ReadBytes) (fuel : ℕ) (a : Algorithm) (rest : List ℕ)
    → a.0 < 2 ^ 16
    → length a.1 < 2 ^ 16
    → read_algorithms rd (suc fuel) (framed a.0 a.1 rest) ≡ (
        read_algorithms rd fuel (a.1 ++ (replicate (padding (length a.1)) 0 ++ rest)) >>= λ more.
        ok (a ∷ more))
unfolding read_algorithms to_be_bytes
read_algorithms_step rd fuel a rest ht hn =
    let value = a.1 ++ (replicate (padding (length a.1)) 0 ++ rest) in
    rw (rd.read_word-be 2 a.0 (to_be_bytes 2 (length a.1) ++ value) ht) (
      rw (rd.read_word-be 2 (length a.1) value hn) (
        ap
          (λ params. params >>= λ params.
            (read_algorithms rd fuel value >>= λ more. ok ((a.0, params) ∷ more)))
          (params_of-append a.1 (replicate (padding (length a.1)) 0 ++ rest))))

read_nothing : (rd : ReadBytes) (fuel : ℕ) → read_algorithms rd fuel [] ≡ ok []
unfolding read_algorithms
read_nothing rd zero = refl
read_nothing rd (suc fuel) = refl

-- As long as a byte is left, there is another algorithm or an error.
read_algorithms-more :
    (rd : ReadBytes) (fuel : ℕ) (b : ℕ) (bs : List ℕ)
    → read_algorithms rd (suc fuel) (b ∷ bs) ≢ ok []
unfolding read_algorithms
read_algorithms-more rd fuel b bs = λ h. ground arith

abbrev pub bare : ℕ → Algorithm
bare t = (t, [])

read_algorithms-fuel :
    (rd : ReadBytes) (fuel : ℕ) (types : List ℕ)
    → length types ≤ fuel
    → All (λ t. t < 2 ^ 16) types
    → read_algorithms rd fuel (encoding (map bare types)) ≡ ok (map bare types)
unfolding encoding read_algorithms padding
read_algorithms-fuel rd fuel [] enough h = read_nothing rd fuel
read_algorithms-fuel rd zero (t ∷ types) enough h = absurd (omega arith)
read_algorithms-fuel rd (suc fuel) (t ∷ types) enough h =
    read_algorithms_step rd fuel (bare t) (encoding (map bare types)) h.0 (omega arith)
    ∙ ap (λ r. r >>= λ more. ok (bare t ∷ more))
        (read_algorithms-fuel rd fuel types (omega arith) h.1)

length-encoding : (types : List ℕ) → length types ≤ length (encoding (map bare types))
unfolding encoding to_be_bytes padding
length-encoding [] = omega arith
length-encoding (t ∷ types) = omega (arith, length-encoding types)

-- Algorithms without parameters are read back as they were written.
read_algorithms-encoding :
    (rd : ReadBytes) (types : List ℕ)
    → All (λ t. t < 2 ^ 16) types
    → read_algorithms rd (length (encoding (map bare types))) (encoding (map bare types))
      ≡ ok (map bare types)
read_algorithms-encoding rd types h =
    read_algorithms-fuel rd (length (encoding (map bare types))) types (length-encoding types) h

prepend-more :
    (a : Algorithm) (r : Result Error (List Algorithm))
    → r ≢ ok []
    → (r >>= λ more. ok (a ∷ more)) ≢ ok (a ∷ [])
prepend-more a (ok []) h = λ e. h refl
prepend-more a (ok (x ∷ more)) h = λ e. ground arith
prepend-more a (err e) h = λ e. ground arith

read_algorithms-again :
    (rd : ReadBytes) (fuel t : ℕ) (params : List ℕ)
    → t < 2 ^ 16
    → length params < 2 ^ 16
    → 0 < length params
    → read_algorithms rd (suc (suc fuel)) (framed t params []) ≢ ok ((t, params) ∷ [])
read_algorithms-again rd fuel t [] ht hn some_params = absurd (omega arith)
read_algorithms-again rd fuel t (p ∷ params) ht hn some_params =
    let tail = params ++ (replicate (padding (length (p ∷ params))) 0 ++ []) in
    λ e.
      prepend-more (t, p ∷ params) (read_algorithms rd (suc fuel) (p ∷ tail))
        (read_algorithms-more rd fuel p tail)
        (sym (read_algorithms_step rd (suc fuel) (t, p ∷ params) [] ht hn) ∙ e)

read_algorithms-ne-encoding :
    (rd : ReadBytes) (a : Algorithm)
    → a.0 < 2 ^ 16
    → length a.1 < 2 ^ 16
    → 0 < length a.1
    → read_algorithms rd (length (encoding (a ∷ []))) (encoding (a ∷ [])) ≢ ok (a ∷ [])
unfolding encoding to_be_bytes
read_algorithms-ne-encoding rd a ht hn some_params =
    read_algorithms-again rd
      (suc (suc (length (a.1 ++ (replicate (padding (length a.1)) 0 ++ []))))) a.0 a.1 ht hn
      some_params

read_algorithms-padded :
    (rd : ReadBytes) (a : Algorithm)
    → a.0 < 2 ^ 16
    → length a.1 < 2 ^ 16
    → (fuel : ℕ) × (length (padded a.1) ≤ fuel)
      × (read_algorithms rd (length (encoding (a ∷ []))) (encoding (a ∷ []))
          ≡ (read_algorithms rd fuel (padded a.1) >>= λ more. ok (a ∷ more)))
unfolding encoding to_be_bytes
read_algorithms-padded rd a ht hn =
    let rest = a.1 ++ (replicate (padding (length a.1)) 0 ++ []) in
    let same : rest ≡ padded a.1 = ap (λ zeros. a.1 ++ zeros) (append-nil _) in
    (
      suc (suc (suc (length rest))),
      omega (arith, ap length same),
      read_algorithms_step rd (suc (suc (suc (length rest)))) a [] ht hn
          ∙ ap
              (λ value.
                read_algorithms rd (suc (suc (suc (length rest)))) value >>= λ more. ok (a ∷ more))
              same,
    )

-- An algorithm with parameters is written without a panic. The loop that decodes what was written
-- takes the algorithm, and goes on with its parameters and their padding, as if they were further
-- algorithms, with fuel for their whole length; so what it answers is never what was written.
pub put_algorithms_unreadable :
    (rd : ReadBytes) (buf : BufMut) (a : Algorithm)
    → a.0 < 2 ^ 16
    → length a.1 < 2 ^ 16
    → 0 < length a.1
    → (value : List ℕ) × (put_algorithms buf (a ∷ []) [] ≡ some value)
      × ((fuel : ℕ) × (length (padded a.1) ≤ fuel)
          × (read_algorithms rd (length value) value
              ≡ (read_algorithms rd fuel (padded a.1) >>= λ more. ok (a ∷ more))))
      × (read_algorithms rd (length value) value ≢ ok (a ∷ []))
put_algorithms_unreadable rd buf a ht hn some_params = (
  encoding (a ∷ []),
  put_algorithms-encoding buf (a ∷ []) [] ((ht, hn), tt),
  read_algorithms-padded rd a ht hn,
  read_algorithms-ne-encoding rd a ht hn some_params,
)
