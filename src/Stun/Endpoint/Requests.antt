-- ===== src/Stun/Endpoint/Requests.antt =====
-- Requests of media/stun/src/lib.rs and their responses.
use ezk.Common.{
  ℕ, zero, suc, ◌+◌, ◌-◌, ◌*◌, ◌^◌, ◌<◌, ◌≡◌, refl, ◌∙◌, ap, none, some, true, false, arith,
}
use native.Mathlib.Nat.{pow-suc}
use ezk.Stun.Endpoint.{response, elapsed, Attempt, returns, send_loop, send_request}

abbrev pub unanswered : {M : Type 0} → Attempt M
unanswered = record { accepted = true; wait = elapsed }

abbrev pub answered_by : {M : Type 0} → M → Attempt M
answered_by m = record { accepted = true; wait = response m }

-- How long `k` waits last that begin with `delta`, each twice as long as the one before.
abbrev pub total_wait : ℕ → ℕ → ℕ
total_wait delta zero = 0
total_wait delta (suc k) = delta + total_wait (delta * 2) k

send_loop_round :
    {M : Type 0} (rounds delta sent waited : ℕ) (attempts : ℕ → Attempt M)
    → attempts sent ≡ unanswered
    → send_loop (suc rounds) delta sent waited attempts
      ≡ send_loop rounds (delta * 2) (suc sent) (waited + delta) attempts
unfolding send_loop
send_loop_round rounds delta sent waited attempts h = rw (h, send_loop) refl

shifted :
    {M : Type 0} (k sent : ℕ) (attempts : ℕ → Attempt M)
    → ((i : ℕ) → i < suc k → attempts (sent + i) ≡ unanswered)
    → (i : ℕ) → i < k
    → attempts (suc sent + i) ≡ unanswered
shifted k sent attempts h i lt = ap attempts (omega arith) ∙ h (suc i) (omega arith)

same_loop :
    {M : Type 0} {r r' d d' s s' w w' : ℕ} (attempts : ℕ → Attempt M)
    → r ≡ r'
    → d ≡ d'
    → s ≡ s'
    → w ≡ w'
    → send_loop r d s w attempts ≡ send_loop r' d' s' w' attempts
same_loop attempts a b c d = λ i. send_loop (a i) (b i) (c i) (d i) attempts

send_loop_lost :
    {M : Type 0} (k rounds delta sent waited : ℕ) (attempts : ℕ → Attempt M)
    → ((i : ℕ) → i < k → attempts (sent + i) ≡ unanswered)
    → send_loop (k + rounds) delta sent waited attempts
      ≡ send_loop rounds (delta * 2 ^ k) (sent + k) (waited + total_wait delta k) attempts
send_loop_lost zero rounds delta sent waited attempts h =
    same_loop attempts (omega arith) (omega arith) (omega arith) (omega arith)
send_loop_lost (suc k) rounds delta sent waited attempts h =
    let first : attempts sent ≡ unanswered = ap attempts (omega arith) ∙ h 0 (omega arith) in
    ap (λ n. send_loop n delta sent waited attempts) (omega arith)
    ∙ send_loop_round (k + rounds) delta sent waited attempts first
    ∙ send_loop_lost k rounds (delta * 2) (suc sent) (waited + delta) attempts
        (shifted k sent attempts h)
    ∙ same_loop attempts refl (omega (arith, ap (λ (t : ℕ). delta * t) (pow-suc 2 k))) (omega arith)
        (omega arith)

send_loop_answer :
    {M : Type 0} (rounds delta sent waited : ℕ) (attempts : ℕ → Attempt M) (m : M)
    → attempts sent ≡ answered_by m
    → send_loop (suc rounds) delta sent waited attempts ≡ returns (some m) (suc sent) waited
unfolding send_loop
send_loop_answer rounds delta sent waited attempts m h = rw (h, send_loop) refl

-- On a transport that is not reliable the answer to the attempt `k`, one of the seven that are
-- made, after `k` attempts without an answer, is returned; the request was sent `k + 1` times
-- then, and the waits doubled from 500 ms.
pub send_request_answered :
    {M : Type 0} (attempts : ℕ → Attempt M) (m : M) (k : ℕ)
    → k < 7
    → ((i : ℕ) → i < k → attempts i ≡ unanswered)
    → attempts k ≡ answered_by m
    → send_request false attempts ≡ returns (some m) (suc k) (total_wait 500 k)
unfolding send_request
send_request_answered attempts m k lt h answer =
    same_loop attempts (omega arith) refl refl refl
    ∙ send_loop_lost k (suc (6 - k)) 500 0 0 attempts
        (λ i below. ap attempts (omega arith) ∙ h i below)
    ∙ send_loop_answer (6 - k) (500 * 2 ^ k) (0 + k) (0 + total_wait 500 k) attempts m
        (ap attempts (omega arith) ∙ answer)
    ∙ (let sent : 0 + k ≡ k = omega arith in
        let waited : 0 + total_wait 500 k ≡ total_wait 500 k = omega arith in
        λ i. returns (some m) (suc (sent i)) (waited i))

-- Seven attempts without an answer are seven requests and 63.5 seconds, and none is returned.
send_request_lost :
    {M : Type 0} (attempts : ℕ → Attempt M)
    → ((i : ℕ) → i < 7 → attempts i ≡ unanswered)
    → send_request false attempts ≡ returns none 7 63500
unfolding send_request send_loop
send_request_lost attempts h =
    send_loop_lost 7 0 500 0 0 attempts (λ i below. ap attempts (omega arith) ∙ h i below)
