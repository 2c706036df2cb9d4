-- ===== src/Sip/ClientInvTsx/Resend.antt =====
-- How often the INVITE client transaction of sip/sip-core/src/transaction/client_inv.rs sends its
-- request again.
use ezk.Common.{
  ℕ, zero, suc, ◌+◌, ◌-◌, ◌*◌, ◌≤◌, ◌<◌, ◌≡◌, refl, ◌∙◌, List, [], ◌∷◌, Option, none, some, Bool,
  true, false, min, arith, if-elim, if◌then◌else◌,
}
use ezk.Common.Result.{Result, ok, err}
use ezk.Sip.Headers.{HeaderError}
use ezk.Sip.StatusCode.{CodeKind, kind}
use ezk.Sip.ClientInvTsx.{
  Heard, Arrival, OutgoingRequest, Syntax, ClientInvTsx, Received, acknowledge, create_ack,
  handle_msg, is_heard_by, Ending, answered, elapsed, send_failed, resend_loop, receive,
  handle_kind, receive_response, wait_for_answer, sent,
}

abbrev pub in_time : Bool → Ending
in_time b = if b then answered else elapsed

-- When the waits of `k` rounds end, the first of them `n` long, each twice as long as the one
-- before.
abbrev pub schedule : ℕ → ℕ → ℕ → List ℕ
schedule zero start n = []
schedule (suc k) start n = (start + n) ∷ schedule k (start + n) (n * 2)

abbrev pub span : ℕ → ℕ → ℕ
span zero n = 0
span (suc k) n = n + span k (n * 2)

-- The times up to the first one by which the response is there.
unfoldable pub before : {N V : Type 0} → Option (Heard N V) → List ℕ → List ℕ
before heard [] = []
before heard (t ∷ times) =
    let later = before heard times in if is_heard_by t heard then [] else t ∷ later

module _ {N V : Type 0} (accepts : ℕ → Bool) (all : (t : ℕ) → accepts t ≡ true) where
  -- A transport that takes all requests: the wait ends with the response if there is one by the
  -- deadline, and at the deadline otherwise.
  pub resend_loop-in_time :
      (fuel start n deadline : ℕ) (heard : Option (Heard N V))
      → 0 < n
      → 0 < fuel
      → deadline < start + fuel
      → (resend_loop fuel accepts start n deadline heard).1 ≡ in_time (is_heard_by deadline heard)
  unfolding resend_loop
  resend_loop-in_time zero start n deadline heard pos some_fuel enough = ground arith
  resend_loop-in_time (suc fuel) start n deadline none pos some_fuel enough =
      ground (arith, all (start + n), resend_loop-in_time fuel (start + n) (n * 2) deadline none)
  resend_loop-in_time (suc fuel) start n deadline (some h) pos some_fuel enough =
      ground
        (arith, all (start + n), resend_loop-in_time fuel (start + n) (n * 2) deadline (some h))

  -- One round that ends before the deadline, and one that does not.
  within :
      (fuel start n deadline : ℕ) (heard : Option (Heard N V)) (later : List ℕ)
      → start + n ≤ deadline
      → (resend_loop fuel accepts (start + n) (n * 2) deadline heard).0 ≡ later
      → (resend_loop (suc fuel) accepts start n deadline heard).0
        ≡ (if is_heard_by (start + n) heard then [] else (start + n) ∷ later)
  unfolding resend_loop
  within fuel start n deadline heard later le same =
      let first : min (start + n) deadline ≡ start + n = omega arith in
      ground (arith, all (start + n), same, first)

  beyond :
      (fuel start n deadline : ℕ) (heard : Option (Heard N V))
      → deadline < start + n
      → (resend_loop (suc fuel) accepts start n deadline heard).0 ≡ []
  unfolding resend_loop
  beyond fuel start n deadline heard lt = ground arith

  resend_loop-schedule :
      (k fuel start n deadline : ℕ) (heard : Option (Heard N V))
      → k < fuel
      → start + span k n ≤ deadline
      → deadline < start + span (suc k) n
      → (resend_loop fuel accepts start n deadline heard).0 ≡ before heard (schedule k start n)
  unfolding before
  resend_loop-schedule k zero start n deadline heard enough le lt = ground arith
  resend_loop-schedule zero (suc fuel) start n deadline heard enough le lt =
      beyond fuel start n deadline heard (omega arith)
  resend_loop-schedule (suc k) (suc fuel) start n deadline heard enough le lt =
      within fuel start n deadline heard (before heard (schedule k (start + n) (n * 2)))
        (omega arith)
        (resend_loop-schedule k fuel (start + n) (n * 2) deadline heard (omega arith) (omega arith)
          (omega arith))

module _ {N V E P : Type 0} (s : Syntax N V E) (accepts : ℕ → Bool) where
  acknowledge-resent :
      (tsx : ClientInvTsx N V P) (resent : List ℕ) (h : Heard N V)
      (r : Result (HeaderError N E) (OutgoingRequest N V P))
      → (acknowledge s accepts tsx resent h r).resent ≡ resent
  acknowledge-resent tsx resent h (err e) = refl
  acknowledge-resent tsx resent h (ok ack) =
      if-elim (λ (r : Received N V E P). r.resent ≡ resent) (accepts h.at) (λ b. refl) (λ b. refl)

  handle_kind-resent :
      (tsx : ClientInvTsx N V P) (resent : List ℕ) (h : Heard N V) (k : CodeKind)
      → (handle_kind s accepts tsx resent h k).resent ≡ resent
  handle_kind-resent tsx resent h CodeKind.provisional = refl
  handle_kind-resent tsx resent h CodeKind.success = refl
  handle_kind-resent tsx resent h CodeKind.redirection =
      acknowledge-resent tsx resent h (create_ack s tsx.request h.headers)
  handle_kind-resent tsx resent h CodeKind.request_failure =
      acknowledge-resent tsx resent h (create_ack s tsx.request h.headers)
  handle_kind-resent tsx resent h CodeKind.server_failure =
      acknowledge-resent tsx resent h (create_ack s tsx.request h.headers)
  handle_kind-resent tsx resent h CodeKind.global_failure =
      acknowledge-resent tsx resent h (create_ack s tsx.request h.headers)
  handle_kind-resent tsx resent h CodeKind.custom =
      acknowledge-resent tsx resent h (create_ack s tsx.request h.headers)

  wait_for_answer-resent :
      (tsx : ClientInvTsx N V P) (now : ℕ) (arrivals : List (Arrival N V))
      (heard : Option (Heard N V)) (resent : List ℕ) (ending : Ending)
      → (wait_for_answer s accepts tsx now arrivals heard (resent, ending)).resent ≡ resent
  unfolding handle_msg
  wait_for_answer-resent tsx now arrivals (some h) resent answered =
      handle_kind-resent tsx resent h (kind h.code)
  wait_for_answer-resent tsx now arrivals none resent answered = refl
  wait_for_answer-resent tsx now arrivals heard resent elapsed = refl
  wait_for_answer-resent tsx now arrivals heard resent (send_failed at) = refl

  -- On a transport that is not reliable and takes all requests, the INVITE is sent again 0.5, 1.5,
  -- 3.5, 7.5, 15.5 and 31.5 seconds after it was sent, up to the first of these times by which
  -- there is a response.
  pub receive-resends :
      ((t : ℕ) → accepts t ≡ true)
      → (now : ℕ) (req : OutgoingRequest N V P) (arrivals : List (Arrival N V))
      → (receive s accepts now (sent false now req) arrivals).resent
        ≡ before (receive_response now arrivals) (schedule 6 now 500)
  unfolding receive sent
  receive-resends all now req arrivals =
      let heard = receive_response now arrivals in
      let w = resend_loop (suc (now + 32000 - now)) accepts now 500 (now + 32000) heard in
      wait_for_answer-resent (sent false now req) now arrivals heard w.0 w.1
      ∙ resend_loop-schedule accepts all 6 (suc (now + 32000 - now)) now 500 (now + 32000) heard
          (omega arith) (omega arith) (omega arith)
