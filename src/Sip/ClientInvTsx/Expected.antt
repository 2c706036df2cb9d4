-- ===== src/Sip/ClientInvTsx/Expected.antt =====
-- The responses that a caller of an INVITE client transaction of
-- sip/sip-core/src/transaction/client_inv.rs is to get, without the states of the transaction.
use ezk.Common.{
  ℕ, suc, ◌+◌, ◌≤◌, ◌<◌, ◌≡◌, refl, List, [], ◌∷◌, Option, none, some, Bool, length, leb, max,
  arith, if◌then◌else◌,
}
use ezk.Sip.Headers.{Entry}
use ezk.Sip.StatusCode.{CodeKind, kind}
use ezk.Sip.ClientInvTsx.{TsxMessage, request, response, Arrival, Heard, heard_at, receive_response}

-- Before the first success, and after it.
pub data Stage : Type 0 where
  asking won : Stage

-- What a response adds to the responses that are expected, with `later` for what follows it.
abbrev pub told :
    {N V : Type 0}
    → (List (Entry N V) → Bool)
    → ℕ
    → ℕ
    → ℕ
    → List (Entry N V)
    → (Stage → ℕ → List ℕ)
    → Stage
    → CodeKind
    → List ℕ
told can_ack deadline at code headers later Stage.won k = code ∷ later Stage.won deadline
told can_ack deadline at code headers later Stage.asking CodeKind.provisional =
    code ∷ later Stage.asking (at + 120000)
told can_ack deadline at code headers later Stage.asking CodeKind.success =
    code ∷ later Stage.won (at + 32000)
told can_ack deadline at code headers later Stage.asking k =
    if can_ack headers then code ∷ [] else []

abbrev pub said :
    {N V : Type 0}
    → (List (Entry N V) → Bool)
    → Stage
    → ℕ
    → ℕ
    → (Stage → ℕ → List ℕ)
    → List ℕ
    → TsxMessage N V
    → List ℕ
said can_ack stage deadline at later skipped (request method) = skipped
said can_ack stage deadline at later skipped (response code headers) =
    if leb at deadline then told can_ack deadline at code headers later stage (kind code) else []

-- The responses that come by the deadline, which a provisional one sets to two minutes and the
-- first success to 32 seconds from its own time; a failure before a success is the last one, if
-- an ACK can be made for it.
unfoldable pub expected :
    {N V : Type 0} → (List (Entry N V) → Bool) → Stage → ℕ → ℕ → List (Arrival N V) → List ℕ
expected can_ack stage deadline now [] = []
expected can_ack stage deadline now (a ∷ arrivals) =
    said can_ack stage deadline (max now a.at)
      (λ stage' deadline'. expected can_ack stage' deadline' (max now a.at) arrivals)
      (expected can_ack stage deadline now arrivals) a.message

abbrev pub expected_heard :
    {N V : Type 0} → (List (Entry N V) → Bool) → Stage → ℕ → Option (Heard N V) → List ℕ
expected_heard can_ack stage deadline none = []
expected_heard can_ack stage deadline (some h) =
    if leb h.at deadline
    then told can_ack deadline h.at h.code h.headers
        (λ stage' deadline'. expected can_ack stage' deadline' h.at h.rest) stage (kind h.code)
    else []

abbrev pub IsShorter : {N V : Type 0} → ℕ → Option (Heard N V) → Type 0
IsShorter n none = Unit {0}
IsShorter n (some h) = length h.rest < n

module _ {N V : Type 0} where
  pub expected-heard :
      (can_ack : List (Entry N V) → Bool) (stage : Stage) (deadline now : ℕ)
      (arrivals : List (Arrival N V))
      → expected can_ack stage deadline now arrivals
        ≡ expected_heard can_ack stage deadline (receive_response now arrivals)
  unfolding expected receive_response
  expected-heard can_ack stage deadline now [] = refl
  expected-heard can_ack stage deadline now (a ∷ arrivals) =
      go (expected-heard can_ack stage deadline now arrivals) a.message
    where
      go :
          expected can_ack stage deadline now arrivals
            ≡ expected_heard can_ack stage deadline (receive_response now arrivals)
          → (m : TsxMessage N V)
          → said can_ack stage deadline
              (max now a.at)
              (λ stage' deadline'. expected can_ack stage' deadline' (max now a.at) arrivals)
              (expected can_ack stage deadline now arrivals)
              m
            ≡ expected_heard can_ack stage deadline
                (heard_at (max now a.at) arrivals (receive_response now arrivals) m)
      go later (request method) = later
      go later (response code headers) = refl

  pub weaken :
      (n m : ℕ) (heard : Option (Heard N V)) → n ≤ m → IsShorter n heard → IsShorter m heard
  weaken n m none le h = tt
  weaken n m (some x) le h = omega arith

  pub receive_response-IsShorter :
      (now : ℕ) (arrivals : List (Arrival N V))
      → IsShorter (length arrivals) (receive_response now arrivals)
  unfolding receive_response
  receive_response-IsShorter now [] = tt
  receive_response-IsShorter now (a ∷ arrivals) =
      go (receive_response-IsShorter now arrivals) a.message
    where
      go :
          IsShorter (length arrivals) (receive_response now arrivals)
          → (m : TsxMessage N V)
          → IsShorter
              (suc (length arrivals))
              (heard_at (max now a.at) arrivals (receive_response now arrivals) m)
      go later (request method) =
          weaken (length arrivals) (suc (length arrivals)) (receive_response now arrivals)
            (omega arith) later
      go later (response code headers) = omega arith
