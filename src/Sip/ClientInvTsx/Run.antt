-- ===== src/Sip/ClientInvTsx/Run.antt =====
-- The responses that a caller of `receive` of sip/sip-core/src/transaction/client_inv.rs gets.
use ezk.Common.{
  ℕ, zero, suc, ◌+◌, ◌-◌, ◌<◌, ◌≡◌, refl, ◌∙◌, ap, sym, List, [], ◌∷◌, Option, none, some, Bool,
  true, false, length, leb, arith, if-elim, if◌then◌else◌,
}
use ezk.Common.Result.{Result, ok, err}
use ezk.Sip.Headers.{Entry, HeaderError}
use ezk.Sip.StatusCode.{CodeKind, kind}
use ezk.Sip.ClientInvTsx.{
  Syntax, OutgoingRequest, Arrival, State, ClientInvTsx, Heard, receive_response, is_heard_by,
  resend_loop, wait_until, create_ack, Answer, returns, ended, Received, acknowledge, handle_kind,
  handle_msg, handed_on, after_wait, wait_for_answer, receive_in, receive, sent,
}
use ezk.Sip.ClientInvTsx.Resend.{in_time, resend_loop-in_time}
use ezk.Sip.ClientInvTsx.Expected.{
  Stage, told, expected, expected_heard, IsShorter, expected-heard, weaken,
  receive_response-IsShorter,
}

-- What a caller that goes on until no response comes gets, with `again` for the next calls.
abbrev pub continue_each :
    {N V E P : Type 0}
    → (ℕ → ClientInvTsx N V P → List (Arrival N V) → List ℕ)
    → Received N V E P
    → Answer N V E
    → List ℕ
continue_each again r (returns code headers) = code ∷ again r.now r.tsx r.rest
continue_each again r answer = []

unfoldable pub receive_each :
    {N V E P : Type 0}
    → Syntax N V E
    → (ℕ → Bool)
    → ℕ
    → ℕ
    → ClientInvTsx N V P
    → List (Arrival N V)
    → List ℕ
receive_each s accepts zero now tsx arrivals = []
receive_each s accepts (suc fuel) now tsx arrivals =
    let r = receive s accepts now tsx arrivals in
    continue_each (receive_each s accepts fuel) r r.answer

-- The states in which a response is waited for.
data Phase : Type 0 where
  first_wait later_wait success_seen : Phase

abbrev stage_of : Phase → Stage
stage_of first_wait = Stage.asking
stage_of later_wait = Stage.asking
stage_of success_seen = Stage.won

abbrev state_of : Phase → State
state_of first_wait = State.init
state_of later_wait = State.proceeding
state_of success_seen = State.accepted

module _ {N V E P : Type 0} (s : Syntax N V E) (accepts : ℕ → Bool)
    (all : (t : ℕ) → accepts t ≡ true) (req : OutgoingRequest N V P) (reliable : Bool) where
  abbrev pub can_ack_by : Result (HeaderError N E) (OutgoingRequest N V P) → Bool
  can_ack_by (ok ack) = true
  can_ack_by (err e) = false

  abbrev pub can_ack : List (Entry N V) → Bool
  can_ack headers = can_ack_by (create_ack s req headers)

  abbrev tsx_of : State → ℕ → ClientInvTsx N V P
  tsx_of state deadline = record {
    registered = true;
    request = req;
    reliable = reliable;
    timeout = deadline;
    state = state;
  }

  not_refused : (t : ℕ) → accepts t ≡ false → ⊥
  not_refused t refused = ground (arith, all t)

  abbrev collected : ℕ → Received N V E P → List ℕ
  collected fuel r = continue_each (receive_each s accepts fuel) r r.answer

  receive_each-unregistered :
      (fuel now deadline : ℕ) (state : State) (arrivals : List (Arrival N V))
      → receive_each s accepts fuel now
          (record {
            registered = false;
            request = req;
            reliable = reliable;
            timeout = deadline;
            state = state;
          })
          arrivals
        ≡ []
  unfolding receive_each receive
  receive_each-unregistered zero now deadline state arrivals = refl
  receive_each-unregistered (suc fuel) now deadline state arrivals = refl

  module _ (fuel : ℕ) (h : Heard N V)
      (ih : (phase : Phase) (deadline : ℕ)
        → receive_each s accepts fuel h.at (tsx_of (state_of phase) deadline) h.rest
          ≡ expected can_ack (stage_of phase) deadline h.at h.rest) where
    acknowledge-collected :
        (state : State) (deadline : ℕ) (resent : List ℕ)
        (r : Result (HeaderError N E) (OutgoingRequest N V P))
        → collected fuel (acknowledge s accepts (tsx_of state deadline) resent h r)
          ≡ (if can_ack_by r then h.code ∷ [] else [])
    acknowledge-collected state deadline resent (err e) = refl
    acknowledge-collected state deadline resent (ok ack) =
        if-elim (λ (x : Received N V E P). collected fuel x ≡ h.code ∷ []) (accepts h.at)
          (λ taken. ap (◌∷◌ h.code) (
            receive_each-unregistered fuel h.at deadline
              (if reliable then State.terminated else State.completed) h.rest))
          (λ refused. absurd (not_refused h.at refused))

    handle_kind-collected :
        (state : State) (deadline : ℕ) (resent : List ℕ) (k : CodeKind)
        → collected fuel (handle_kind s accepts (tsx_of state deadline) resent h k)
          ≡ told can_ack deadline h.at h.code h.headers
              (λ stage' deadline'. expected can_ack stage' deadline' h.at h.rest)
              Stage.asking
              k
    handle_kind-collected state deadline resent CodeKind.provisional =
        ap (◌∷◌ h.code) (ih later_wait (h.at + 120000))
    handle_kind-collected state deadline resent CodeKind.success =
        ap (◌∷◌ h.code) (ih success_seen (h.at + 32000))
    handle_kind-collected state deadline resent CodeKind.redirection =
        acknowledge-collected state deadline resent (create_ack s req h.headers)
    handle_kind-collected state deadline resent CodeKind.request_failure =
        acknowledge-collected state deadline resent (create_ack s req h.headers)
    handle_kind-collected state deadline resent CodeKind.server_failure =
        acknowledge-collected state deadline resent (create_ack s req h.headers)
    handle_kind-collected state deadline resent CodeKind.global_failure =
        acknowledge-collected state deadline resent (create_ack s req h.headers)
    handle_kind-collected state deadline resent CodeKind.custom =
        acknowledge-collected state deadline resent (create_ack s req h.headers)

  module _ (fuel : ℕ)
      (again : (phase : Phase) (deadline now : ℕ) (arrivals : List (Arrival N V))
        → length arrivals < fuel
        → receive_each s accepts fuel now (tsx_of (state_of phase) deadline) arrivals
          ≡ expected can_ack (stage_of phase) deadline now arrivals)
      (now deadline : ℕ) (arrivals : List (Arrival N V)) where
    wait_for_answer-collected :
        (state : State) (resent : List ℕ) (heard : Option (Heard N V))
        → IsShorter fuel heard
        → collected fuel (
            wait_for_answer s accepts
              (tsx_of state deadline)
              now
              arrivals
              heard
              (resent, in_time (is_heard_by deadline heard)))
          ≡ expected_heard can_ack Stage.asking deadline heard
    unfolding handle_msg
    wait_for_answer-collected state resent none shorter = refl
    wait_for_answer-collected state resent (some h) shorter = go (leb h.at deadline)
      where
        go :
            (b : Bool)
            → collected fuel (
                wait_for_answer s accepts
                  (tsx_of state deadline)
                  now
                  arrivals
                  (some h)
                  (resent, in_time b))
              ≡ (if b
                  then told can_ack deadline h.at h.code h.headers
                      (λ stage' deadline'. expected can_ack stage' deadline' h.at h.rest)
                      Stage.asking
                      (kind h.code)
                  else [])
        go true =
            handle_kind-collected fuel h (λ phase d. again phase d h.at h.rest shorter) state
              deadline resent (kind h.code)
        go false = refl

    accepted-collected :
        (heard : Option (Heard N V))
        → IsShorter fuel heard
        → collected fuel (
            receive_in s accepts now (tsx_of State.accepted deadline) arrivals heard State.accepted)
          ≡ expected_heard can_ack Stage.won deadline heard
    unfolding wait_until
    accepted-collected none shorter = refl
    accepted-collected (some h) shorter = go (leb h.at deadline)
      where
        go :
            (b : Bool)
            → collected fuel (
                after_wait s
                  (handed_on s (tsx_of State.accepted deadline) [])
                  ended
                  (if b then tsx_of State.accepted deadline else tsx_of State.terminated deadline)
                  now
                  arrivals
                  []
                  (some h)
                  (in_time b))
              ≡ (if b
                  then told can_ack deadline h.at h.code h.headers
                      (λ stage' deadline'. expected can_ack stage' deadline' h.at h.rest)
                      Stage.won
                      (kind h.code)
                  else [])
        go true = ap (◌∷◌ h.code) (again success_seen deadline h.at h.rest shorter)
        go false = refl

  in_time-init :
      (b : Bool) (now deadline : ℕ) (heard : Option (Heard N V))
      → (if b
          then wait_until deadline heard
          else resend_loop (suc (deadline - now)) accepts now 500 deadline heard).1
        ≡ in_time (is_heard_by deadline heard)
  unfolding wait_until
  in_time-init true now deadline heard = refl
  in_time-init false now deadline heard =
      resend_loop-in_time accepts all (suc (deadline - now)) now 500 deadline heard (omega arith)
        (omega arith) (omega arith)

  receive_each-phase :
      (fuel : ℕ) (phase : Phase) (deadline now : ℕ) (arrivals : List (Arrival N V))
      → length arrivals < fuel
      → receive_each s accepts fuel now (tsx_of (state_of phase) deadline) arrivals
        ≡ expected can_ack (stage_of phase) deadline now arrivals
  unfolding receive_each receive wait_until receive_response
  receive_each-phase zero phase deadline now arrivals short = ground arith
  receive_each-phase (suc fuel) first_wait deadline now arrivals short =
      let heard = receive_response now arrivals in
      let w =
        if reliable
        then wait_until deadline heard
        else resend_loop (suc (deadline - now)) accepts now 500 deadline heard in
      let shorter =
        weaken (length arrivals) fuel heard (omega arith)
          (receive_response-IsShorter now arrivals) in
      ap
        (λ ending.
          collected fuel (
            wait_for_answer s accepts (tsx_of State.init deadline) now arrivals heard
              (w.0, ending)))
        (in_time-init reliable now deadline heard)
      ∙ wait_for_answer-collected fuel (receive_each-phase fuel) now deadline arrivals State.init
          w.0 heard shorter
      ∙ sym (expected-heard can_ack Stage.asking deadline now arrivals)
  receive_each-phase (suc fuel) later_wait deadline now arrivals short =
      let heard = receive_response now arrivals in
      wait_for_answer-collected fuel (receive_each-phase fuel) now deadline arrivals
        State.proceeding [] heard
        (weaken (length arrivals) fuel heard (omega arith)
          (receive_response-IsShorter now arrivals))
      ∙ sym (expected-heard can_ack Stage.asking deadline now arrivals)
  receive_each-phase (suc fuel) success_seen deadline now arrivals short =
      let heard = receive_response now arrivals in
      accepted-collected fuel (receive_each-phase fuel) now deadline arrivals heard (
        weaken (length arrivals) fuel heard (omega arith) (receive_response-IsShorter now arrivals))
      ∙ sym (expected-heard can_ack Stage.won deadline now arrivals)

  -- The caller of a transaction that was sent over a transport that takes all requests gets the
  -- responses that are expected, and then none: every provisional one that comes in time, and then
  -- either the first failure, whose ACK can be made, as the last, or the first success and all that
  -- follows it in 32 seconds.
  pub receive_each-expected :
      (now : ℕ) (arrivals : List (Arrival N V))
      → receive_each s accepts (suc (length arrivals)) now (sent reliable now req) arrivals
        ≡ expected can_ack Stage.asking (now + 32000) now arrivals
  unfolding sent
  receive_each-expected now arrivals =
      receive_each-phase (suc (length arrivals)) first_wait (now + 32000) now arrivals (omega arith)
