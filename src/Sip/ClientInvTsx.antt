-- ===== src/Sip/ClientInvTsx.antt =====
-- sip/sip-core/src/transaction/client_inv.rs, with `receive_response` of
-- transaction/registration.rs: the INVITE client transaction. Times are in milliseconds. What its
-- registration gets is a list of arrivals, first to last; `accepts` says whether the transport
-- takes a request that is sent at a time.
pub mod Expected
pub mod Run
pub mod Resend
pub mod Ack
use ezk.Common.{
  ℕ, zero, suc, ◌+◌, ◌-◌, ◌*◌, List, [], ◌∷◌, Option, none, some, Bool, true, false, leb, min, max,
  if◌then◌else◌,
}
use ezk.Common.Result.{Result, ok, err, ◌>>=◌}
use ezk.Sip.Method.{Method}
use ezk.Sip.StatusCode.{CodeKind, kind}
use ezk.Sip.TsxKey.{CSeq}
use ezk.Sip.Headers.{Entry, one, HeaderType, HeaderError, clone_into, insert_type, get}

-- The names that an ACK uses, and the texts of the two headers that are printed into it; `E` is
-- the error of the parser of CSeq.
pub record Syntax (N V E : Type 0) : Type 0 where
  pub same : N → N → Bool
  pub via : N
  pub from : N
  pub to : N
  pub call_id : N
  pub max_forwards : N
  pub cseq : N
  pub decode_cseq : List V → Result E CSeq
  pub print_cseq : CSeq → V
  pub decode_max_forwards : List V → Result E ℕ
  pub print_max_forwards : ℕ → V

-- A request that is sent; `P` is its URI, transport and destination.
pub record OutgoingRequest (N V P : Type 0) : Type 0 where
  pub method : Method
  pub parts : P
  pub headers : List (Entry N V)

-- A message that the registration gets: a request, or a response with its code and headers.
pub data TsxMessage (N V : Type 0) : Type 0 where
  request : Method → TsxMessage N V
  response : ℕ → List (Entry N V) → TsxMessage N V

pub record Arrival (N V : Type 0) : Type 0 where
  pub at : ℕ
  pub message : TsxMessage N V

pub data State : Type 0 where
  init proceeding accepted completed terminated : State

pub record ClientInvTsx (N V P : Type 0) : Type 0 where
  pub registered : Bool
  pub request : OutgoingRequest N V P
  pub reliable : Bool
  pub timeout : ℕ
  pub state : State

abbrev pub t1 : ℕ
t1 = 500

-- The next response, with the time at which a wait from `now` on gets it; requests are passed over.
pub record Heard (N V : Type 0) : Type 0 where
  pub at : ℕ
  pub code : ℕ
  pub headers : List (Entry N V)
  pub rest : List (Arrival N V)

abbrev pub heard_at :
    {N V : Type 0}
    → ℕ
    → List (Arrival N V)
    → Option (Heard N V)
    → TsxMessage N V
    → Option (Heard N V)
heard_at at rest later (request method) = later
heard_at at rest later (response code headers) =
    some (record { at = at; code = code; headers = headers; rest = rest })

unfoldable pub receive_response : {N V : Type 0} → ℕ → List (Arrival N V) → Option (Heard N V)
receive_response now [] = none
receive_response now (a ∷ arrivals) =
    heard_at (max now a.at) arrivals (receive_response now arrivals) a.message

abbrev pub is_heard_by : {N V : Type 0} → ℕ → Option (Heard N V) → Bool
is_heard_by limit none = false
is_heard_by limit (some h) = leb h.at limit

-- How a wait ends.
pub data Ending : Type 0 where
  answered elapsed : Ending
  send_failed : ℕ → Ending

-- The loop of `receive`, whose next wait lasts `n`: when the request is sent again, and how it
-- ends. A message comes before a timer of the same time, and the wait before the deadline. Each
-- round takes a millisecond at least, so the time up to the deadline is enough fuel.
unfoldable pub resend_loop :
    {N V : Type 0} → ℕ → (ℕ → Bool) → ℕ → ℕ → ℕ → Option (Heard N V) → List ℕ × Ending
resend_loop zero accepts start n deadline heard = ([], elapsed)
resend_loop (suc fuel) accepts start n deadline heard =
    let later = resend_loop fuel accepts (start + n) (n * 2) deadline heard in
    if is_heard_by (min (start + n) deadline) heard
    then ([], answered)
    else if leb (start + n) deadline
    then (if accepts (start + n)
        then ((start + n) ∷ later.0, later.1)
        else ([], send_failed (start + n)))
    else ([], elapsed)

unfoldable pub wait_until : {N V : Type 0} → ℕ → Option (Heard N V) → List ℕ × Ending
wait_until deadline heard = ([], (if is_heard_by deadline heard then answered else elapsed))

-- What a call of `receive` answers.
pub data Answer (N V E : Type 0) : Type 0 where
  returns : ℕ → List (Entry N V) → Answer N V E
  ended request_timed_out io_error : Answer N V E
  header_error : HeaderError N E → Answer N V E

-- A call of `receive`: its answer, the transaction after it, when the request was sent again, the
-- ACK that was sent, when it ended, and what is left of the arrivals, in which requests that were
-- passed over may stand.
pub record Received (N V E P : Type 0) : Type 0 where
  pub answer : Answer N V E
  pub tsx : ClientInvTsx N V P
  pub resent : List ℕ
  pub ack : Option (OutgoingRequest N V P)
  pub now : ℕ
  pub rest : List (Arrival N V)

module _ {N V E : Type 0} (s : Syntax N V E) where
  -- `ExtendValues for CSeq`, which replaces the values, and MaxForwards of header/typed/max_fwd.rs.
  abbrev pub cseq_type : HeaderType V E CSeq
  cseq_type = record {
    decode = s.decode_cseq;
    extend_values = λ h values. one (s.print_cseq h);
    create_values = λ h. one (s.print_cseq h);
  }

  abbrev pub max_forwards_type : HeaderType V E ℕ
  max_forwards_type = record {
    decode = s.decode_max_forwards;
    extend_values = λ h values. one (s.print_max_forwards h);
    create_values = λ h. one (s.print_max_forwards h);
  }

module _ {N V E P : Type 0} (s : Syntax N V E) where
  unfoldable pub create_ack :
      OutgoingRequest N V P → List (Entry N V) → Result (HeaderError N E) (OutgoingRequest N V P)
  unfolding clone_into insert_type get
  create_ack req response_headers = do
    h1 ← clone_into s.same req.headers [] s.via
    h2 ← clone_into s.same req.headers h1 s.from
    h3 ← clone_into s.same response_headers h2 s.to
    h4 ← clone_into s.same req.headers h3 s.call_id
    cseq ← get s.same (cseq_type s) req.headers s.cseq
    ok (record {
      method = Method.ack;
      parts = req.parts;
      headers =
          insert_type s.same (cseq_type s) s.cseq (record { cseq = cseq.cseq; method = Method.ack })
            (insert_type s.same (max_forwards_type s) s.max_forwards 70 h4);
    })

  -- What `handle_msg` does with a failure: the registration is taken, and dropped with an error.
  abbrev pub acknowledge :
      (ℕ → Bool)
      → ClientInvTsx N V P
      → List ℕ
      → Heard N V
      → Result (HeaderError N E) (OutgoingRequest N V P)
      → Received N V E P
  acknowledge accepts tsx resent h (err e) = record {
    answer = header_error e;
    tsx = record tsx { registered = false };
    resent = resent;
    ack = none;
    now = h.at;
    rest = h.rest;
  }
  acknowledge accepts tsx resent h (ok ack) =
      if accepts h.at
      then record {
        answer = returns h.code h.headers;
        tsx = record tsx {
          registered = false;
          state = if tsx.reliable then State.terminated else State.completed;
        };
        resent = resent;
        ack = some ack;
        now = h.at;
        rest = h.rest;
      }
      else record {
        answer = io_error;
        tsx = record tsx { registered = false };
        resent = resent;
        ack = none;
        now = h.at;
        rest = h.rest;
      }

  abbrev pub handed_on : ClientInvTsx N V P → List ℕ → Heard N V → Received N V E P
  handed_on tsx resent h = record {
    answer = returns h.code h.headers;
    tsx = tsx;
    resent = resent;
    ack = none;
    now = h.at;
    rest = h.rest;
  }

  abbrev pub handle_kind :
      (ℕ → Bool) → ClientInvTsx N V P → List ℕ → Heard N V → CodeKind → Received N V E P
  handle_kind accepts tsx resent h CodeKind.provisional =
      handed_on (record tsx { timeout = h.at + t1 * 240; state = State.proceeding }) resent h
  handle_kind accepts tsx resent h CodeKind.success =
      handed_on (record tsx { timeout = h.at + t1 * 64; state = State.accepted }) resent h
  handle_kind accepts tsx resent h k =
      acknowledge accepts tsx resent h (create_ack tsx.request h.headers)

  unfoldable pub handle_msg :
      (ℕ → Bool) → ClientInvTsx N V P → List ℕ → Heard N V → Received N V E P
  handle_msg accepts tsx resent h = handle_kind accepts tsx resent h (kind h.code)

  -- The end of a call without a response.
  abbrev pub stopped :
      ClientInvTsx N V P → List ℕ → ℕ → List (Arrival N V) → Answer N V E → Received N V E P
  stopped tsx resent now rest answer = record {
    answer = answer;
    tsx = tsx;
    resent = resent;
    ack = none;
    now = now;
    rest = rest;
  }

  -- What follows a wait; `rest` is what is left when no response was heard in time.
  abbrev pub after_wait :
      (Heard N V → Received N V E P)
      → Answer N V E
      → ClientInvTsx N V P
      → ℕ
      → List (Arrival N V)
      → List ℕ
      → Option (Heard N V)
      → Ending
      → Received N V E P
  after_wait handle late tsx now rest resent (some h) answered = handle h
  after_wait handle late tsx now rest resent none answered = stopped tsx resent now rest late
  after_wait handle late tsx now rest resent heard elapsed =
      stopped tsx resent (max now tsx.timeout) rest late
  after_wait handle late tsx now rest resent heard (send_failed at) =
      stopped tsx resent at rest io_error

  abbrev pub wait_for_answer :
      (ℕ → Bool)
      → ClientInvTsx N V P
      → ℕ
      → List (Arrival N V)
      → Option (Heard N V)
      → List ℕ × Ending
      → Received N V E P
  wait_for_answer accepts tsx now arrivals heard (resent, ending) =
      after_wait (handle_msg accepts tsx resent) request_timed_out tsx now arrivals resent heard
        ending

  -- A call of `receive` at `now`, by the state.
  abbrev pub receive_in :
      (ℕ → Bool)
      → ℕ
      → ClientInvTsx N V P
      → List (Arrival N V)
      → Option (Heard N V)
      → State
      → Received N V E P
  receive_in accepts now tsx arrivals heard State.init =
      wait_for_answer accepts tsx now arrivals heard (
        if tsx.reliable
        then wait_until tsx.timeout heard
        else resend_loop (suc (tsx.timeout - now)) accepts now t1 tsx.timeout heard)
  receive_in accepts now tsx arrivals heard State.proceeding =
      wait_for_answer accepts tsx now arrivals heard (wait_until tsx.timeout heard)
  receive_in accepts now tsx arrivals heard State.accepted =
      after_wait (handed_on tsx []) ended
        (if is_heard_by tsx.timeout heard then tsx else record tsx { state = State.terminated }) now
        arrivals [] heard (wait_until tsx.timeout heard).1
  receive_in accepts now tsx arrivals heard State.completed = stopped tsx [] now arrivals ended
  receive_in accepts now tsx arrivals heard State.terminated = stopped tsx [] now arrivals ended

  unfoldable pub receive :
      (ℕ → Bool) → ℕ → ClientInvTsx N V P → List (Arrival N V) → Received N V E P
  receive accepts now tsx arrivals =
      if tsx.registered
      then receive_in accepts now tsx arrivals (receive_response now arrivals) tsx.state
      else stopped tsx [] now arrivals ended

-- What `send` leaves at `now`.
unfoldable pub sent : {N V P : Type 0} → Bool → ℕ → OutgoingRequest N V P → ClientInvTsx N V P
sent reliable now req = record {
  registered = true;
  request = req;
  reliable = reliable;
  timeout = now + t1 * 64;
  state = State.init;
}

-- The task that answers what still comes after a failure with the ACK: when it is sent.
unfoldable pub ack_again : {N V : Type 0} → ℕ → List (Arrival N V) → List ℕ
ack_again deadline [] = []
ack_again deadline (a ∷ arrivals) =
    let more = ack_again deadline arrivals in if leb a.at deadline then a.at ∷ more else []
