-- ===== src/Tests/Invites.antt =====
-- INVITE client transactions on concrete responses. A header name is a number, and so is a value.
use ezk.Common.{ℕ, ◌≡◌, refl, List, [], ◌∷◌, true, false, ◌==◌}
use ezk.Common.Result.{ok}
use ezk.Sip.Method.{Method}
use ezk.Sip.StatusCode.{kind}
use ezk.Sip.Headers.{Entry, one, contains, get}
use ezk.Sip.ClientInvTsx.{
  Syntax, OutgoingRequest, Arrival, response, receive_response, receive, sent, create_ack,
}
use ezk.Sip.ClientInvTsx.Resend.{before, schedule, receive-resends}
use ezk.Sip.ClientInvTsx.Expected.{Stage, expected}
use ezk.Sip.ClientInvTsx.Run.{receive_each, can_ack, receive_each-expected}
use ezk.Sip.ClientInvTsx.Ack.{IsAckOf, create_ack-IsAckOf}

-- Via is 0, From 1, To 2, Call-ID 3, Max-Forwards 4 and CSeq 5.
abbrev syntax : Syntax ℕ ℕ (Unit {0})
syntax = record {
  same = ◌==◌;
  via = 0;
  from = 1;
  to = 2;
  call_id = 3;
  max_forwards = 4;
  cseq = 5;
  decode_cseq = λ values. ok (record { cseq = 9; method = Method.invite });
  print_cseq = λ h. h.cseq;
  decode_max_forwards = λ values. ok 70;
  print_max_forwards = λ n. n;
}

abbrev header : ℕ → ℕ → Entry ℕ ℕ
header name value = record { name = name; values = one value }

-- With a Route header, 6.
abbrev invite : OutgoingRequest ℕ ℕ ℕ
invite = record {
  method = Method.invite;
  parts = 7;
  headers = header 0 10 ∷ header 1 11 ∷ header 2 12 ∷ header 3 13 ∷ header 5 9 ∷ header 6 16 ∷ [];
}

abbrev answer_headers : List (Entry ℕ ℕ)
answer_headers = header 2 22 ∷ []

abbrev arrival : ℕ → ℕ → Arrival ℕ ℕ
arrival at code = record { at = at; message = response code answer_headers }

-- Ringing after two seconds, a success, and another one of a fork.
abbrev arrivals : List (Arrival ℕ ℕ)
arrivals = arrival 2000 180 ∷ arrival 9000 200 ∷ arrival 12000 200 ∷ []

receive_each-expected_example :
    receive_each syntax (λ t. true) 4 0 (sent false 0 invite) arrivals
    ≡ expected (can_ack syntax (λ t. true) (λ t. refl) invite false) Stage.asking 32000 0 arrivals
receive_each-expected_example =
    receive_each-expected syntax (λ t. true) (λ t. refl) invite false 0 arrivals

-- All three responses are expected.
expected-arrivals :
    expected (can_ack syntax (λ t. true) (λ t. refl) invite false) Stage.asking 32000 0 arrivals
    ≡ 180 ∷ 200 ∷ 200 ∷ []
unfolding expected kind
expected-arrivals = refl

receive-resends_example :
    (receive syntax (λ t. true) 0 (sent false 0 invite) arrivals).resent
    ≡ before (receive_response 0 arrivals) (schedule 6 0 500)
receive-resends_example = receive-resends syntax (λ t. true) (λ t. refl) 0 invite arrivals

before-arrivals : before (receive_response 0 arrivals) (schedule 6 0 500) ≡ 500 ∷ 1500 ∷ []
unfolding before receive_response
before-arrivals = refl

create_ack-IsAckOf_example :
    (ack : OutgoingRequest ℕ ℕ ℕ) × (create_ack syntax invite answer_headers ≡ ok ack)
    × IsAckOf syntax invite answer_headers (record { cseq = 9; method = Method.invite }) ack
unfolding contains get
create_ack-IsAckOf_example =
    create_ack-IsAckOf syntax invite answer_headers (record { cseq = 9; method = Method.invite })
      (refl, (refl, (refl, (refl, (refl, (refl, tt))))))
      (
        ((refl, refl), ((refl, refl), ((refl, refl), ((refl, refl), ((refl, refl), tt))))),
        (
          ((refl, refl), ((refl, refl), ((refl, refl), ((refl, refl), tt)))),
          (
            ((refl, refl), ((refl, refl), ((refl, refl), tt))),
            (((refl, refl), ((refl, refl), tt)), (((refl, refl), tt), (tt, tt))),
          ),
        ),
      )
      refl refl refl refl refl
