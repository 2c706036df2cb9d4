-- ===== src/Tests/Calls.antt =====
-- Dialogs and transactions on concrete messages.
use ezk.Common.{ℕ, ◌+◌, ◌≡◌, refl, List, [], ◌∷◌, ◌++◌, none, some, true, false, not, arith, ◌==◌}
use ezk.Common.Maps.{lookup}
use ezk.Sip.Method.{Method}
use ezk.Sip.TsxKey.{MessageLine, request, response}
use ezk.Sip.Dialog.{IncomingRequest, DialogEntry, receive_entry, new}
use ezk.Sip.Dialog.Order.{IsAhead, receive_entry-IsAhead}
use ezk.Sip.Dialog.Runs.{receive_each, nothing, receive_each-swapped}
use ezk.Sip.ClientTsx.{
  is_provisional, Event, message, retransmit_due, deadline, sent, receive_final,
}
use ezk.Sip.ClientTsx.Final.{verdict, final, first_final, receive_final-first_final}
use ezk.Sip.ServerInvTsx
use ezk.Sip.StatusCode.{kind}
use ezk.Sip.ServerInvTsx.{
  is_failure_kind, respond_failure, timer, timed_out, acknowledged, timers, t1,
}
use ezk.Sip.ServerInvTsx.Failure.{resent, respond_failure-ends}

abbrev numbered : ℕ → IncomingRequest ℕ
numbered n = record {
  method = Method.info;
  base_headers = record {
    via = record { sent_by = 5060; params = [] };
    more_via = [];
    from_tag = some "a";
    to_tag = some "b";
    call_id = "c";
    cseq = record { cseq = n; method = Method.info };
  };
  body = "";
}

-- The request 8 came before the request 7.
abbrev waiting_entry : DialogEntry ℕ
waiting_entry = record { backlog = (8, numbered 8) ∷ []; next_peer_cseq = some 7; usages = [] }

receive_entry-IsAhead_example : IsAhead (receive_entry waiting_entry (numbered 7)).0
receive_entry-IsAhead_example =
    receive_entry-IsAhead waiting_entry (numbered 7) ((refl, tt), (omega arith, tt))

receive_each-swapped_example :
    ((receive_each (new (some 6)) (numbered 8 ∷ numbered 7 ∷ numbered 9 ∷ [])).1
      ≡ none ∷ some (numbered 7 ∷ []) ∷ nothing (numbered 9 ∷ []))
    × (lookup ◌==◌
          (6 + 2)
          (receive_each (new (some 6)) (numbered 8 ∷ numbered 7 ∷ numbered 9 ∷ [])).0.backlog
        ≡ some (numbered 8))
receive_each-swapped_example =
    receive_each-swapped 6 (numbered 8) (numbered 7) (numbered 9 ∷ []) (omega arith) refl refl
      (omega arith, tt)

abbrev idle_entry : DialogEntry ℕ
idle_entry = record { backlog = []; next_peer_cseq = some 7; usages = [] }

abbrev exchange : List Event
exchange = retransmit_due true ∷ message (response 100) ∷ message (response 404) ∷ deadline ∷ []

exchange_ends : verdict (receive_final (sent false) exchange) ≡ final 404
unfolding receive_final
exchange_ends = refl

receive_final-first_final_example :
    verdict (receive_final (sent false) exchange) ≡ first_final (not false) exchange
receive_final-first_final_example = receive_final-first_final false exchange

abbrev impatience : List ServerInvTsx.Event
impatience =
    timer 1500 true ∷ ServerInvTsx.message (request Method.invite) true ∷ timer 2500 true ∷ []

busy-IsFailure : is_failure_kind (kind 486) ≡ true
unfolding kind
busy-IsFailure = refl

respond_failure-ends_example :
    (respond_failure 486 true 1000
        (impatience ++ (ServerInvTsx.message (request Method.ack) true ∷ []))
      ≡ acknowledged (resent impatience))
    × ((respond_failure 486 true 1000 (impatience ++ (timer 33001 true ∷ []))
          ≡ timed_out (resent impatience))
        × ((respond_failure 486 true 1000
                (impatience ++ (ServerInvTsx.message (request Method.invite) false ∷ []))
              ≡ ServerInvTsx.send_failed (resent impatience))
            × ((respond_failure 486 true 1000 (impatience ++ (timer 4500 false ∷ []))
                  ≡ ServerInvTsx.send_failed (resent impatience))
                × ((respond_failure 486 true 1000 (impatience ++ [])
                      ≡ ServerInvTsx.waits (resent impatience))
                    × (respond_failure 486 false 1000 impatience ≡ ServerInvTsx.send_failed 0)))))
respond_failure-ends_example =
    respond_failure-ends 486 1000 33001 4500 true impatience [] busy-IsFailure
      (omega arith, (refl, (refl, (omega arith, (refl, tt))))) (omega arith) (omega arith)

success_is_final : is_provisional (kind 200) ≡ false
unfolding kind
success_is_final = refl

-- A BYE that comes twice before the 64 T1 are over, and once after them.
abbrev byes : List MessageLine
byes = request Method.bye ∷ response 200 ∷ request Method.bye ∷ []
