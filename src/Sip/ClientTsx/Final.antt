-- ===== src/Sip/ClientTsx/Final.antt =====
-- The final response of a client transaction of sip/sip-core/src/transaction/client.rs.
use ezk.Common.{
  ℕ, suc, ◌+◌, ◌≤◌, ◌≡◌, refl, List, [], ◌∷◌, Bool, true, false, not, length, arith, if-map, ap,
  ◌∙◌, if◌then◌else◌,
}
use ezk.Sip.StatusCode.{kind}
use ezk.Sip.TsxKey.{request, response}
use ezk.Sip.ClientTsx.{
  Event, message, retransmit_due, deadline, ClientTsx, State, Outcome, returns, timed_out,
  send_failed, pending, panics, is_provisional, sent, handle_msg, wait, receive, receive_in,
  continue_final, receive_final_loop, receive_final,
}

-- How the exchange ends, without the states of the transaction.
pub data Verdict : Type 0 where
  final : ℕ → Verdict
  late failed undecided panicked : Verdict

abbrev pub verdict : Outcome → Verdict
verdict (returns code tsx count events) = final code
verdict (timed_out count) = Verdict.late
verdict (send_failed count) = Verdict.failed
verdict (pending count) = Verdict.undecided
verdict panics = Verdict.panicked

-- The first final response before the deadline, or what comes before it; a failure to send counts
-- as long as the request is sent again, which ends with the first provisional response.
unfoldable pub first_final : Bool → List Event → Verdict
first_final resends [] = Verdict.undecided
first_final resends (message (request method) ∷ events) = first_final resends events
first_final resends (message (response code) ∷ events) =
    let later = first_final false events in if is_provisional (kind code) then later else final code
first_final resends (retransmit_due accepted ∷ events) =
    let later = first_final resends events in
    if accepted then later else (if resends then Verdict.failed else later)
first_final resends (deadline ∷ events) = Verdict.late

handle_msg-registered :
    (tsx : ClientTsx) (code : ℕ)
    → is_provisional (kind code) ≡ true
    → (handle_msg tsx code).registered ≡ tsx.registered
unfolding handle_msg
handle_msg-registered tsx code p = rw (p, handle_msg) refl

handle_msg-state :
    (tsx : ClientTsx) (code : ℕ)
    → is_provisional (kind code) ≡ true
    → (handle_msg tsx code).state ≡ State.proceeding
unfolding handle_msg
handle_msg-state tsx code p = rw (p, handle_msg) refl

receive-proceeding :
    (tsx : ClientTsx) (events : List Event)
    → tsx.registered ≡ true
    → tsx.state ≡ State.proceeding
    → receive tsx events ≡ wait false tsx 0 events
unfolding receive
receive-proceeding tsx events r s =
    ap (λ b. if b then receive_in tsx.state tsx events else panics) r
    ∙ ap (λ state. receive_in state tsx events) s

-- Behind a provisional response nothing is sent again.
receive-provisional :
    (tsx : ClientTsx) (code : ℕ) (events : List Event)
    → is_provisional (kind code) ≡ true
    → tsx.registered ≡ true
    → receive (handle_msg tsx code) events ≡ wait false (handle_msg tsx code) 0 events
receive-provisional tsx code events p r =
    receive-proceeding (handle_msg tsx code) events (handle_msg-registered tsx code p ∙ r)
      (handle_msg-state tsx code p)

wait-first_final :
    (fuel : ℕ) (resends : Bool) (tsx : ClientTsx) (count more : ℕ) (events : List Event)
    → length events ≤ fuel
    → tsx.registered ≡ true
    → verdict (continue_final (receive_final_loop fuel) count (wait resends tsx more events))
      ≡ first_final resends events
unfolding wait first_final receive_final_loop
wait-first_final fuel resends tsx count more [] le r = refl
wait-first_final fuel resends tsx count more (message (request method) ∷ events) le r =
    wait-first_final fuel resends tsx count more events (omega arith) r
wait-first_final ℕ.zero resends tsx count more (message (response code) ∷ events) le r =
    ground arith
wait-first_final (suc fuel) resends tsx count more (message (response code) ∷ events) le r =
    if-map verdict (is_provisional (kind code))
      (λ p.
        ap (λ o. verdict (continue_final (receive_final_loop fuel) (count + more) o))
          (receive-provisional tsx code events p r)
        ∙ wait-first_final fuel false (handle_msg tsx code) (count + more) 0 events (omega arith)
            (handle_msg-registered tsx code p ∙ r))
      (λ p. refl)
wait-first_final fuel true tsx count more (retransmit_due true ∷ events) le r =
    wait-first_final fuel true tsx count (suc more) events (omega arith) r
wait-first_final fuel true tsx count more (retransmit_due false ∷ events) le r = refl
wait-first_final fuel false tsx count more (retransmit_due true ∷ events) le r =
    wait-first_final fuel false tsx count more events (omega arith) r
wait-first_final fuel false tsx count more (retransmit_due false ∷ events) le r =
    wait-first_final fuel false tsx count more events (omega arith) r
wait-first_final fuel resends tsx count more (deadline ∷ events) le r = refl

-- `receive_final` on a transaction that was just sent, by what happens, in whatever order: it ends
-- with the first final response, passes over the provisional ones and everything else, and never
-- panics; but if the deadline comes first, it ends with the time-out, and if the transport refuses
-- to send the request again before any response has come, with that error; and as long as none of
-- these comes, it waits.
pub receive_final-first_final :
    (reliable : Bool) (events : List Event)
    → verdict (receive_final (sent reliable) events) ≡ first_final (not reliable) events
unfolding receive_final receive_final_loop receive
receive_final-first_final true events =
    wait-first_final (length events) false (sent true) 0 0 events (omega arith) refl
receive_final-first_final false events =
    wait-first_final (length events) true (sent false) 0 0 events (omega arith) refl
