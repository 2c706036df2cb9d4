-- ===== src/Sip/ClientTsx.antt =====
-- sip/sip-core/src/transaction/client.rs, with `receive_response` of transaction/registration.rs:
-- the non-INVITE client transaction. What happens while it waits is a list of events, first to
-- last: a message that its registration gets, the timer T2, which is restarted by every send, with
-- whether the transport accepts the request that is sent again, and the end of the 64 T1.
pub mod Final
use ezk.Common.{ℕ, suc, ◌+◌, List, [], ◌∷◌, Bool, true, false, length, if◌then◌else◌}
use ezk.Sip.Method.{Method}
use ezk.Sip.StatusCode.{CodeKind, kind}
use ezk.Sip.TsxKey.{MessageLine, request, response}

pub data Event : Type 0 where
  message : MessageLine → Event
  retransmit_due : Bool → Event
  deadline : Event

pub data State : Type 0 where
  init proceeding completed terminated : State

pub record ClientTsx : Type 0 where
  pub registered : Bool
  pub reliable : Bool
  pub state : State

-- What a call of `receive` comes to: a response, with the requests that were sent again before it
-- and the events that are left, an error, a panic, or no end yet.
pub data Outcome : Type 0 where
  returns : ℕ → ClientTsx → ℕ → List Event → Outcome
  timed_out send_failed pending : ℕ → Outcome
  panics : Outcome

abbrev pub is_provisional : CodeKind → Bool
is_provisional CodeKind.provisional = true
is_provisional k = false

-- `create`: the state in which `send` leaves the transaction.
abbrev pub sent : Bool → ClientTsx
sent reliable = record { registered = true; reliable = reliable; state = State.init }

-- The methods that `send` refuses by its assertion.
unfoldable pub may_send : Method → Bool
may_send Method.invite = false
may_send Method.ack = false
may_send method = true

unfoldable pub handle_msg : ClientTsx → ℕ → ClientTsx
unfolding kind
handle_msg tsx code =
    if is_provisional (kind code) then record tsx { state = State.proceeding } else record tsx {
      registered = false;
      state = if tsx.reliable then State.terminated else State.completed;
    }

-- `resends` says whether the timer T2 runs. A request that comes in is passed over.
unfoldable pub wait : Bool → ClientTsx → ℕ → List Event → Outcome
unfolding handle_msg
wait resends tsx count [] = pending count
wait resends tsx count (message (request method) ∷ events) = wait resends tsx count events
wait resends tsx count (message (response code) ∷ events) =
    returns code (handle_msg tsx code) count events
wait true tsx count (retransmit_due true ∷ events) = wait true tsx (suc count) events
wait true tsx count (retransmit_due false ∷ events) = send_failed count
wait false tsx count (retransmit_due accepted ∷ events) = wait false tsx count events
wait resends tsx count (deadline ∷ events) = timed_out count

abbrev pub receive_in : State → ClientTsx → List Event → Outcome
unfolding wait
receive_in State.init tsx events =
    if tsx.reliable then wait false tsx 0 events else wait true tsx 0 events
receive_in State.proceeding tsx events = wait false tsx 0 events
receive_in State.completed tsx events = panics
receive_in State.terminated tsx events = panics

unfoldable pub receive : ClientTsx → List Event → Outcome
unfolding wait
receive tsx events = if tsx.registered then receive_in tsx.state tsx events else panics

-- The loop of `receive_final`; every call of `receive` that returns a response takes an event, so
-- the number of events and one is enough fuel. The counts of the calls are added up.
abbrev pub continue_final : (ClientTsx → ℕ → List Event → Outcome) → ℕ → Outcome → Outcome
unfolding kind
continue_final again count (returns code tsx more rest) =
    let next = again tsx (count + more) rest in
    if is_provisional (kind code) then next else returns code tsx (count + more) rest
continue_final again count (timed_out more) = timed_out (count + more)
continue_final again count (send_failed more) = send_failed (count + more)
continue_final again count (pending more) = pending (count + more)
continue_final again count panics = panics

unfoldable pub receive_final_loop : ℕ → ClientTsx → ℕ → List Event → Outcome
unfolding receive kind
receive_final_loop ℕ.zero tsx count events = pending count
receive_final_loop (suc fuel) tsx count events =
    continue_final (receive_final_loop fuel) count (receive tsx events)

unfoldable pub receive_final : ClientTsx → List Event → Outcome
unfolding receive_final_loop
receive_final tsx events = receive_final_loop (suc (length events)) tsx 0 events
