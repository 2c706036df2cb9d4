-- ===== src/Sip/ServerTsx.antt =====
-- sip/sip-core/src/transaction/server.rs: the non-INVITE server transaction. What happens after
-- the final response is a list of events, first to last: a message that the registration gets, or
-- the end of the 64 T1.
pub mod Repeated
use ezk.Common.{ℕ, suc, List, [], ◌∷◌, Bool, true, false, if◌then◌else◌}
use ezk.Sip.Method.{Method}
use ezk.Sip.StatusCode.{kind}
use ezk.Sip.TsxKey.{MessageLine, request, response}
use ezk.Sip.ClientTsx.{is_provisional}

pub data Event : Type 0 where
  message : MessageLine → Event
  abandon : Event

-- How a call ends: the response is sent and was sent again so often, with the transaction gone or
-- still there, the transport refused it at first, or an assertion failed.
pub data Responded : Type 0 where
  stopped waits : ℕ → Responded
  send_failed panics : Responded

-- The methods that `new` refuses by its assertion.
unfoldable pub may_respond : Method → Bool
may_respond Method.invite = false
may_respond Method.ack = false
may_respond method = true

-- The last arguments of both calls say whether the transport accepts the response. It is sent
-- once, and the transaction stays.
unfoldable pub respond_provisional : ℕ → Bool → Responded
unfolding kind
respond_provisional code accepts =
    if is_provisional (kind code) then (if accepts then waits 0 else send_failed) else panics

-- The task behind the final response: a response that fails to be sent again is only logged.
unfoldable pub answer_again : ℕ → List Event → Responded
answer_again sent [] = waits sent
answer_again sent (message (request method) ∷ events) = answer_again (suc sent) events
answer_again sent (message (response code) ∷ events) = answer_again sent events
answer_again sent (abandon ∷ events) = stopped sent

unfoldable pub respond : Bool → ℕ → Bool → List Event → Responded
unfolding kind answer_again
respond reliable code accepts events =
    if is_provisional (kind code)
    then panics
    else if accepts
    then (if reliable then stopped 0 else answer_again 0 events)
    else send_failed
