-- ===== src/Sip/ServerInvTsx.antt =====
-- sip/sip-core/src/transaction/server_inv.rs: the INVITE server transaction. Times are in
-- milliseconds; what happens while a failure waits for its ACK is a list of events, first to last.
pub mod Failure
use ezk.Common.{ℕ, suc, ◌+◌, ◌*◌, min, List, [], ◌∷◌, Bool, true, false, ltb, if◌then◌else◌}
use ezk.Sip.Method.{Method}
use ezk.Sip.StatusCode.{CodeKind, kind}
use ezk.Sip.TsxKey.{MessageLine, request}

-- transaction/mod.rs: the timers.
abbrev pub t1 : ℕ
t1 = 500

abbrev pub t2 : ℕ
t2 = 4000

abbrev pub t4 : ℕ
t4 = 5000

-- A message that the registration gets, or the timer of the next retransmission, at which the
-- clock shows the time; and whether the transport accepts the response, if it is sent again then.
pub data Event : Type 0 where
  message : MessageLine → Bool → Event
  timer : ℕ → Bool → Event

-- How `respond_failure` ends, with how often the response was sent again; `send_failed` is the error
-- of the transport.
pub data Responded : Type 0 where
  acknowledged timed_out send_failed waits : ℕ → Responded
  panics : Responded

abbrev pub is_failure_kind : CodeKind → Bool
is_failure_kind CodeKind.provisional = false
is_failure_kind CodeKind.success = false
is_failure_kind k = true

-- The loop: `abandon` is the instant after which the transaction gives up, `delta` the wait until
-- the next retransmission.
unfoldable pub await_ack : ℕ → ℕ → ℕ → List Event → Responded
await_ack abandon delta sent [] = waits sent
await_ack abandon delta sent (message (request Method.invite) accepts ∷ events) =
    let rest = await_ack abandon delta (suc sent) events in
    if accepts then rest else send_failed sent
await_ack abandon delta sent (message (request Method.ack) accepts ∷ events) = acknowledged sent
await_ack abandon delta sent (message line accepts ∷ events) = await_ack abandon delta sent events
await_ack abandon delta sent (timer now accepts ∷ events) =
    let rest = await_ack abandon (min (delta * 2) t2) (suc sent) events in
    if ltb abandon now then timed_out sent else (if accepts then rest else send_failed sent)

-- `accepts` says whether the transport takes the response when it is sent first.
unfoldable pub respond_failure : ℕ → Bool → ℕ → List Event → Responded
unfolding await_ack kind
respond_failure code accepts now events =
    if is_failure_kind (kind code)
    then (if accepts then await_ack (now + t1 * 64) t1 0 events else send_failed 0)
    else panics

-- The filter that `respond_success` adds: an ACK is not taken by the transaction.
unfoldable pub accepted_filter : MessageLine → Bool
accepted_filter (request Method.ack) = false
accepted_filter line = true

-- The times at which the timer goes off, from the instant `now`, when nothing else happens and the
-- transport accepts what is sent.
unfoldable pub timers : ℕ → ℕ → ℕ → List Event
timers ℕ.zero now delta = []
timers (suc n) now delta = timer (now + delta) true ∷ timers n (now + delta) (min (delta * 2) t2)
