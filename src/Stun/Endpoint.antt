-- ===== src/Stun/Endpoint.antt =====
-- media/stun/src/lib.rs: the endpoint that matches responses with requests. Times are in
-- milliseconds. A request that waits is known by a number, its channel; what the wait of
-- a request comes to is given.
pub mod Requests
use ezk.Common.{
  ℕ, zero, suc, ◌+◌, ◌*◌, List, [], ◌∷◌, ◌++◌, Option, none, some, Bool, if◌then◌else◌,
}
use ezk.Common.Maps.{lookup, erase, put}

-- `transactions`, from the transaction id to the channel of its sender, and what was passed on:
-- the messages to the channels and to the user.
pub record StunEndpoint (Key M : Type 0) : Type 0 where
  pub transactions : List (Key × ℕ)
  pub answered : List (ℕ × M)
  pub received : List M

module _ {Key M : Type 0} (same : Key → Key → Bool) (transaction_id : M → Key) where
  -- What `send_request` does first: an entry that is there is replaced, and its channel closed.
  unfoldable pub begin_request : Key → ℕ → StunEndpoint Key M → StunEndpoint Key M
  unfolding put erase
  begin_request id channel e = record e { transactions = put same id channel e.transactions }

  -- `DropGuard`, when `send_request` ends.
  unfoldable pub end_request : Key → StunEndpoint Key M → StunEndpoint Key M
  unfolding erase
  end_request id e = record e { transactions = erase same id e.transactions }

  abbrev deliver : M → StunEndpoint Key M → Option ℕ → StunEndpoint Key M
  unfolding erase
  deliver msg e none = record e { received = e.received ++ (msg ∷ []) }
  deliver msg e (some channel) = record e {
    transactions = erase same (transaction_id msg) e.transactions;
    answered = e.answered ++ ((channel, msg) ∷ []);
  }

  unfoldable pub receive : M → StunEndpoint Key M → StunEndpoint Key M
  unfolding lookup erase
  receive msg e = deliver msg e (lookup same (transaction_id msg) e.transactions)

-- How the wait for a response ends: with a response, with a channel whose sender is gone, or with
-- the time.
pub data Wait (M : Type 0) : Type 0 where
  response : M → Wait M
  closed elapsed : Wait M

-- Whether the transport takes the bytes of one attempt, and the wait that follows it.
pub record Attempt (M : Type 0) : Type 0 where
  pub accepted : Bool
  pub wait : Wait M

-- How `send_request` ends: with how often the request was sent, and for how long it was waited.
pub data Sent (M : Type 0) : Type 0 where
  returns : Option M → ℕ → ℕ → Sent M
  io_error panics : Sent M

abbrev pub after_wait : {M : Type 0} → Sent M → ℕ → ℕ → Wait M → Sent M
after_wait later sent waited (response m) = returns (some m) sent waited
after_wait later sent waited closed = panics
after_wait later sent waited elapsed = later

-- The loop over an unreliable transport: `rounds` are left, and the next wait lasts `delta`.
unfoldable pub send_loop : {M : Type 0} → ℕ → ℕ → ℕ → ℕ → (ℕ → Attempt M) → Sent M
send_loop zero delta sent waited attempts = returns none sent waited
send_loop (suc rounds) delta sent waited attempts =
    let later = send_loop rounds (delta * 2) (suc sent) (waited + delta) attempts in
    if (attempts sent).accepted
    then after_wait later (suc sent) waited (attempts sent).wait
    else io_error

-- `attempts` says how each attempt goes, the first one under 0. On a reliable transport only the
-- first wait counts.
unfoldable pub send_request : {M : Type 0} → Bool → (ℕ → Attempt M) → Sent M
send_request reliable attempts =
    if reliable
    then after_wait (returns none 0 500) 0 0 (attempts 0).wait
    else send_loop 7 500 0 0 attempts
