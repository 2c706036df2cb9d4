-- ===== src/Ice/Stun/Binding.antt =====
-- The binding to a STUN server, and the retransmission timing, of media/ice/src/stun.rs.
use ezk.Common.{ℕ, suc, ◌*◌, ◌^◌, ◌≤◌, ◌≡◌, true, false, arith}
use ezk.Ice.Types.{SocketAddr}
use ezk.Ice.Stun.{
  StunConfig, StunServerBinding, StunServerBindingState, retransmit_delta, is_completed, poll,
  start_binding_request, wants_stun_response, receive_stun_response,
}

shifted_grows : (m n : ℕ) → m * 2 ^ n ≤ m * 2 ^ suc n
shifted_grows m n = grind arith

-- The waits between retransmissions grow up to `max_rto` and not beyond.
retransmit_delta-grows :
    (config : StunConfig) (n : ℕ)
    → (retransmit_delta config n ≤ retransmit_delta config (suc n))
      × (retransmit_delta config n ≤ config.max_rto)
unfolding retransmit_delta
retransmit_delta-grows config n = (omega (arith, shifted_grows config.initial_rto n), omega arith)

-- A binding that is completed stays completed under `poll`: the refresh of its address does not
-- undo it, not even when it fails.
poll-keeps_completed :
    (config : StunConfig) (now id : ℕ) (binding : StunServerBinding)
    → is_completed binding ≡ true
    → is_completed (poll config now id binding).0 ≡ true
unfolding poll is_completed start_binding_request
poll-keeps_completed config now id binding h = ground arith

-- A binding that waits sends a request under the transaction id that it draws; it wants the
-- response to it, and when that comes, the binding is completed, and no response is wanted.
poll-receive_stun_response :
    (config : StunConfig) (now later id : ℕ) (binding : StunServerBinding) (mapped : SocketAddr)
    → binding.state ≡ StunServerBindingState.waiting
    → (wants_stun_response (poll config now id binding).0 id ≡ true)
      × ((is_completed (receive_stun_response config later (poll config now id binding).0 mapped)
            ≡ true)
          × (wants_stun_response
                (receive_stun_response config later (poll config now id binding).0 mapped)
                id
              ≡ false))
unfolding poll is_completed start_binding_request receive_stun_response wants_stun_response
poll-receive_stun_response config now later id binding mapped h = ground arith
