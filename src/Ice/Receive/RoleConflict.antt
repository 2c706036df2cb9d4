-- ===== src/Ice/Receive/RoleConflict.antt =====
-- The answer to a role conflict in media/ice/src/lib.rs and stun.rs, and what its receiver does.
use Prim.Native.String.{String}
use text.Mathlib.Text.{◌==◌ as str_eq}
use ezk.Common.{ℕ, ◌≡◌, refl, ap, ◌∙◌, List, none, some, Bool, true, false, find, if◌then◌else◌}
use ezk.Ice.Types.{IpAddr, SocketAddr, CandidateKind, Candidate, ReceivedPkt, IceCredentials}
use ezk.Ice.Stun.{wants_stun_response, verify_integrity, make_role_error}
use ezk.Ice.Agent.{IceAgent}
use ezk.Ice.Response.{
  receive_stun_success, success_from, success_checked, success_for, is_checked_by,
}
use ezk.Ice.Receive.{receive_stun}

role_error_integrity :
    (local mine yours : IceCredentials) (at : SocketAddr) (id tie : ℕ) (role : Bool)
    → verify_integrity local mine (make_role_error id mine yours at role tie)
      ≡ str_eq yours.pwd mine.pwd
unfolding verify_integrity make_role_error
role_error_integrity local mine yours at id tie true = refl
role_error_integrity local mine yours at id tie false = refl

module _ (insert : List (ℕ × Candidate) → Candidate → List (ℕ × Candidate))
    (key : List (ℕ × Candidate) → ℕ) (foundation : CandidateKind → IpAddr → String) where
  -- The answer to a role conflict has no effect: its class is Success, and it is signed with the
  -- password of its receiver, who expects that of the sender. A peer that knows the sender's
  -- credentials, with a password that is not its own, and that has no binding to a STUN server
  -- that waits for this transaction, discards it and does not switch its role.
  pub make_role_error-discarded :
      (peer : IceAgent) (mine yours : IceCredentials) (pkt : ReceivedPkt) (id now tie : ℕ)
      (role : Bool) (at : SocketAddr)
      → peer.remote_credentials ≡ some mine
      → str_eq yours.pwd mine.pwd ≡ false
      → find (λ s. wants_stun_response s id) peer.stun_server ≡ none
      → receive_stun insert key foundation peer now
          (record pkt { msg = make_role_error id mine yours at role tie })
        ≡ some peer
  unfolding receive_stun receive_stun_success success_from success_checked make_role_error
  make_role_error-discarded peer mine yours pkt id now tie role at known differ idle =
      let answer = record pkt { msg = make_role_error id mine yours at role tie } in
      ap (success_from insert foundation peer now answer) idle
      ∙ ap (success_checked insert foundation peer answer) known
      ∙ ap
          (λ b.
            if b
            then success_for insert foundation peer answer (find (is_checked_by id) peer.pairs)
            else some peer)
          (role_error_integrity peer.local_credentials mine yours at id tie role ∙ differ)
