-- ===== src/Ice/Agent/Candidates.antt =====
-- The candidates of the agent of media/ice/src/lib.rs, and the priorities of its pairs.
use Prim.Native.String.{String}
use ezk.Common.{ℕ, ◌≡◌, refl, ◌∙◌, List, Bool, true, ◌&&◌, ◌||◌, any, if-elim, ◌==◌, ==_iff}
use ezk.Ice.Types.{
  Component, IpAddr, SocketAddr, same_addr, same_ip, CandidateKind, same_kind, Candidate,
}
use ezk.Ice.Agent.{IceAgent, add_local_candidate, is_known, form}

same_kind_refl : (k : CandidateKind) → same_kind k k ≡ true
same_kind_refl CandidateKind.host = refl
same_kind_refl CandidateKind.peer_reflexive = refl
same_kind_refl CandidateKind.server_reflexive = refl

==_refl : (n : ℕ) → (n == n) ≡ true
==_refl n = (==_iff n n).1 refl

same_ip_refl : (ip : IpAddr) → same_ip ip ip ≡ true
same_ip_refl (IpAddr.v4 ip) = ==_refl ip
same_ip_refl (IpAddr.v6 ip) = ==_refl ip

same_addr_refl : (a : SocketAddr) → same_addr a a ≡ true
same_addr_refl a = rw (same_ip_refl a.ip) (==_refl a.port)

module _ (insert : List (ℕ × Candidate) → Candidate → List (ℕ × Candidate))
    (foundation : CandidateKind → IpAddr → String) where
  known_absorbs :
      (a : IceAgent) (component : Component) (kind : CandidateKind) (base addr : SocketAddr)
      → is_known kind base addr a.local_candidates ≡ true
      → add_local_candidate insert foundation a component kind base addr ≡ a
  unfolding add_local_candidate
  known_absorbs a component kind base addr h = rw (h, add_local_candidate) refl

  known_after :
      ((f : Candidate → Bool) (m : List (ℕ × Candidate)) (c : Candidate)
        → any (λ e. f e.1) (insert m c) ≡ (f c || any (λ e. f e.1) m))
      → (a : IceAgent) (component : Component) (kind : CandidateKind) (base addr : SocketAddr)
      → is_known kind base addr
          (add_local_candidate insert foundation a component kind base addr).local_candidates
        ≡ true
  unfolding add_local_candidate form
  known_after insert-any a component kind base addr =
      if-elim (λ (x : IceAgent). is_known kind base addr x.local_candidates ≡ true)
        (is_known kind base addr a.local_candidates) (λ e. e)
        (λ e.
          insert-any
            (λ c. same_kind c.kind kind && (same_addr c.base base && same_addr c.addr addr))
            a.local_candidates _
          ∙ rw (same_kind_refl kind, same_addr_refl base, same_addr_refl addr) refl)

  -- A local candidate that is found again is not added again, when the slot map gives what was
  -- inserted and keeps what it had.
  add_local_candidate-twice :
      ((f : Candidate → Bool) (m : List (ℕ × Candidate)) (c : Candidate)
        → any (λ e. f e.1) (insert m c) ≡ (f c || any (λ e. f e.1) m))
      → (a : IceAgent) (component : Component) (kind : CandidateKind) (base addr : SocketAddr)
      → add_local_candidate insert foundation
          (add_local_candidate insert foundation a component kind base addr)
          component
          kind
          base
          addr
        ≡ add_local_candidate insert foundation a component kind base addr
  add_local_candidate-twice insert-any a component kind base addr =
      known_absorbs (add_local_candidate insert foundation a component kind base addr) component
        kind base addr (known_after insert-any a component kind base addr)
