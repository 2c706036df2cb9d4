-- ===== src/Ice/Poll/Retransmit.antt =====
-- The retransmissions of connectivity checks in media/ice/src/lib.rs.
use ezk.Common.{ℕ, suc, ◌+◌, ◌≤◌, ◌<◌, ◌≡◌, refl, ap, List, [], ◌∷◌, ◌++◌, replicate, some, arith}
use ezk.Ice.Types.{CandidatePair, CandidatePairState, InProgress, IceEvent, send_data}
use ezk.Ice.Stun.{StunConfig, retransmit_delta}
use ezk.Ice.Poll.{retransmit_pair}

-- The time of the next retransmission of a pair whose check is on its way.
abbrev due_at : CandidatePairState → ℕ
due_at (CandidatePairState.in_progress p) = p.retransmit_at
due_at state = 0

-- The pair after `n` polls, each as soon as one is due, when no response comes, with the events.
pub unanswered : StunConfig → ℕ → CandidatePair → CandidatePair × List IceEvent
unfolding retransmit_pair
unanswered config ℕ.zero pair = (pair, [])
unanswered config (suc n) pair =
    let (pair', events) = retransmit_pair config (due_at pair.state) pair in
    let (last, more) = unanswered config n pair' in (last, events ++ more)

abbrev pub checked : CandidatePair → InProgress → CandidatePair
checked pair p = record pair { state = CandidatePairState.in_progress p }

abbrev sent_again : StunConfig → InProgress → InProgress
unfolding retransmit_delta
sent_again config p = record p {
  retransmits = p.retransmits + 1;
  retransmit_at = p.retransmit_at + retransmit_delta config (p.retransmits + 1);
}

retransmit_pair-due :
    (config : StunConfig) (pair : CandidatePair) (p : InProgress)
    → p.retransmits < config.max_retransmits
    → retransmit_pair config p.retransmit_at (checked pair p) ≡ (
      checked pair (sent_again config p),
      send_data pair.component p.stun_request (some p.source) p.target ∷ [],
    )
unfolding retransmit_pair
retransmit_pair-due config pair p h = ground arith

retransmit_pair-last :
    (config : StunConfig) (pair : CandidatePair) (p : InProgress)
    → config.max_retransmits ≤ p.retransmits
    → retransmit_pair config p.retransmit_at (checked pair p)
      ≡ (record pair { state = CandidatePairState.failed }, [])
unfolding retransmit_pair
retransmit_pair-last config pair p h = ground arith

-- A check that is never answered is sent again exactly as often as the configuration still
-- allows, each time the same request to the same address, and then its pair has failed.
pub unanswered-failed :
    (config : StunConfig) (n : ℕ) (pair : CandidatePair) (p : InProgress)
    → p.retransmits + n ≡ config.max_retransmits
    → ((unanswered config (suc n) (checked pair p)).0.state ≡ CandidatePairState.failed)
      × ((unanswered config (suc n) (checked pair p)).1
          ≡ replicate n (send_data pair.component p.stun_request (some p.source) p.target))
unfolding unanswered
unanswered-failed config ℕ.zero pair p h =
    rw (retransmit_pair-last config pair p (omega arith)) (refl, refl)
unanswered-failed config (suc n) pair p h =
    let (failed, sent) = unanswered-failed config n pair (sent_again config p) (omega arith) in
    rw (retransmit_pair-due config pair p (omega arith))
      (failed, ap (◌∷◌ (send_data pair.component p.stun_request (some p.source) p.target)) sent)
