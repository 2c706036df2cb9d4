-- ===== src/Rtp/Session/SameTimestamp.antt =====
-- Packets of one timestamp in recv_rtp of media/rtp/src/session/mod.rs, as the packets of a video
-- frame are.
use ezk.Common.{
  ℕ, ◌^◌, ◌<◌, ◌≤◌, ◌≡◌, refl, ◌∙◌, ap, List, [], ◌∷◌, ◌++◌, Option, none, some, length, find,
  arith, ltb, ◌==◌, Bool-cases, inl, inr, if-elim, true, false,
}
use ezk.Rtp.Packet.{RtpPacket}
use ezk.Rtp.Counter.ExtendedRtpTimestamp
use ezk.Rtp.Session.{
  Floats, LastReceived, ReceiverState, RtpSession, receive, receive_after, receive_found,
  change_first, recv_rtp, new_receiver,
}
use ezk.Rtp.Session.Receivers.{receive-ssrc, recv_rtp_not_later}

-- A timestamp that was guessed is guessed again.
guess_extended_again :
    (n t : ℕ)
    → t < 2 ^ 32
    → ExtendedRtpTimestamp.guess_extended (ExtendedRtpTimestamp.guess_extended n t) t
      ≤ ExtendedRtpTimestamp.guess_extended n t
unfolding ExtendedRtpTimestamp.guess_extended
guess_extended_again n t h = ground arith

guess_extended_first : (t : ℕ) → t < 2 ^ 32 → ExtendedRtpTimestamp.guess_extended t t ≤ t
unfolding ExtendedRtpTimestamp.guess_extended
guess_extended_first t h = ground arith

module _ (floats : Floats) where
  -- The last packet taken is not before the timestamp.
  record Reached (t : ℕ) (r : ReceiverState floats) : Type 0 where
    last : LastReceived
    received : r.last_rtp_received ≡ some last
    reached : ExtendedRtpTimestamp.guess_extended last.timestamp t ≤ last.timestamp

  receive-Reached :
      (now clock_rate : ℕ) (packet : RtpPacket) (r : ReceiverState floats)
      → packet.timestamp < 2 ^ 32
      → Reached packet.timestamp (receive floats now clock_rate packet r)
  unfolding receive
  receive-Reached now clock_rate packet r h = after r.last_rtp_received refl
    where
      after :
          (last : Option LastReceived)
          → r.last_rtp_received ≡ last
          → Reached packet.timestamp (receive_after floats now clock_rate packet r last)
      after none e = record {
        last = _;
        received = refl;
        reached = guess_extended_first packet.timestamp h;
      }
      after (some last) e =
          let t = ExtendedRtpTimestamp.guess_extended last.timestamp packet.timestamp in
          if-elim (Reached packet.timestamp) (ltb last.timestamp t)
            (λ later. record {
              last = _;
              received = refl;
              reached = guess_extended_again last.timestamp packet.timestamp h;
            })
            (λ not_later. record {
              last = last;
              received = e;
              reached = not_before last.timestamp t not_later;
            })
        where
          not_before : (a b : ℕ) → ltb a b ≡ false → b ≤ a
          not_before a b e = ground arith

  find-change_first_same :
      (ssrc : ℕ) (f : ReceiverState floats → ReceiverState floats)
      (receivers : List (ReceiverState floats)) (r : ReceiverState floats)
      → ((r : ReceiverState floats) → (f r).ssrc ≡ r.ssrc)
      → find (λ r. r.ssrc == ssrc) receivers ≡ some r
      → find (λ r. r.ssrc == ssrc) (change_first floats ssrc f receivers) ≡ some (f r)
  unfolding change_first
  find-change_first_same ssrc f [] r keeps found = ground arith
  find-change_first_same ssrc f (x ∷ receivers) r keeps found = elim (Bool-cases (x.ssrc == ssrc)) [
    | inl e ↦
        let this : x ≡ r = (let h : some x ≡ some r = rw e at found in cc) in
        let same : ((f x).ssrc == ssrc) ≡ true = ap (λ n. n == ssrc) (keeps x) ∙ e in
        rw (e, same) (ap (λ y. some (f y)) this)
    | inr e ↦ rw (e, e) (find-change_first_same ssrc f receivers r keeps (rw e at found))
  ]

  find-snoc_same :
      (ssrc : ℕ) (receivers : List (ReceiverState floats)) (r : ReceiverState floats)
      → r.ssrc ≡ ssrc
      → find (λ r. r.ssrc == ssrc) receivers ≡ none
      → find (λ r. r.ssrc == ssrc) (receivers ++ (r ∷ [])) ≡ some r
  find-snoc_same ssrc [] r e h = ground arith
  find-snoc_same ssrc (x ∷ receivers) r e h = ground (arith, find-snoc_same ssrc receivers r e)

  -- Of two packets of one source that follow each other with the same timestamp, a number of 32
  -- bits, the second leaves the whole session as it was, whatever its sequence number and payload
  -- are and whatever was received before: it is not put into the jitter buffer, and neither counted
  -- as received nor as lost.
  pub recv_rtp_same_timestamp :
      (now then : ℕ) (first second : RtpPacket) (session : RtpSession floats)
      → second.ssrc ≡ first.ssrc
      → second.timestamp ≡ first.timestamp
      → first.timestamp < 2 ^ 32
      → recv_rtp floats then second (recv_rtp floats now first session)
        ≡ recv_rtp floats now first session
  unfolding recv_rtp
  recv_rtp_same_timestamp now then first second session source same h =
      received (find (λ r. r.ssrc == first.ssrc) session.receiver) refl
    where
      receive_it : ReceiverState floats → ReceiverState floats
      receive_it = receive floats now session.clock_rate first

      keeps : (r : ReceiverState floats) → (receive_it r).ssrc ≡ r.ssrc
      keeps r = receive-ssrc floats now session.clock_rate first r

      again :
          (s : RtpSession floats) (r : ReceiverState floats)
          → find (λ r. r.ssrc == first.ssrc) s.receiver ≡ some (receive_it r)
          → recv_rtp floats then second s ≡ s
      again s r found =
          let reached = receive-Reached now session.clock_rate first r h in
          recv_rtp_not_later floats then second s (receive_it r) reached.last
            (ap (λ n. find (λ r. r.ssrc == n) s.receiver) source ∙ found) reached.received
            (rw same reached.reached)

      received :
          (found : Option (ReceiverState floats))
          → find (λ r. r.ssrc == first.ssrc) session.receiver ≡ found
          → recv_rtp floats then second (receive_found floats now first session found)
            ≡ receive_found floats now first session found
      received (some r) e =
          again (receive_found floats now first session (some r)) r
            (find-change_first_same first.ssrc receive_it session.receiver r keeps e)
      received none e =
          if-elim (λ (s : RtpSession floats). recv_rtp floats then second s ≡ s)
            (ltb 4096 (length session.receiver))
            (λ full.
              ap (receive_found floats then second session)
                (ap (λ n. find (λ r. r.ssrc == n) session.receiver) source ∙ e)
              ∙ rw full refl)
            (λ free.
              let r = new_receiver floats first.ssrc in
              again
                (let s : RtpSession floats = record session {
                  receiver = session.receiver ++ (receive_it r ∷ []);
                } in
                  s)
                r (find-snoc_same first.ssrc session.receiver (receive_it r) (keeps r) e))
