-- ===== src/Rtp/Session/Receivers.antt =====
-- The receivers of a session of media/rtp/src/session/mod.rs.
use mathlib.Core.Path.{subst}
use ezk.Common.{
  ℕ, suc, ◌≤◌, ◌≡◌, ◌≢◌, refl, ◌∙◌, ap, sym, List, [], ◌∷◌, ◌++◌, Option, none, some, true, false,
  length, find, All, All-append, arith, ltb, ◌==◌, Bool-cases, inl, inr, length-append, if-elim,
}
use ezk.Rtp.Packet.{RtpPacket}
use ezk.Rtp.Counter.ExtendedRtpTimestamp
use ezk.Rtp.Session.{
  Floats, LastReceived, ReceiverState, RtpSession, receive, receive_after, receive_found,
  change_first, recv_rtp, new_receiver,
}

module _ (floats : Floats) where
  -- No two receivers stand for one source, and there are at most 4097.
  abbrev pub IsFresh : ℕ → List (ReceiverState floats) → Type 0
  IsFresh ssrc receivers = All (λ r. r.ssrc ≢ ssrc) receivers

  abbrev pub IsDistinct : List (ReceiverState floats) → Type 0
  IsDistinct [] = Unit {0}
  IsDistinct (r ∷ receivers) = IsFresh r.ssrc receivers × IsDistinct receivers

  pub record IsValid (session : RtpSession floats) : Type 0 where
    pub distinct : IsDistinct session.receiver
    pub bounded : length session.receiver ≤ 4097

  pub receive-ssrc :
      (now clock_rate : ℕ) (packet : RtpPacket) (r : ReceiverState floats)
      → (receive floats now clock_rate packet r).ssrc ≡ r.ssrc
  unfolding receive
  receive-ssrc now clock_rate packet r = after r.last_rtp_received
    where
      after :
          (last : Option LastReceived)
          → (receive_after floats now clock_rate packet r last).ssrc ≡ r.ssrc
      after none = refl
      after (some last) =
          if-elim (λ (x : ReceiverState floats). x.ssrc ≡ r.ssrc)
            (ltb last.timestamp
              (ExtendedRtpTimestamp.guess_extended last.timestamp packet.timestamp))
            (λ h. refl) (λ h. refl)

  module _ (ssrc : ℕ) (f : ReceiverState floats → ReceiverState floats)
      (keeps : (r : ReceiverState floats) → (f r).ssrc ≡ r.ssrc) where
    change_first-IsFresh :
        (other : ℕ) (receivers : List (ReceiverState floats))
        → IsFresh other receivers
        → IsFresh other (change_first floats ssrc f receivers)
    unfolding change_first
    change_first-IsFresh other [] h = h
    change_first-IsFresh other (r ∷ receivers) h =
        if-elim (IsFresh other) (r.ssrc == ssrc) (λ same. (λ e. h.0 (sym (keeps r) ∙ e), h.1))
          (λ differs. (h.0, change_first-IsFresh other receivers h.1))

    change_first-IsDistinct :
        (receivers : List (ReceiverState floats))
        → IsDistinct receivers
        → IsDistinct (change_first floats ssrc f receivers)
    unfolding change_first
    change_first-IsDistinct [] h = h
    change_first-IsDistinct (r ∷ receivers) h =
        if-elim IsDistinct (r.ssrc == ssrc)
          (λ same. (subst (λ n. IsFresh n receivers) (sym (keeps r)) h.0, h.1))
          (λ differs.
            (change_first-IsFresh r.ssrc receivers h.0, change_first-IsDistinct receivers h.1))

    length-change_first :
        (receivers : List (ReceiverState floats))
        → length (change_first floats ssrc f receivers) ≡ length receivers
    unfolding change_first
    length-change_first [] = refl
    length-change_first (r ∷ receivers) =
        if-elim (λ (l : List (ReceiverState floats)). length l ≡ suc (length receivers))
          (r.ssrc == ssrc) (λ same. refl) (λ differs. ap suc (length-change_first receivers))

    -- Receivers of other sources are found as before.
    find-change_first :
        (other : ℕ) (receivers : List (ReceiverState floats))
        → other ≢ ssrc
        → find (λ r. r.ssrc == other) (change_first floats ssrc f receivers)
          ≡ find (λ r. r.ssrc == other) receivers
    unfolding change_first
    find-change_first other [] differs = refl
    find-change_first other (r ∷ receivers) differs =
        ground (arith, keeps r, find-change_first other receivers differs)

    change_first_same :
        (receivers : List (ReceiverState floats)) (r : ReceiverState floats)
        → find (λ r. r.ssrc == ssrc) receivers ≡ some r
        → f r ≡ r
        → change_first floats ssrc f receivers ≡ receivers
    unfolding change_first
    change_first_same [] r found same = refl
    change_first_same (x ∷ receivers) r found same = elim (Bool-cases (x.ssrc == ssrc)) [
      | inl e ↦
          let this : x ≡ r = (let h : some x ≡ some r = rw e at found in cc) in
          rw e (ap (λ y. y ∷ receivers) (ap f this ∙ same ∙ sym this))
      | inr e ↦ rw e (ap (◌∷◌ x) (change_first_same receivers r (rw e at found) same))
    ]

  find-IsFresh :
      (ssrc : ℕ) (receivers : List (ReceiverState floats))
      → find (λ r. r.ssrc == ssrc) receivers ≡ none
      → IsFresh ssrc receivers
  find-IsFresh ssrc [] h = tt
  find-IsFresh ssrc (r ∷ receivers) h = elim (Bool-cases (r.ssrc == ssrc)) [
    | inl e ↦ (let found : some r ≡ none = rw e at h in cc)
    | inr e ↦ (λ same. ground arith, find-IsFresh ssrc receivers (rw e at h))
  ]

  snoc-IsDistinct :
      (receivers : List (ReceiverState floats)) (r : ReceiverState floats)
      → IsFresh r.ssrc receivers
      → IsDistinct receivers
      → IsDistinct (receivers ++ (r ∷ []))
  snoc-IsDistinct [] r fresh h = (tt, tt)
  snoc-IsDistinct (x ∷ receivers) r fresh h = (
    All-append (λ y. y.ssrc ≢ x.ssrc) receivers (r ∷ []) h.0 (λ e. fresh.0 (sym e), tt),
    snoc-IsDistinct receivers r fresh.1 h.1,
  )

  added :
      (receivers : List (ReceiverState floats)) (r : ReceiverState floats)
      → ltb 4096 (length receivers) ≡ false
      → length (receivers ++ (r ∷ [])) ≤ 4097
  added receivers r h = ground (arith, length-append receivers (r ∷ []))

  find-snoc :
      (other : ℕ) (receivers : List (ReceiverState floats)) (r : ReceiverState floats)
      → r.ssrc ≢ other
      → find (λ r. r.ssrc == other) (receivers ++ (r ∷ [])) ≡ find (λ r. r.ssrc == other) receivers
  find-snoc other [] r differs = ground arith
  find-snoc other (x ∷ receivers) r differs = ground (arith, find-snoc other receivers r differs)

  -- However a packet is received, the receivers of a session stay distinct by their source, and
  -- there are never more than 4097.
  pub recv_rtp-IsValid :
      (now : ℕ) (packet : RtpPacket) (session : RtpSession floats)
      → IsValid session
      → IsValid (recv_rtp floats now packet session)
  unfolding recv_rtp
  recv_rtp-IsValid now packet session v =
      received (find (λ r. r.ssrc == packet.ssrc) session.receiver) refl
    where
      receive_it : ReceiverState floats → ReceiverState floats
      receive_it = receive floats now session.clock_rate packet

      keeps : (r : ReceiverState floats) → (receive_it r).ssrc ≡ r.ssrc
      keeps r = receive-ssrc now session.clock_rate packet r

      received :
          (found : Option (ReceiverState floats))
          → find (λ r. r.ssrc == packet.ssrc) session.receiver ≡ found
          → IsValid (receive_found floats now packet session found)
      received (some r) h = record {
        distinct = change_first-IsDistinct packet.ssrc receive_it keeps session.receiver v.distinct;
        bounded =
            omega
              (arith, length-change_first packet.ssrc receive_it keeps session.receiver, v.bounded);
      }
      received none h =
          if-elim IsValid (ltb 4096 (length session.receiver)) (λ full. v)
            (λ free. record {
              distinct =
                  let fresh = find-IsFresh packet.ssrc session.receiver h in
                  snoc-IsDistinct session.receiver (receive_it (new_receiver floats packet.ssrc))
                    (subst (λ n. IsFresh n session.receiver)
                      (sym (keeps (new_receiver floats packet.ssrc))) fresh)
                    v.distinct;
              bounded = added session.receiver (receive_it (new_receiver floats packet.ssrc)) free;
            })

  not_after : (a b : ℕ) → ltb a b ≡ true → b ≤ a → ⊥
  not_after a b h k = ground arith

  -- A packet of a source that is known, whose extended timestamp is not above the one of the last
  -- packet taken, is passed over.
  pub recv_rtp_not_later :
      (now : ℕ) (packet : RtpPacket) (session : RtpSession floats) (r : ReceiverState floats)
      (last : LastReceived)
      → find (λ r. r.ssrc == packet.ssrc) session.receiver ≡ some r
      → r.last_rtp_received ≡ some last
      → ExtendedRtpTimestamp.guess_extended last.timestamp packet.timestamp ≤ last.timestamp
      → recv_rtp floats now packet session ≡ session
  unfolding recv_rtp
  recv_rtp_not_later now packet session r last known received not_later =
      ap (receive_found floats now packet session) known
      ∙ ap (λ receivers. let s : RtpSession floats = record session { receiver = receivers } in s)
          (change_first_same packet.ssrc receive_it keeps session.receiver r known unchanged)
    where
      receive_it : ReceiverState floats → ReceiverState floats
      receive_it = receive floats now session.clock_rate packet

      keeps : (r : ReceiverState floats) → (receive_it r).ssrc ≡ r.ssrc
      keeps r = receive-ssrc now session.clock_rate packet r

      unchanged : receive_it r ≡ r
      unchanged =
          ap (receive_after floats now session.clock_rate packet r) received
          ∙ if-elim (λ (x : ReceiverState floats). x ≡ r)
              (ltb last.timestamp
                (ExtendedRtpTimestamp.guess_extended last.timestamp packet.timestamp))
              (λ later. absurd (
                not_after last.timestamp
                  (ExtendedRtpTimestamp.guess_extended last.timestamp packet.timestamp) later
                  not_later))
              (λ h. refl)

  -- A packet changes nothing of the receivers of other sources.
  recv_rtp-others :
      (now : ℕ) (packet : RtpPacket) (session : RtpSession floats) (other : ℕ)
      → other ≢ packet.ssrc
      → find (λ r. r.ssrc == other) (recv_rtp floats now packet session).receiver
        ≡ find (λ r. r.ssrc == other) session.receiver
  unfolding recv_rtp
  recv_rtp-others now packet session other differs =
      received (find (λ r. r.ssrc == packet.ssrc) session.receiver)
    where
      receive_it : ReceiverState floats → ReceiverState floats
      receive_it = receive floats now session.clock_rate packet

      keeps : (r : ReceiverState floats) → (receive_it r).ssrc ≡ r.ssrc
      keeps r = receive-ssrc now session.clock_rate packet r

      received :
          (found : Option (ReceiverState floats))
          → find (λ r. r.ssrc == other) (receive_found floats now packet session found).receiver
            ≡ find (λ r. r.ssrc == other) session.receiver
      received (some r) =
          find-change_first packet.ssrc receive_it keeps other session.receiver differs
      received none =
          if-elim
            (λ (s : RtpSession floats).
              find (λ r. r.ssrc == other) s.receiver ≡ find (λ r. r.ssrc == other) session.receiver)
            (ltb 4096 (length session.receiver)) (λ full. refl)
            (λ free.
              find-snoc other session.receiver (receive_it (new_receiver floats packet.ssrc))
                (λ e. differs (sym e)))
