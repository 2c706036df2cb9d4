-- ===== src/Rtp/Jitter/Accounting.antt =====
-- The counters and the size of the jitter buffer of media/rtp/src/session/jitter_buffer.rs.
use Prim.Native.Nat.{compare, Ordering}
use ezk.Common.{
  ℕ, ◌+◌, ◌≡◌, inl, inr, List, [], ◌∷◌, ◌++◌, length, arith, last?, length-append, Option-cases,
  Bool-cases,
}
use ezk.Rtp.Packet.{RtpPacket}
use ezk.Rtp.Jitter.{
  QueueEntry, occupied, entry_sequence_number, JitterBuffer, push, trim, drop_packet, push_before,
  push_equal, push_beside, is_late, Filled, filled, duplicate, missing, vacancies, fill_last,
}
use ezk.Rtp.Jitter.Numbers.{length-vacancies}

-- What `push` leaves alone.
pub record Keeps (b c : JitterBuffer) : Type 0 where
  pub last_kept : c.last_sequence_number_returned ≡ b.last_sequence_number_returned
  pub limit_kept : c.max_entries ≡ b.max_entries
  pub received_kept : c.received ≡ b.received
  pub lost_kept : c.lost ≡ b.lost

trim-Keeps : (b : JitterBuffer) → Keeps b (trim b)
unfolding trim
trim-Keeps b = ground arith

push_before-Keeps : (b : JitterBuffer) (f : Filled) → Keeps b (push_before b f)
unfolding drop_packet
push_before-Keeps b (filled q) = ground arith
push_before-Keeps b duplicate = ground arith
push_before-Keeps b missing = trim-Keeps b

push_equal-Keeps : (b : JitterBuffer) (f : Filled) → Keeps b (push_equal b f)
unfolding drop_packet trim
push_equal-Keeps b (filled q) = ground arith
push_equal-Keeps b duplicate = ground arith
push_equal-Keeps b missing = ground arith

push_beside-Keeps :
    (b : JitterBuffer) (last : ℕ) (new : QueueEntry) (o : Ordering)
    → Keeps b (push_beside b last new o)
unfolding trim
push_beside-Keeps b last new Ordering.lt = ground arith
push_beside-Keeps b last new Ordering.eq = push_equal-Keeps b (fill_last new b.queue)
push_beside-Keeps b last new Ordering.gt = push_before-Keeps b _

-- `push` counts no packet as received or lost, and does not move the last number returned.
pub push-Keeps :
    (b : JitterBuffer) (timestamp n : ℕ) (packet : RtpPacket) → Keeps b (push b timestamp n packet)
unfolding push drop_packet
push-Keeps b timestamp n packet = elim (Bool-cases (is_late b.last_sequence_number_returned n)) [
  | inl late ↦ rw late (ground arith)
  | inr fresh ↦ rw fresh (elim (Option-cases (last? b.queue)) [
    | inl e ↦ rw e (ground arith)
    | inr (entry, e) ↦ rw e (
        push_beside-Keeps b (entry_sequence_number entry) (occupied timestamp n packet)
          (compare (entry_sequence_number entry) n))
  ])
]

pub length-append_gap :
    (q : List QueueEntry) (m count : ℕ) (new : QueueEntry)
    → length (q ++ (vacancies m count ++ (new ∷ []))) ≡ length q + (count + 1)
length-append_gap q m count new = omega (
  arith,
  length-append q (vacancies m count ++ (new ∷ [])),
  length-append (vacancies m count) (new ∷ []),
  length-vacancies m count,
)
