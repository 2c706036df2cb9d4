-- ===== src/Rtp/Jitter/Delivery.antt =====
-- A whole run of the jitter buffer of media/rtp/src/session/jitter_buffer.rs: which packets come out.
use mathlib.Core.Path.{subst}
use ezk.Common.{ℕ, suc, ◌≤◌, List, [], ◌∷◌, ◌++◌, Option, none, some, arith}
use ezk.Rtp.Packet.{RtpPacket}
use ezk.Rtp.Jitter.{
  QueueEntry, occupied, entry_sequence_number, JitterBuffer, returns, panics, pop, push,
}
use ezk.Rtp.Jitter.Numbers.{numbers, CountsFrom, IsContiguous, IsAbove, Ordered, IsOrdered}
use ezk.Rtp.Jitter.Invariant.{push-IsOrdered}
use ezk.Rtp.Jitter.Accounting.{push-Keeps}
use ezk.Rtp.Jitter.Outcome.{waits, delivers, fails, pop-Outcome}

CountsFrom-IsContiguous : (n : ℕ) (ns : List ℕ) → CountsFrom n ns → IsContiguous ns
CountsFrom-IsContiguous n [] h = tt
CountsFrom-IsContiguous n (m ∷ ns) h = ground arith

-- What is left behind an entry of a queue in order is in order behind that entry.
CountsFrom-behind :
    (n : ℕ) (front rest : List QueueEntry) (entry : QueueEntry)
    → CountsFrom n (numbers (front ++ (entry ∷ rest)))
    → Ordered (some (entry_sequence_number entry)) (numbers rest)
      × (n ≤ entry_sequence_number entry)
CountsFrom-behind n [] [] entry h = ((tt, tt), omega arith)
CountsFrom-behind n [] (x ∷ rest) entry h = ground arith
CountsFrom-behind n (x ∷ front) rest entry h =
    ground (arith, CountsFrom-behind (suc n) front rest entry h.1)

-- The entry itself is above the last number that was returned.
Ordered-behind :
    (last : Option ℕ) (front rest : List QueueEntry) (entry : QueueEntry)
    → Ordered last (numbers (front ++ (entry ∷ rest)))
    → Ordered (some (entry_sequence_number entry)) (numbers rest)
      × IsAbove last (entry_sequence_number entry ∷ [])
Ordered-behind none [] [] entry h = ((tt, tt), tt)
Ordered-behind (some m) [] [] entry h = ((tt, tt), h.1)
Ordered-behind none [] (x ∷ rest) entry h = ground arith
Ordered-behind (some m) [] (x ∷ rest) entry h = ground arith
Ordered-behind none (x ∷ front) rest entry h =
    ((CountsFrom-behind (suc (entry_sequence_number x)) front rest entry h.0).0, tt)
Ordered-behind (some m) (x ∷ front) rest entry h =
    let (ordered, above) = CountsFrom-behind (suc (entry_sequence_number x)) front rest entry h.0 in
    (ordered, omega arith)

-- The calls that a receiver makes.
pub data Call : Type 0 where
  pushes : ℕ → ℕ → RtpPacket → Call
  pops : ℕ → Call

-- The number that the buffer notes when a packet is returned.
abbrev noted : Option ℕ → List ℕ → List ℕ
noted none ns = ns
noted (some n) ns = n ∷ ns

-- The sequence numbers of the packets that come out, first to last; a panic ends the run.
unfoldable pub delivered : JitterBuffer → List Call → List ℕ
delivered b [] = []
delivered b (pushes timestamp n packet ∷ calls) = delivered (push b timestamp n packet) calls
delivered b (pops max_timestamp ∷ calls) = elim (pop b max_timestamp) [
  | panics ↦ []
  | returns none b' ↦ delivered b' calls
  | returns (some packet) b' ↦ noted b'.last_sequence_number_returned (delivered b' calls)
]

-- Strictly increasing, and above `last`.
abbrev pub Increases : Option ℕ → List ℕ → Type 0
Increases last [] = Unit {0}
Increases last (n ∷ ns) = IsAbove last (n ∷ []) × Increases (some n) ns

-- Whatever is pushed and popped, in any order and with any timestamps, the packets that come out
-- of a buffer in order have strictly increasing sequence numbers, above the last one returned.
pub delivered-Increases :
    (b : JitterBuffer) (calls : List Call)
    → IsOrdered b
    → Increases b.last_sequence_number_returned (delivered b calls)
unfolding delivered
delivered-Increases b [] h = tt
delivered-Increases b (pushes timestamp n packet ∷ calls) h =
    subst (λ last. Increases last (delivered (push b timestamp n packet) calls))
      (push-Keeps b timestamp n packet).last_kept
      (delivered-Increases (push b timestamp n packet) calls
        (push-IsOrdered b timestamp n packet h))
delivered-Increases b (pops max_timestamp ∷ calls) h = elim (pop-Outcome b max_timestamp) [
  | waits ws e ↦ rw (e, Increases, delivered) (delivered-Increases b calls h)
  | fails f v e ↦ rw (e, Increases, delivered) tt
  | delivers f v e ↦
      let (ordered, above) =
        Ordered-behind b.last_sequence_number_returned f.front f.rest
          (occupied f.timestamp f.number f.packet) (rw f.splits at h) in
      rw (e, Increases, delivered) (above, delivered-Increases _ calls ordered)
]
