-- ===== src/Rtp/Jitter/Invariant.antt =====
-- `push` and `pop` of media/rtp/src/session/jitter_buffer.rs keep the queue in order.
use Prim.Native.Nat.{compare}
use ezk.Common.{
  ℕ, suc, ◌+◌, ◌-◌, ◌<◌, ◌≡◌, inl, inr, refl, List, [], ◌∷◌, ◌++◌, Option, none, some, false,
  length, last?, ltb, arith, Option-cases, Bool-cases, compare-cases,
}
use ezk.Rtp.Packet.{RtpPacket}
use ezk.Rtp.Jitter.{
  QueueEntry, occupied, entry_sequence_number, JitterBuffer, Filled, filled, duplicate, missing,
  vacancies, trim, drop_packet, push, push_before, push_equal, push_beside, is_late, pop_front,
}
use ezk.Rtp.Jitter.Numbers.{
  numbers, CountsFrom, IsAbove, Ordered, IsOrdered, numbers-append, CountsFrom-append,
  vacancies-CountsFrom, length-vacancies, length-numbers, CountsFrom-last?, IsFilled, fill-numbers,
  fill_last-numbers,
}

pop_front-Ordered :
    (last : Option ℕ) (q : List QueueEntry)
    → Ordered last (numbers q)
    → Ordered last (numbers (pop_front q))
pop_front-Ordered none [] h = (tt, tt)
pop_front-Ordered (some n) [] h = (tt, tt)
pop_front-Ordered none (x ∷ []) h = (tt, tt)
pop_front-Ordered (some n) (x ∷ []) h = (tt, tt)
pop_front-Ordered none (x ∷ y ∷ q) h = ground arith
pop_front-Ordered (some n) (x ∷ y ∷ q) h = ground arith

trim-IsOrdered : (b : JitterBuffer) → IsOrdered b → IsOrdered (trim b)
unfolding trim
trim-IsOrdered b h = elim (Bool-cases (ltb b.max_entries (length b.queue))) [
  | inl long ↦ rw long (pop_front-Ordered b.last_sequence_number_returned b.queue h)
  | inr fits ↦ rw fits h
]

IsAbove-head :
    (last : Option ℕ) (m : ℕ) (ns ms : List ℕ) → IsAbove last (m ∷ ns) → IsAbove last (m ∷ ms)
IsAbove-head none m ns ms h = tt
IsAbove-head (some n) m ns ms h = h

-- The vacant entries of a gap and the new entry behind them.
gap-CountsFrom :
    (m : ℕ) (new : QueueEntry)
    → m < entry_sequence_number new
    → CountsFrom
        (m + 1)
        (numbers (vacancies (m + 1) (entry_sequence_number new - m - 1) ++ (new ∷ [])))
gap-CountsFrom m new h =
    let count = entry_sequence_number new - m - 1 in
    rw (numbers-append (vacancies (m + 1) count) (new ∷ [])) (
      CountsFrom-append (m + 1) (entry_sequence_number new) _ _ (vacancies-CountsFrom (m + 1) count)
        (omega (arith, length-numbers (vacancies (m + 1) count), length-vacancies (m + 1) count))
        (refl, tt))

-- A new number above the last entry goes behind the vacant entries that close the gap.
push_after-Ordered :
    (last : Option ℕ) (q : List QueueEntry) (entry new : QueueEntry)
    → Ordered last (numbers q)
    → last? q ≡ some entry
    → entry_sequence_number entry < entry_sequence_number new
    → let m = entry_sequence_number entry in
      Ordered last
        (numbers (q ++ (vacancies (m + 1) (entry_sequence_number new - m - 1) ++ (new ∷ []))))
push_after-Ordered last [] entry new h e lt = cc
push_after-Ordered last (x ∷ q) entry new h e lt =
    let tail =
      vacancies (entry_sequence_number entry + 1)
        (entry_sequence_number new - entry_sequence_number entry - 1)
      ++ (new ∷ []) in
    let at_end : entry_sequence_number entry + 1
        ≡ suc (entry_sequence_number x) + length (numbers q) =
      omega (
        arith,
        CountsFrom-last? (entry_sequence_number x) (x ∷ q) entry (refl, h.0) e,
        length-numbers q,
      ) in
    rw (numbers-append q tail) (
      CountsFrom-append _ _ (numbers q) (numbers tail) h.0 at_end (gap-CountsFrom _ new lt),
      IsAbove-head last _ (numbers q) _ h.1,
    )

push_before-IsOrdered :
    (b : JitterBuffer) (f : Filled) → IsOrdered b → IsFilled b.queue f → IsOrdered (push_before b f)
unfolding drop_packet
push_before-IsOrdered b (filled q) h e = rw e h
push_before-IsOrdered b duplicate h e = h
push_before-IsOrdered b missing h e = trim-IsOrdered b h

push_equal-IsOrdered :
    (b : JitterBuffer) (f : Filled) → IsOrdered b → IsFilled b.queue f → IsOrdered (push_equal b f)
unfolding drop_packet
push_equal-IsOrdered b (filled q) h e = trim-IsOrdered (record b { queue = q }) (rw e h)
push_equal-IsOrdered b duplicate h e = trim-IsOrdered (drop_packet b) h
push_equal-IsOrdered b missing h e = trim-IsOrdered b h

push_beside-IsOrdered :
    (b : JitterBuffer) (timestamp n : ℕ) (packet : RtpPacket) (entry : QueueEntry)
    → IsOrdered b
    → last? b.queue ≡ some entry
    → IsOrdered (
        push_beside b
          (entry_sequence_number entry)
          (occupied timestamp n packet)
          (compare (entry_sequence_number entry) n))
push_beside-IsOrdered b timestamp n packet entry h e =
    elim (compare-cases (entry_sequence_number entry) n) [
      | inl (c, lt) ↦ rw c (
          trim-IsOrdered (record b { queue = _ })
            (push_after-Ordered b.last_sequence_number_returned b.queue entry
              (occupied timestamp n packet) h e lt))
      | inr (inl (c, eq)) ↦
          rw c
            (push_equal-IsOrdered b _ h (fill_last-numbers timestamp n packet b.queue entry e eq))
      | inr (inr (c, gt)) ↦
          rw c (push_before-IsOrdered b _ h (fill-numbers n timestamp packet b.queue))
    ]

-- A first packet that is not late goes into the empty queue.
push_first-IsOrdered :
    (last : Option ℕ) (q : List QueueEntry) (new : QueueEntry)
    → last? q ≡ none
    → is_late last (entry_sequence_number new) ≡ false
    → Ordered last (numbers (q ++ (new ∷ [])))
push_first-IsOrdered none [] new e fresh = (tt, tt)
push_first-IsOrdered (some n) [] new e fresh = (tt, ground arith)
push_first-IsOrdered last (x ∷ []) new e fresh = cc
push_first-IsOrdered last (x ∷ y ∷ q) new e fresh = absurd (last?-ne-none y q e)
  where
    last?-ne-none : (y : QueueEntry) (q : List QueueEntry) → last? (y ∷ q) ≡ none → ⊥
    last?-ne-none y [] e = cc
    last?-ne-none y (z ∷ q) e = last?-ne-none z q e

-- `push` keeps the queue in order, whatever arrives: the sequence numbers in it count up without
-- a gap, and all are above the last one that was returned.
pub push-IsOrdered :
    (b : JitterBuffer) (timestamp n : ℕ) (packet : RtpPacket)
    → IsOrdered b
    → IsOrdered (push b timestamp n packet)
unfolding push drop_packet
push-IsOrdered b timestamp n packet h =
    elim (Bool-cases (is_late b.last_sequence_number_returned n)) [
      | inl late ↦ rw late h
      | inr fresh ↦ rw fresh (elim (Option-cases (last? b.queue)) [
        | inl e ↦ rw e (push_first-IsOrdered b.last_sequence_number_returned b.queue _ e fresh)
        | inr (entry, e) ↦ rw e (push_beside-IsOrdered b timestamp n packet entry h e)
      ])
    ]
