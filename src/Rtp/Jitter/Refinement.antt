-- ===== src/Rtp/Jitter/Refinement.antt =====
-- `push` of media/rtp/src/session/jitter_buffer.rs refines insertion into a finite map.
use Prim.Native.Nat.{compare}
use ezk.Common.{
  ℕ, zero, suc, ◌+◌, ◌-◌, ◌≤◌, ◌<◌, ◌≡◌, inl, inr, refl, ap, ◌∙◌, List, [], ◌∷◌, ◌++◌, none, some,
  false, length, arith, last?, compare-cases, if◌then◌else◌, ◌==◌,
}
use ezk.Rtp.Packet.{RtpPacket}
use ezk.Rtp.Jitter.{
  QueueEntry, occupied, entry_sequence_number, JitterBuffer, push, trim, push_after, push_beside,
  is_late, missing, vacancies, fill,
}
use ezk.Rtp.Jitter.Numbers.{
  numbers, CountsFrom, IsContiguous, IsOrdered, CountsFrom-last?, fill-numbers, fill_last-numbers,
}
use ezk.Rtp.Jitter.Contents.{
  packet_at, stored, packet_at-below, packet_at-above, packet_at-append, fill-missing, fill-Fills,
}
use ezk.Rtp.Jitter.Accounting.{length-append_gap}
use ezk.Rtp.Jitter.Stores.{
  fill-ne-missing, Stores-of_Fills, fill_last-Fills, trim_fits, push_before-stored,
  push_equal-stored, Reaches, HasRoom,
}

-- The entries behind the last one, when a number above it arrives.
gap-packet_at :
    (m count n timestamp k : ℕ) (packet : RtpPacket)
    → m + count ≤ n
    → packet_at (vacancies m count ++ (occupied timestamp n packet ∷ [])) k
      ≡ (if n == k then some packet else none)
unfolding vacancies packet_at
gap-packet_at m zero n timestamp k packet h = refl
gap-packet_at m (suc count) n timestamp k packet h =
    ground (arith, gap-packet_at (suc m) count n timestamp k packet (omega arith))

push_after-stored :
    (b : JitterBuffer) (q : List QueueEntry) (n timestamp k : ℕ) (packet : RtpPacket)
    (entry : QueueEntry)
    → b.queue ≡ q
    → IsContiguous (numbers q)
    → last? q ≡ some entry
    → entry_sequence_number entry < n
    → HasRoom b q n
    → packet_at (push_after b (entry_sequence_number entry) (occupied timestamp n packet)).queue k
      ≡ stored b.queue n packet k
push_after-stored b [] n timestamp k packet entry bq h e lt room = cc
push_after-stored b (x ∷ q) n timestamp k packet entry bq h e lt room =
    let m = entry_sequence_number entry in
    let tail = vacancies (m + 1) (n - m - 1) ++ (occupied timestamp n packet ∷ []) in
    let start = entry_sequence_number x in
    let counts : CountsFrom start (numbers (x ∷ q)) = (refl, h) in
    let ends : m + 1 ≡ start + length (x ∷ q) = CountsFrom-last? start (x ∷ q) entry counts e in
    rw bq (
      trim_fits b ((x ∷ q) ++ tail) k
        (omega (arith, length-append_gap (x ∷ q) (m + 1) (n - m - 1) (occupied timestamp n packet)))
      ∙ (packet_at-append (x ∷ q) tail start k counts
          ∙ ground (
            arith,
            gap-packet_at (m + 1) (n - m - 1) n timestamp k packet (omega arith),
            packet_at-above (x ∷ q) start k counts,
            packet_at-below (x ∷ q) start k counts,
          )))

push_beside-stored :
    (b : JitterBuffer) (x : QueueEntry) (q : List QueueEntry) (n timestamp k : ℕ)
    (packet : RtpPacket) (entry : QueueEntry)
    → b.queue ≡ x ∷ q
    → IsContiguous (numbers (x ∷ q))
    → last? (x ∷ q) ≡ some entry
    → entry_sequence_number x ≤ n
    → HasRoom b (x ∷ q) n
    → packet_at
        (push_beside b
          (entry_sequence_number entry)
          (occupied timestamp n packet)
          (compare (entry_sequence_number entry) n)).queue
        k
      ≡ stored b.queue n packet k
push_beside-stored b x q n timestamp k packet entry bq h e reach room =
    let new = occupied timestamp n packet in
    let start = entry_sequence_number x in
    let counts : CountsFrom start (numbers (x ∷ q)) = (refl, h) in
    let ends : entry_sequence_number entry + 1 ≡ start + length (x ∷ q) =
      CountsFrom-last? start (x ∷ q) entry counts e in
    elim (compare-cases (entry_sequence_number entry) n) [
      | inl (c, lt) ↦ rw c (push_after-stored b (x ∷ q) n timestamp k packet entry bq h e lt room)
      | inr (inl (c, eq)) ↦
          let (fills, ne) = fill_last-Fills (x ∷ q) start n timestamp k packet entry counts e eq in
          rw (c, bq)
            (push_equal-stored (record b { queue = x ∷ q }) n k packet _ room.0
              (Stores-of_Fills (x ∷ q) n k packet _ fills
                (fill_last-numbers timestamp n packet (x ∷ q) entry e eq) ne))
      | inr (inr (c, gt)) ↦
          rw (c, bq)
            (push_before-stored (record b { queue = x ∷ q }) n k packet _
              (Stores-of_Fills (x ∷ q) n k packet _
                (fill-Fills (x ∷ q) start n timestamp k packet counts)
                (fill-numbers n timestamp packet (x ∷ q))
                (fill-ne-missing (x ∷ q) start n timestamp k packet counts reach (omega arith))))
    ]

-- The two ways on for a packet that is not late.
push_empty :
    (b : JitterBuffer) (timestamp n : ℕ) (packet : RtpPacket)
    → is_late b.last_sequence_number_returned n ≡ false
    → b.queue ≡ []
    → (push b timestamp n packet).queue ≡ occupied timestamp n packet ∷ []
unfolding push
push_empty b timestamp n packet fresh e =
    rw (fresh, push) (rw (ap last? e, push) (ap (λ q. q ++ (occupied timestamp n packet ∷ [])) e))

push_beside_lem :
    (b : JitterBuffer) (timestamp n : ℕ) (packet : RtpPacket) (entry : QueueEntry)
    → is_late b.last_sequence_number_returned n ≡ false
    → last? b.queue ≡ some entry
    → push b timestamp n packet
      ≡ push_beside b
          (entry_sequence_number entry)
          (occupied timestamp n packet)
          (compare (entry_sequence_number entry) n)
unfolding push
push_beside_lem b timestamp n packet entry fresh e = rw (fresh, push) (rw (e, push))

last?-some :
    (x : QueueEntry) (q : List QueueEntry) → (entry : QueueEntry) × (last? (x ∷ q) ≡ some entry)
last?-some x [] = (x, refl)
last?-some x (y ∷ q) = last?-some y q

-- As long as the limit is not passed, a packet that is not late, and not below the front of a
-- queue in order, is held afterwards under its number unless a packet was held there, and every
-- other number is held as before.
pub push-stored :
    (b : JitterBuffer) (timestamp n : ℕ) (packet : RtpPacket) (k : ℕ)
    → IsOrdered b
    → is_late b.last_sequence_number_returned n ≡ false
    → Reaches b.queue n
    → HasRoom b b.queue n
    → packet_at (push b timestamp n packet).queue k ≡ stored b.queue n packet k
push-stored b timestamp n packet k h fresh reach room = go b.queue refl h.0 reach room
  where
    go :
        (q : List QueueEntry)
        → b.queue ≡ q
        → IsContiguous (numbers q)
        → Reaches q n
        → HasRoom b q n
        → packet_at (push b timestamp n packet).queue k ≡ stored b.queue n packet k
    go [] bq c r room = rw (push_empty b timestamp n packet fresh bq, bq) (unfold packet_at in refl)
    go (x ∷ q) bq c r room =
        let (entry, e) = last?-some x q in
        rw (push_beside_lem b timestamp n packet entry fresh (ap last? bq ∙ e))
          (push_beside-stored b x q n timestamp k packet entry bq c e r room)

trim_within : (b : JitterBuffer) → length b.queue ≤ b.max_entries → trim b ≡ b
unfolding trim
trim_within b fits = ground arith

-- A packet below the front of a queue within its limit leaves no trace: it is not held, and no
-- counter counts it.
pub push_below_front :
    (b : JitterBuffer) (timestamp n : ℕ) (packet : RtpPacket) (x : QueueEntry) (q : List QueueEntry)
    → IsOrdered b
    → is_late b.last_sequence_number_returned n ≡ false
    → b.queue ≡ x ∷ q
    → n < entry_sequence_number x
    → length b.queue ≤ b.max_entries
    → push b timestamp n packet ≡ b
push_below_front b timestamp n packet x q h fresh bq below fits =
    let (entry, e) = last?-some x q in
    let start = entry_sequence_number x in
    let counts : CountsFrom start (numbers (x ∷ q)) = (refl, (rw bq at h.0)) in
    push_beside_lem b timestamp n packet entry fresh (ap last? bq ∙ e)
    ∙ below_last entry (CountsFrom-last? start (x ∷ q) entry counts e)
        (fill-missing (x ∷ q) start n (occupied timestamp n packet) counts below)
  where
    below_last :
        (entry : QueueEntry)
        → entry_sequence_number entry + 1 ≡ entry_sequence_number x + length (x ∷ q)
        → fill n (occupied timestamp n packet) (x ∷ q) ≡ missing
        → push_beside b
            (entry_sequence_number entry)
            (occupied timestamp n packet)
            (compare (entry_sequence_number entry) n)
          ≡ b
    below_last entry ends miss = elim (compare-cases (entry_sequence_number entry) n) [
      | inl (c, lt) ↦ absurd (omega arith)
      | inr (inl (c, eq)) ↦ absurd (omega arith)
      | inr (inr (c, gt)) ↦
          rw c (rw (ap (fill n (occupied timestamp n packet)) bq ∙ miss) (trim_within b fits))
    ]
