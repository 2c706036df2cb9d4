-- ===== src/Rtp/Jitter/Stores.antt =====
-- The loops of `push` in media/rtp/src/session/jitter_buffer.rs put a packet in its place.
use ezk.Common.{
  ℕ, suc, ◌+◌, ◌≤◌, ◌<◌, ◌≡◌, refl, ap, ◌∙◌, List, [], ◌∷◌, some, length, arith, last?,
}
use ezk.Rtp.Packet.{RtpPacket}
use ezk.Rtp.Jitter.{
  QueueEntry, vacant, occupied, entry_sequence_number, JitterBuffer, trim, drop_packet, push_before,
  push_equal, Filled, filled, duplicate, missing, fill, fill_last, keep_front,
}
use ezk.Rtp.Jitter.Numbers.{numbers, CountsFrom, CountsFrom-last?, length-numbers, IsFilled}
use ezk.Rtp.Jitter.Contents.{packet_at, stored, packet_at-below, Fills}

-- The number is not below the front of the queue.
abbrev pub Reaches : List QueueEntry → ℕ → Type 0
Reaches [] n = Unit {0}
Reaches (entry ∷ q) n = entry_sequence_number entry ≤ n

-- The queue is within the limit, and stays so when the gap up to `n` is filled.
abbrev pub HasRoom : JitterBuffer → List QueueEntry → ℕ → Type 0
HasRoom b [] n = Unit {0}
HasRoom b (entry ∷ q) n =
    (length (entry ∷ q) ≤ b.max_entries) × (n < entry_sequence_number entry + b.max_entries)

-- An answer of one of the loops of `push` that puts the packet in its place.
abbrev pub Stores : List QueueEntry → ℕ → RtpPacket → ℕ → Filled → Type 0
Stores q n packet k (filled r) = (packet_at r k ≡ stored q n packet k) × (length r ≡ length q)
Stores q n packet k duplicate = packet_at q k ≡ stored q n packet k
Stores q n packet k missing = ⊥

pub fill-ne-missing :
    (q : List QueueEntry) (m n timestamp k : ℕ) (packet : RtpPacket)
    → CountsFrom m (numbers q)
    → m ≤ n
    → n < m + length q
    → fill n (occupied timestamp n packet) q ≡ missing
    → ⊥
unfolding fill
fill-ne-missing [] m n timestamp k packet h lo hi e = omega arith
fill-ne-missing (vacant i ∷ q) m n timestamp k packet h lo hi e =
    ground (arith, fill-ne-missing q (suc m) n timestamp k packet h.1)
fill-ne-missing (occupied t i p ∷ q) m n timestamp k packet h lo hi e =
    ground (arith, fill-ne-missing q (suc m) n timestamp k packet h.1)

same_length : (q r : List QueueEntry) → numbers r ≡ numbers q → length r ≡ length q
same_length q r e = omega (arith, ap length e, length-numbers q, length-numbers r)

pub Stores-of_Fills :
    (q : List QueueEntry) (n k : ℕ) (packet : RtpPacket) (f : Filled)
    → Fills q n packet k f
    → IsFilled q f
    → (f ≡ missing → ⊥)
    → Stores q n packet k f
Stores-of_Fills q n k packet (filled r) h e ne = (h, same_length q r e)
Stores-of_Fills q n k packet duplicate h e ne = h
Stores-of_Fills q n k packet missing h e ne = ne refl

keep_front-Fills :
    (x : QueueEntry) (q : List QueueEntry) (m n k : ℕ) (packet : RtpPacket) (f : Filled)
    → CountsFrom m (numbers (x ∷ q))
    → m < n
    → Fills q n packet k f × (f ≡ missing → ⊥)
    → Fills (x ∷ q) n packet k (keep_front x f) × (keep_front x f ≡ missing → ⊥)
unfolding packet_at
keep_front-Fills x q m n k packet (filled r) h lt (e, ne) =
    (ground (arith, packet_at-below q (suc m) k h.1), λ bad. cc)
keep_front-Fills x q m n k packet duplicate h lt (e, ne) =
    (ground (arith, packet_at-below q (suc m) k h.1), λ bad. cc)
keep_front-Fills x q m n k packet missing h lt (e, ne) = absurd (ne refl)

pub fill_last-Fills :
    (q : List QueueEntry) (m n timestamp k : ℕ) (packet : RtpPacket) (last : QueueEntry)
    → CountsFrom m (numbers q)
    → last? q ≡ some last
    → entry_sequence_number last ≡ n
    → Fills q n packet k (fill_last (occupied timestamp n packet) q)
      × (fill_last (occupied timestamp n packet) q ≡ missing → ⊥)
unfolding fill_last packet_at
fill_last-Fills [] m n timestamp k packet last h e eq = cc
fill_last-Fills (vacant i ∷ []) m n timestamp k packet last h e eq = (ground arith, λ bad. cc)
fill_last-Fills (occupied t i p ∷ []) m n timestamp k packet last h e eq = (ground arith, λ bad. cc)
fill_last-Fills (x ∷ y ∷ q) m n timestamp k packet last h e eq =
    keep_front-Fills x (y ∷ q) m n k packet _ h
      (omega (arith, CountsFrom-last? (suc m) (y ∷ q) last h.1 e))
      (fill_last-Fills (y ∷ q) (suc m) n timestamp k packet last h.1 e eq)

pub trim_fits :
    (b : JitterBuffer) (q : List QueueEntry) (k : ℕ)
    → length q ≤ b.max_entries
    → packet_at (trim (record b { queue = q })).queue k ≡ packet_at q k
unfolding trim
trim_fits b q k h = ground arith

pub push_before-stored :
    (b : JitterBuffer) (n k : ℕ) (packet : RtpPacket) (f : Filled)
    → Stores b.queue n packet k f
    → packet_at (push_before b f).queue k ≡ stored b.queue n packet k
unfolding drop_packet
push_before-stored b n k packet (filled q) h = h.0
push_before-stored b n k packet duplicate h = h
push_before-stored b n k packet missing h = absurd h

pub push_equal-stored :
    (b : JitterBuffer) (n k : ℕ) (packet : RtpPacket) (f : Filled)
    → length b.queue ≤ b.max_entries
    → Stores b.queue n packet k f
    → packet_at (push_equal b f).queue k ≡ stored b.queue n packet k
unfolding drop_packet
push_equal-stored b n k packet (filled q) fits h = trim_fits b q k (omega (arith, h.1)) ∙ h.0
push_equal-stored b n k packet duplicate fits h = trim_fits (drop_packet b) b.queue k fits ∙ h
push_equal-stored b n k packet missing fits h = absurd h
