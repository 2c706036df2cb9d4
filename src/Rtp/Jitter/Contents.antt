-- ===== src/Rtp/Jitter/Contents.antt =====
-- The jitter buffer of media/rtp/src/session/jitter_buffer.rs seen as a finite map from sequence
-- numbers to packets.
use ezk.Common.{
  ℕ, suc, ◌+◌, ◌≤◌, ◌<◌, ◌≡◌, refl, List, [], ◌∷◌, ◌++◌, Option, none, some, length, arith, ltb,
  if◌then◌else◌, ◌==◌,
}
use ezk.Rtp.Packet.{RtpPacket}
use ezk.Rtp.Jitter.{
  QueueEntry, vacant, occupied, entry_sequence_number, Filled, filled, duplicate, missing, fill,
}
use ezk.Rtp.Jitter.Numbers.{numbers, CountsFrom}

abbrev pub packet_of : QueueEntry → Option RtpPacket
packet_of (vacant n) = none
packet_of (occupied timestamp n packet) = some packet

-- The packet that is held under a sequence number.
unfoldable pub packet_at : List QueueEntry → ℕ → Option RtpPacket
packet_at [] k = none
packet_at (entry ∷ q) k =
    if entry_sequence_number entry == k then packet_of entry else packet_at q k

abbrev pub or_else : Option RtpPacket → Option RtpPacket → Option RtpPacket
or_else none o = o
or_else (some packet) o = some packet

-- A packet that is already held stays; otherwise the new one is held under its number.
abbrev pub stored : List QueueEntry → ℕ → RtpPacket → ℕ → Option RtpPacket
stored q n packet k = if n == k then or_else (packet_at q k) (some packet) else packet_at q k

pub packet_at-below :
    (q : List QueueEntry) (m k : ℕ) → CountsFrom m (numbers q) → k < m → packet_at q k ≡ none
unfolding packet_at
packet_at-below [] m k h lt = refl
packet_at-below (x ∷ q) m k h lt = ground (arith, packet_at-below q (suc m) k h.1 (omega arith))

pub packet_at-above :
    (q : List QueueEntry) (m k : ℕ)
    → CountsFrom m (numbers q)
    → m + length q ≤ k
    → packet_at q k ≡ none
unfolding packet_at
packet_at-above [] m k h lt = refl
packet_at-above (x ∷ q) m k h lt = ground (arith, packet_at-above q (suc m) k h.1 (omega arith))

pub packet_at-append :
    (q r : List QueueEntry) (m k : ℕ)
    → CountsFrom m (numbers q)
    → packet_at (q ++ r) k ≡ (
        if ltb k m
        then packet_at r k
        else if ltb k (m + length q)
        then packet_at q k
        else packet_at r k)
unfolding packet_at
packet_at-append [] r m k h = ground arith
packet_at-append (x ∷ q) r m k h = ground (arith, packet_at-append q r (suc m) k h.1)

-- What `fill` says of the map, by its answer.
abbrev pub Fills : List QueueEntry → ℕ → RtpPacket → ℕ → Filled → Type 0
Fills q n packet k (filled r) = packet_at r k ≡ stored q n packet k
Fills q n packet k duplicate = packet_at q k ≡ stored q n packet k
Fills q n packet k missing = Unit {0}

-- A number below the queue is not found.
pub fill-missing :
    (q : List QueueEntry) (m n : ℕ) (new : QueueEntry)
    → CountsFrom m (numbers q)
    → n < m
    → fill n new q ≡ missing
unfolding fill
fill-missing [] m n new h lt = refl
fill-missing (x ∷ q) m n new h lt = ground (arith, fill-missing q (suc m) n new h.1 (omega arith))

pub fill-Fills :
    (q : List QueueEntry) (m n timestamp k : ℕ) (packet : RtpPacket)
    → CountsFrom m (numbers q)
    → Fills q n packet k (fill n (occupied timestamp n packet) q)
unfolding packet_at fill
fill-Fills [] m n timestamp k packet h = tt
fill-Fills (vacant i ∷ q) m n timestamp k packet h = ground (
  arith,
  fill-Fills q (suc m) n timestamp k packet h.1,
  packet_at-below q (suc m) k h.1,
  fill-missing q (suc m) n (occupied timestamp n packet) h.1,
)
fill-Fills (occupied t i p ∷ q) m n timestamp k packet h = ground (
  arith,
  fill-Fills q (suc m) n timestamp k packet h.1,
  packet_at-below q (suc m) k h.1,
  fill-missing q (suc m) n (occupied timestamp n packet) h.1,
)
