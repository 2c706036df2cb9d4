-- ===== src/Rtp/Jitter/Numbers.antt =====
-- The sequence numbers of the queue in media/rtp/src/session/jitter_buffer.rs, and how the loops of
-- `push` treat them.
use ezk.Common.{
  ℕ, zero, suc, ◌+◌, ◌<◌, ◌≡◌, refl, ap, List, [], ◌∷◌, ◌++◌, Option, none, some, length, last?,
  arith,
}
use ezk.Rtp.Packet.{RtpPacket}
use ezk.Rtp.Jitter.{
  QueueEntry, vacant, occupied, entry_sequence_number, JitterBuffer, Filled, filled, duplicate,
  missing, fill, fill_last, vacancies,
}

abbrev pub numbers : List QueueEntry → List ℕ
numbers [] = []
numbers (entry ∷ rest) = entry_sequence_number entry ∷ numbers rest

-- The numbers count up from `n`, without a gap.
abbrev pub CountsFrom : ℕ → List ℕ → Type 0
CountsFrom n [] = Unit {0}
CountsFrom n (m ∷ rest) = (m ≡ n) × CountsFrom (suc n) rest

abbrev pub IsContiguous : List ℕ → Type 0
IsContiguous [] = Unit {0}
IsContiguous (m ∷ rest) = CountsFrom (suc m) rest

-- The front of the queue is above the last number that was returned.
abbrev pub IsAbove : Option ℕ → List ℕ → Type 0
IsAbove none ns = Unit {0}
IsAbove (some last) [] = Unit {0}
IsAbove (some last) (m ∷ rest) = last < m

abbrev pub Ordered : Option ℕ → List ℕ → Type 0
Ordered last ns = IsContiguous ns × IsAbove last ns

abbrev pub IsOrdered : JitterBuffer → Type 0
IsOrdered b = Ordered b.last_sequence_number_returned (numbers b.queue)

pub numbers-append : (q r : List QueueEntry) → numbers (q ++ r) ≡ numbers q ++ numbers r
numbers-append [] r = refl
numbers-append (entry ∷ q) r = ap (◌∷◌ (entry_sequence_number entry)) (numbers-append q r)

pub CountsFrom-append :
    (n k : ℕ) (ns ms : List ℕ)
    → CountsFrom n ns
    → k ≡ n + length ns
    → CountsFrom k ms
    → CountsFrom n (ns ++ ms)
CountsFrom-append n k [] ms hn e hm = let e' : n ≡ k = omega arith in rw e' hm
CountsFrom-append n k (m ∷ ns) ms hn e hm =
    (hn.0, CountsFrom-append (suc n) k ns ms hn.1 (omega arith) hm)

pub vacancies-CountsFrom : (n count : ℕ) → CountsFrom n (numbers (vacancies n count))
unfolding vacancies
vacancies-CountsFrom n zero = tt
vacancies-CountsFrom n (suc count) = (refl, vacancies-CountsFrom (suc n) count)

pub length-vacancies : (n count : ℕ) → length (vacancies n count) ≡ count
unfolding vacancies
length-vacancies n zero = refl
length-vacancies n (suc count) = ap suc (length-vacancies (suc n) count)

pub length-numbers : (q : List QueueEntry) → length (numbers q) ≡ length q
length-numbers [] = refl
length-numbers (entry ∷ q) = ap suc (length-numbers q)

-- The last entry of a queue that counts from `n`.
pub CountsFrom-last? :
    (n : ℕ) (q : List QueueEntry) (entry : QueueEntry)
    → CountsFrom n (numbers q)
    → last? q ≡ some entry
    → entry_sequence_number entry + 1 ≡ n + length q
CountsFrom-last? n [] entry h e = cc
CountsFrom-last? n (x ∷ []) entry h e = ground arith
CountsFrom-last? n (x ∷ y ∷ q) entry h e =
    omega (arith, CountsFrom-last? (suc n) (y ∷ q) entry h.1 e)

abbrev pub IsFilled : List QueueEntry → Filled → Type 0
IsFilled q (filled r) = numbers r ≡ numbers q
IsFilled q duplicate = Unit {0}
IsFilled q missing = Unit {0}

-- Filling an entry changes no sequence number.
pub fill-numbers :
    (seq timestamp : ℕ) (packet : RtpPacket) (q : List QueueEntry)
    → IsFilled q (fill seq (occupied timestamp seq packet) q)
unfolding fill
fill-numbers seq timestamp packet [] = tt
fill-numbers seq timestamp packet (vacant n ∷ q) =
    ground (arith, fill-numbers seq timestamp packet q)
fill-numbers seq timestamp packet (occupied t n p ∷ q) =
    ground (arith, fill-numbers seq timestamp packet q)

pub fill_last-numbers :
    (timestamp seq : ℕ) (packet : RtpPacket) (q : List QueueEntry) (last : QueueEntry)
    → last? q ≡ some last
    → entry_sequence_number last ≡ seq
    → IsFilled q (fill_last (occupied timestamp seq packet) q)
unfolding fill_last
fill_last-numbers timestamp seq packet [] last e h = tt
fill_last-numbers timestamp seq packet (vacant n ∷ []) last e h = ground arith
fill_last-numbers timestamp seq packet (occupied t n p ∷ []) last e h = tt
fill_last-numbers timestamp seq packet (x ∷ y ∷ q) last e h =
    ground (arith, fill_last-numbers timestamp seq packet (y ∷ q) last e h)
