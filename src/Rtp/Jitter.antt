-- ===== src/Rtp/Jitter.antt =====
-- media/rtp/src/session/jitter_buffer.rs. The head of `queue` is the front of the deque.
-- The counters count packets of one session and stay below 2 ^ 64.
pub mod Numbers
pub mod Invariant
pub mod Outcome
pub mod Accounting
pub mod Contents
pub mod Stores
pub mod Refinement
pub mod Delivery
use ezk.Common.{
  ℕ, suc, ◌+◌, ◌-◌, List, [], ◌∷◌, ◌++◌, Option, none, some, Bool, true, false, length, last?,
  position, leb, ltb, ◌==◌, if◌then◌else◌,
}
use Prim.Native.Nat.{compare, Ordering}
use ezk.Rtp.Packet.{RtpPacket}

pub data QueueEntry : Type 0 where
  vacant : ℕ → QueueEntry
  occupied : ℕ → ℕ → RtpPacket → QueueEntry

abbrev pub entry_sequence_number : QueueEntry → ℕ
entry_sequence_number (vacant n) = n
entry_sequence_number (occupied timestamp n packet) = n

abbrev pub is_vacant : QueueEntry → Bool
is_vacant (vacant n) = true
is_vacant (occupied timestamp n packet) = false

pub record JitterBuffer : Type 0 where
  pub max_entries : ℕ
  pub queue : List QueueEntry
  pub last_sequence_number_returned : Option ℕ
  pub dropped : ℕ
  pub received : ℕ
  pub lost : ℕ

abbrev pub default : JitterBuffer
default = record {
  max_entries = 1000;
  queue = [];
  last_sequence_number_returned = none;
  dropped = 0;
  received = 0;
  lost = 0;
}

-- What the loop of `push` over the queue, from the back, finds at a sequence number.
pub data Filled : Type 0 where
  filled : List QueueEntry → Filled
  duplicate missing : Filled

abbrev replace_vacant : QueueEntry → QueueEntry → List QueueEntry → Filled
replace_vacant new (vacant n) rest = filled (new ∷ rest)
replace_vacant new (occupied timestamp n packet) rest = duplicate

abbrev keep_front : QueueEntry → Filled → Filled
keep_front entry (filled q) = filled (entry ∷ q)
keep_front entry duplicate = duplicate
keep_front entry missing = missing

-- The entries behind `entry` are looked at first, as by `iter_mut().rev()`.
abbrev fill_step : ℕ → QueueEntry → QueueEntry → List QueueEntry → Filled → Filled
fill_step n new entry rest (filled q) = filled (entry ∷ q)
fill_step n new entry rest duplicate = duplicate
fill_step n new entry rest missing =
    if entry_sequence_number entry == n then replace_vacant new entry rest else missing

unfoldable pub fill : ℕ → QueueEntry → List QueueEntry → Filled
fill n new [] = missing
fill n new (entry ∷ rest) = fill_step n new entry rest (fill n new rest)

-- The last entry alone, as `back_mut` gives it.
unfoldable pub fill_last : QueueEntry → List QueueEntry → Filled
fill_last new [] = missing
fill_last new (entry ∷ []) = replace_vacant new entry []
fill_last new (entry ∷ next ∷ rest) = keep_front entry (fill_last new (next ∷ rest))

-- `for i in 1..gap { push_back(Vacant(entry_seq + i)) }`, from `n` on.
unfoldable pub vacancies : ℕ → ℕ → List QueueEntry
vacancies n ℕ.zero = []
vacancies n (suc count) = vacant n ∷ vacancies (suc n) count

abbrev pop_front : List QueueEntry → List QueueEntry
pop_front [] = []
pop_front (entry ∷ rest) = rest

-- The end of `push`: one entry goes when the queue is too long.
unfoldable pub trim : JitterBuffer → JitterBuffer
trim b =
    if ltb b.max_entries (length b.queue)
    then record b { queue = pop_front b.queue; dropped = b.dropped + 1 }
    else b

unfoldable pub drop_packet : JitterBuffer → JitterBuffer
drop_packet b = record b { dropped = b.dropped + 1 }

-- `Ordering::Greater`: a duplicate returns before the queue is trimmed.
abbrev push_before : JitterBuffer → Filled → JitterBuffer
push_before b (filled q) = record b { queue = q }
push_before b duplicate = drop_packet b
push_before b missing = trim b

-- `Ordering::Equal`: the last entry is filled if it is vacant.
abbrev push_equal : JitterBuffer → Filled → JitterBuffer
push_equal b (filled q) = trim (record b { queue = q })
push_equal b duplicate = trim (drop_packet b)
push_equal b missing = trim b

-- `Ordering::Less`: the gap is filled with vacant entries.
abbrev push_after : JitterBuffer → ℕ → QueueEntry → JitterBuffer
push_after b last new =
    let n = entry_sequence_number new in
    trim (record b { queue = b.queue ++ (vacancies (last + 1) (n - last - 1) ++ (new ∷ [])) })

abbrev push_beside : JitterBuffer → ℕ → QueueEntry → Ordering → JitterBuffer
push_beside b last new Ordering.gt = push_before b (fill (entry_sequence_number new) new b.queue)
push_beside b last new Ordering.eq = push_equal b (fill_last new b.queue)
push_beside b last new Ordering.lt = push_after b last new

abbrev is_late : Option ℕ → ℕ → Bool
is_late none n = false
is_late (some last) n = leb n last

unfoldable pub push : JitterBuffer → ℕ → ℕ → RtpPacket → JitterBuffer
unfolding fill fill_last vacancies trim drop_packet
push b timestamp n packet =
    let new = occupied timestamp n packet in
    if is_late b.last_sequence_number_returned n then drop_packet b else elim (last? b.queue) [
      | none ↦ record b { queue = b.queue ++ (new ∷ []) }
      | some entry ↦
          push_beside b (entry_sequence_number entry) new (compare (entry_sequence_number entry) n)
    ]

abbrev pub is_ready : ℕ → QueueEntry → Bool
is_ready max_timestamp (vacant n) = false
is_ready max_timestamp (occupied timestamp n packet) = leb timestamp max_timestamp

-- `none` is the failed assertion: a packet stands where a vacant entry has to.
unfoldable pub pop_vacant : ℕ → List QueueEntry → Option (List QueueEntry)
pop_vacant ℕ.zero q = some q
pop_vacant (suc count) [] = none
pop_vacant (suc count) (vacant n ∷ q) = pop_vacant count q
pop_vacant (suc count) (occupied timestamp n packet ∷ q) = none

-- `panics` is a failed assertion or the `unreachable!()`.
pub data Popped : Type 0 where
  returns : Option RtpPacket → JitterBuffer → Popped
  panics : Popped

abbrev pop_packet : JitterBuffer → List QueueEntry → Popped
pop_packet b [] = panics
pop_packet b (vacant n ∷ q) = panics
pop_packet b (occupied timestamp n packet ∷ q) =
    returns (some packet) (record b { queue = q; last_sequence_number_returned = some n })

abbrev pop_behind : JitterBuffer → ℕ → Option (List QueueEntry) → Popped
pop_behind b count none = panics
pop_behind b count (some q) = pop_packet (record b { lost = b.lost + count }) q

unfoldable pub pop : JitterBuffer → ℕ → Popped
unfolding pop_vacant
pop b max_timestamp = elim (position (is_ready max_timestamp) b.queue) [
  | none ↦ returns none b
  | some count ↦ pop_behind b count (pop_vacant count b.queue)
]

unfoldable pub timestamp_of_earliest_packet : List QueueEntry → Option ℕ
timestamp_of_earliest_packet [] = none
timestamp_of_earliest_packet (vacant n ∷ q) = timestamp_of_earliest_packet q
timestamp_of_earliest_packet (occupied timestamp n packet ∷ q) = some timestamp
