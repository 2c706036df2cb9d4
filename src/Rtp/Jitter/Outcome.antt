-- ===== src/Rtp/Jitter/Outcome.antt =====
-- What `pop` of media/rtp/src/session/jitter_buffer.rs does on every queue.
use mathlib.Core.Option
use ezk.Common.{
  ℕ, suc, ◌+◌, ◌≤◌, ◌≡◌, ◌∙◌, ◌⊎◌, inl, inr, refl, ap, List, [], ◌∷◌, ◌++◌, none, some, true, false,
  not, length, position, any, leb, arith, Bool-cases, All, leb→le,
}
use ezk.Rtp.Packet.{RtpPacket}
use ezk.Rtp.Jitter.{
  QueueEntry, vacant, occupied, JitterBuffer, pop_vacant, is_ready, Popped, returns, panics, pop,
  is_vacant,
}

abbrev pub IsVacant : QueueEntry → Type 0
IsVacant entry = is_vacant entry ≡ true

abbrev pub IsWaiting : ℕ → QueueEntry → Type 0
IsWaiting max_timestamp entry = is_ready max_timestamp entry ≡ false

-- The first entry that is ready, with the entries in front of it.
pub record FirstReady (max_timestamp : ℕ) (q : List QueueEntry) : Type 0 where
  pub front : List QueueEntry
  pub timestamp : ℕ
  pub number : ℕ
  pub packet : RtpPacket
  pub rest : List QueueEntry
  pub splits : q ≡ front ++ (occupied timestamp number packet ∷ rest)
  pub waiting : All (IsWaiting max_timestamp) front
  pub ready : timestamp ≤ max_timestamp
  pub position_eq : position (is_ready max_timestamp) q ≡ some (length front)

position-waiting :
    (max_timestamp : ℕ) (entry : QueueEntry) (q : List QueueEntry)
    → IsWaiting max_timestamp entry
    → position (is_ready max_timestamp) (entry ∷ q)
      ≡ Option.map suc (position (is_ready max_timestamp) q)
position-waiting max_timestamp entry q w = rw w

abbrev skip_waiting :
    (max_timestamp : ℕ) (entry : QueueEntry) (q : List QueueEntry)
    → IsWaiting max_timestamp entry
    → FirstReady max_timestamp q
    → FirstReady max_timestamp (entry ∷ q)
skip_waiting max_timestamp entry q w f = record {
  front = entry ∷ f.front;
  timestamp = f.timestamp;
  number = f.number;
  packet = f.packet;
  rest = f.rest;
  splits = ap (◌∷◌ entry) f.splits;
  waiting = (w, f.waiting);
  ready = f.ready;
  position_eq = position-waiting max_timestamp entry q w ∙ ap (Option.map suc) f.position_eq;
}

abbrev Search : ℕ → List QueueEntry → Type 0
Search max_timestamp q =
    (All (IsWaiting max_timestamp) q × (position (is_ready max_timestamp) q ≡ none))
    ⊎ FirstReady max_timestamp q

extend-Search :
    (max_timestamp : ℕ) (entry : QueueEntry) (q : List QueueEntry)
    → IsWaiting max_timestamp entry
    → Search max_timestamp q
    → Search max_timestamp (entry ∷ q)
extend-Search max_timestamp entry q w (inl (ws, e)) =
    inl ((w, ws), position-waiting max_timestamp entry q w ∙ ap (Option.map suc) e)
extend-Search max_timestamp entry q w (inr f) = inr (skip_waiting max_timestamp entry q w f)

Search-ready : (max_timestamp : ℕ) (q : List QueueEntry) → Search max_timestamp q
Search-ready max_timestamp [] = inl (tt, refl)
Search-ready max_timestamp (vacant n ∷ q) =
    extend-Search max_timestamp (vacant n) q refl (Search-ready max_timestamp q)
Search-ready max_timestamp (occupied t n packet ∷ q) = elim (Bool-cases (leb t max_timestamp)) [
  | inr late ↦
      extend-Search max_timestamp (occupied t n packet) q late (Search-ready max_timestamp q)
  | inl now ↦ inr (record {
    front = [];
    timestamp = t;
    number = n;
    packet = packet;
    rest = q;
    splits = refl;
    waiting = tt;
    ready = leb→le _ _ now;
    position_eq = rw now;
  })
]

pop_vacant-append :
    (front r : List QueueEntry)
    → All IsVacant front
    → pop_vacant (length front) (front ++ r) ≡ some r
unfolding pop_vacant
pop_vacant-append [] r h = refl
pop_vacant-append (vacant n ∷ front) r h = pop_vacant-append front r h.1
pop_vacant-append (occupied t n packet ∷ front) r h = cc (h.0)

pop_vacant-none :
    (front r : List QueueEntry)
    → any (λ entry. not (is_vacant entry)) front ≡ true
    → pop_vacant (length front) (front ++ r) ≡ none
unfolding pop_vacant
pop_vacant-none [] r h = cc
pop_vacant-none (vacant n ∷ front) r h = pop_vacant-none front r h
pop_vacant-none (occupied t n packet ∷ front) r h = refl

IsVacant-or_not :
    (front : List QueueEntry)
    → All IsVacant front ⊎ (any (λ entry. not (is_vacant entry)) front ≡ true)
IsVacant-or_not [] = inl tt
IsVacant-or_not (occupied t n packet ∷ front) = inr refl
IsVacant-or_not (vacant n ∷ front) = elim (IsVacant-or_not front) [
  | inl h ↦ inl (refl, h)
  | inr h ↦ inr h
]

-- The three ways in which `pop` ends.
pub data Outcome (b : JitterBuffer) (max_timestamp : ℕ) (r : Popped) : Type 0 where
  waits : All (IsWaiting max_timestamp) b.queue → r ≡ returns none b → Outcome b max_timestamp r
  delivers :
      (f : FirstReady max_timestamp b.queue)
      → All IsVacant f.front
      → r
        ≡ returns (some f.packet) (record b {
          queue = f.rest;
          last_sequence_number_returned = some f.number;
          lost = b.lost + length f.front;
        })
      → Outcome b max_timestamp r
  fails :
      (f : FirstReady max_timestamp b.queue)
      → any (λ entry. not (is_vacant entry)) f.front ≡ true
      → r ≡ panics
      → Outcome b max_timestamp r

-- `pop` returns nothing and changes nothing while no packet is ready; it returns the first ready
-- packet, and counts the vacant entries in front of it as lost; it fails its assertion exactly
-- when a packet that is not ready stands in front of the first ready one.
pub pop-Outcome :
    (b : JitterBuffer) (max_timestamp : ℕ) → Outcome b max_timestamp (pop b max_timestamp)
unfolding pop
pop-Outcome b max_timestamp = elim (Search-ready max_timestamp b.queue) [
  | inl (ws, e) ↦ waits ws (rw (e, pop))
  | inr f ↦ elim (IsVacant-or_not f.front) [
    | inl h ↦ delivers f h (
        ground (
          arith,
          f.position_eq,
          f.splits,
          pop_vacant-append f.front (occupied f.timestamp f.number f.packet ∷ f.rest) h,
        ))
    | inr h ↦ fails f h (
        ground (
          arith,
          f.position_eq,
          f.splits,
          pop_vacant-none f.front (occupied f.timestamp f.number f.packet ∷ f.rest) h,
        ))
  ]
]
