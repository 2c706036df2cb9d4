-- ===== src/Tests/Rtp.antt =====
-- The RTP components on concrete packets.
use ezk.Common.{
  ℕ, ◌+◌, ◌*◌, ◌%◌, ◌^◌, ◌≤◌, ◌<◌, ◌≡◌, ◌≢◌, refl, List, [], ◌∷◌, none, some, true, length, arith,
}
use ezk.Common.BufMut.{vec}
use ezk.Rtp.Packet.{RtpPacket}
use ezk.Rtp.Counter.ExtendedSequenceNumber
use ezk.Rtp.Counter.Rollover.{guess_extended_truncates_wrong}
use ezk.Rtp.Jitter.{vacant, occupied, JitterBuffer, default, push, pop}
use ezk.Rtp.Jitter.Numbers.{IsOrdered}
use ezk.Rtp.Jitter.Contents.{packet_at, stored}
use ezk.Rtp.Jitter.Invariant.{push-IsOrdered}
use ezk.Rtp.Jitter.Outcome.{Outcome, pop-Outcome}
use ezk.Rtp.Jitter.Refinement.{push-stored, push_below_front}
use ezk.Rtp.Jitter.Delivery.{Call, pushes, pops, delivered, Increases, delivered-Increases}
use ezk.Rtp.Extensions.{
  RtpExtensionsWriter, new, finish, parse_twobyte, parse_extensions, write, extension,
}
use ezk.Rtp.Extensions.TwoByte.{IsItem, with_all, parse_twobyte-with_all}
use ezk.Rtp.Extensions.Mid.{write_unreadable, with_mid, under}

abbrev packet : ℕ → RtpPacket
packet n = record {
  pt = 96;
  sequence_number = n;
  ssrc = 7;
  timestamp = 160 * n;
  extensions = record { mid = none };
  payload = 1 ∷ 2 ∷ [];
}

-- Two packets and a gap between them, behind the packet 4.
abbrev buffer : JitterBuffer
buffer = record default {
  queue = occupied 800 5 (packet 5) ∷ vacant 6 ∷ occupied 1120 7 (packet 7) ∷ [];
  last_sequence_number_returned = some 4;
}

abbrev calls : List Call
calls =
    pushes 960 6 (packet 6)
    ∷ pops 900
    ∷ pushes 1600 10 (packet 10)
    ∷ pops 2000
    ∷ pops 2000
    ∷ pops 2000
    ∷ []

delivered-calls : delivered buffer calls ≡ 5 ∷ 6 ∷ 7 ∷ 10 ∷ []
unfolding delivered push pop
delivered-calls = refl

delivered-Increases_example : Increases (some 4) (delivered buffer calls)
delivered-Increases_example = delivered-Increases buffer calls ((refl, (refl, tt)), omega arith)

push-IsOrdered_example : IsOrdered (push buffer 1600 10 (packet 10))
push-IsOrdered_example = push-IsOrdered buffer 1600 10 (packet 10) ((refl, (refl, tt)), omega arith)

push-stored_example :
    packet_at (push buffer 960 6 (packet 6)).queue 6 ≡ stored buffer.queue 6 (packet 6) 6
push-stored_example =
    push-stored buffer 960 6 (packet 6) 6 ((refl, (refl, tt)), omega arith) refl (omega arith)
      (omega arith, omega arith)

-- The packet 5 comes after the packet 6, with which the queue begins.
abbrev buffer_six : JitterBuffer
buffer_six = record default { queue = occupied 960 6 (packet 6) ∷ [] }

push_below_front_example : push buffer_six 800 5 (packet 5) ≡ buffer_six
push_below_front_example =
    push_below_front buffer_six 800 5 (packet 5) (occupied 960 6 (packet 6)) [] (tt, tt) refl refl
      (omega arith) (omega arith)

pop-Outcome_example : Outcome buffer 900 (pop buffer 900)
pop-Outcome_example = pop-Outcome buffer 900

guess_extended_truncates_wrong_example :
    ExtendedSequenceNumber.guess_extended 200000 3400 % 2 ^ 16 ≢ 3400
guess_extended_truncates_wrong_example =
    guess_extended_truncates_wrong 200000 3400 (omega arith) (omega arith) (omega arith)

abbrev items : List (ℕ × List ℕ)
items = (3, 1 ∷ 2 ∷ []) ∷ (4, []) ∷ []

IsItem-short :
    (id : ℕ) (bytes : List ℕ) → length bytes ≤ 255 → 0 < id + length bytes → IsItem (id, bytes)
IsItem-short id bytes s n = record { short = s; not_padding = n }

parse_twobyte-with_all_example :
    (w : RtpExtensionsWriter) × (with_all vec (new vec [] true) items ≡ some w)
    × (length (finish vec w).1 % 4 ≡ 0)
    × (parse_twobyte (length (finish vec w).1) (finish vec w).1 ≡ items)
parse_twobyte-with_all_example = parse_twobyte-with_all vec items (
  IsItem-short 3 (1 ∷ 2 ∷ []) (omega arith) (omega arith),
  (IsItem-short 4 [] (omega arith) (omega arith), tt),
)

mid_written : write vec (with_mid (65 ∷ [])) (under 3) ≡ extension 0xbede (3 ∷ 1 ∷ 65 ∷ 0 ∷ [])
unfolding write vec
mid_written = refl

write_unreadable_example : parse_extensions 0xbede (3 ∷ 1 ∷ 65 ∷ 0 ∷ []) ≢ (3, 65 ∷ []) ∷ []
write_unreadable_example =
    write_unreadable vec 3 (65 ∷ []) (3 ∷ 1 ∷ 65 ∷ 0 ∷ []) 0xbede (omega arith) (omega arith)
      mid_written
