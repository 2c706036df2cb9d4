-- ===== src/Rtp/Counter/Rollover.antt =====
-- Where the guesses of `guess_extended` go: within a cycle, at a rollover, and after it.
use ezk.Common.{ℕ, suc, ◌+◌, ◌*◌, ◌%◌, ◌^◌, ◌≤◌, ◌<◌, ◌≡◌, ◌≢◌, arith}
use ezk.Rtp.Counter.ExtendedSequenceNumber

-- After `c` cycles, the successor of a sequence number below 65535 is guessed as the successor.
guess_extended_in_order :
    (c r : ℕ)
    → r < 65535
    → ExtendedSequenceNumber.guess_extended (65535 * c + r) (r + 1) ≡ 65535 * c + r + 1
unfolding ExtendedSequenceNumber.guess_extended
guess_extended_in_order c r h = ground arith

-- At a rollover, from 65535 to 0, the guess is the reference itself, and not its successor.
guess_extended_repeats :
    (c : ℕ) → ExtendedSequenceNumber.guess_extended (65535 * suc c) 0 ≡ 65535 * suc c
unfolding ExtendedSequenceNumber.guess_extended
guess_extended_repeats c = ground arith

-- From the second rollover on, up to 2 ^ 32 - 65536, no guess ends in the 16 bits that were got.
pub guess_extended_truncates_wrong :
    (n seq : ℕ)
    → 131070 ≤ n
    → n < 65535 * 65536
    → seq < 2 ^ 16
    → ExtendedSequenceNumber.guess_extended n seq % 2 ^ 16 ≢ seq
unfolding ExtendedSequenceNumber.guess_extended
guess_extended_truncates_wrong n seq lo hi hs = ground arith
