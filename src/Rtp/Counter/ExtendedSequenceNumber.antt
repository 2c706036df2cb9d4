-- ===== src/Rtp/Counter/ExtendedSequenceNumber.antt =====
-- media/rtp/src/lib.rs: the methods of `ExtendedSequenceNumber`.
use ezk.Common.{ℕ, ◌+◌, ◌/◌, ◌%◌, ◌^◌}
use ezk.Rtp.Counter.{wrapping_counter_to_u64_counter, u16_max}

-- The new counter, and the 16 bits that are sent.
unfoldable pub increase_one : ℕ → ℕ × ℕ
increase_one n = (n + 1, (n + 1) % 2 ^ 16)

unfoldable pub rollover_count : ℕ → ℕ
rollover_count n = n / 2 ^ 16

unfoldable pub guess_extended : ℕ → ℕ → ℕ
unfolding wrapping_counter_to_u64_counter
guess_extended n seq = wrapping_counter_to_u64_counter n seq u16_max
