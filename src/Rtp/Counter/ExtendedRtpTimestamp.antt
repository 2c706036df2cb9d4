-- ===== src/Rtp/Counter/ExtendedRtpTimestamp.antt =====
-- media/rtp/src/lib.rs: the methods of `ExtendedRtpTimestamp`.
use ezk.Common.{ℕ, ◌/◌, ◌%◌, ◌^◌}
use ezk.Rtp.Counter.{wrapping_counter_to_u64_counter, u32_max}

unfoldable pub truncated : ℕ → ℕ
truncated n = n % 2 ^ 32

unfoldable pub rollover_count : ℕ → ℕ
rollover_count n = n / 2 ^ 32

unfoldable pub guess_extended : ℕ → ℕ → ℕ
unfolding wrapping_counter_to_u64_counter
guess_extended n timestamp = wrapping_counter_to_u64_counter n timestamp u32_max
