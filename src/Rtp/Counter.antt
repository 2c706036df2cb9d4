-- ===== src/Rtp/Counter.antt =====
-- media/rtp/src/lib.rs: extended sequence numbers and timestamps. A value is the number in the
-- Rust newtype. `reference` and `got` are below 2 ^ 63, so no sum passes 2 ^ 64.
pub mod ExtendedSequenceNumber
pub mod ExtendedRtpTimestamp
pub mod Nearest
pub mod Rollover
use ezk.Common.{ℕ, ◌+◌, ◌-◌, ◌*◌, ◌/◌, ltb, if◌then◌else◌}

abbrev pub u16_max : ℕ
u16_max = 65535

abbrev pub u32_max : ℕ
u32_max = 4294967295

-- `u64::abs_diff`.
unfoldable pub abs_diff : ℕ → ℕ → ℕ
abs_diff a b = if ltb a b then b - a else a - b

-- `saturating_sub(1)` is `-` on ℕ.
unfoldable pub wrapping_counter_to_u64_counter : ℕ → ℕ → ℕ → ℕ
unfolding abs_diff
wrapping_counter_to_u64_counter reference got max =
    let mul = reference / max - 1 in
    let low = mul * max + got in
    let high = (mul + 1) * max + got in
    if ltb (abs_diff low reference) (abs_diff high reference) then low else high
