-- ===== src/Rtp/Counter/Nearest.antt =====
-- What `wrapping_counter_to_u64_counter` computes: the nearer of two candidates.
use ezk.Common.{ℕ, ◌+◌, ◌-◌, ◌*◌, ◌/◌, ◌≤◌, ◌≡◌, ◌⊎◌, arith}
use ezk.Rtp.Counter.{abs_diff, wrapping_counter_to_u64_counter}

-- The guess is one of the two candidates around the reference, and no other candidate
-- `k * max + got` with `k` in that range is nearer.
guess_nearest :
    (reference got max : ℕ)
    → let g = wrapping_counter_to_u64_counter reference got max in
      let mul = reference / max - 1 in
      ((g ≡ mul * max + got) ⊎ (g ≡ (mul + 1) * max + got))
      × (abs_diff g reference ≤ abs_diff (mul * max + got) reference)
      × (abs_diff g reference ≤ abs_diff ((mul + 1) * max + got) reference)
unfolding wrapping_counter_to_u64_counter
guess_nearest reference got max = ground arith
