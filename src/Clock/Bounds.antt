-- ===== src/Clock/Bounds.antt =====
-- Durations between instants of one era, and rounding to a window.
use arb_bot.Prelude.{◌+◌, ◌*◌, ◌/◌, ◌^◌, ◌≤◌, ◌<◌, ◌≡◌, arith, pos, pos_part, sub_ℕ, ltb_ℤ, true}
use native.Mathlib.Nat.{div-add-mod}
use arb_bot.Clock.{Time, Duration, sub_time, truncate}

-- Away from the ends a difference is exact.
pub sub_time-eq : (t u : Time) → t < 2 ^ 63 → u < 2 ^ 63 → sub_time t u ≡ sub_ℕ t u
unfolding sub_time
sub_time-eq t u h k = ground arith

-- The start of the window of length d that holds t, a multiple of d.
pub truncate-eq :
    (t : Time) (d : Duration) → ltb_ℤ (pos 0) d ≡ true → truncate t d ≡ t / pos_part d * pos_part d
unfolding truncate
truncate-eq t d h = ground (arith, div-add-mod t (pos_part d))

pub truncate_bounds :
    (t : Time) (d : Duration)
    → ltb_ℤ (pos 0) d ≡ true
    → (truncate t d ≤ t) × (t < truncate t d + pos_part d)
unfolding truncate
truncate_bounds t d h = ground arith
