-- ===== src/Funding/Window.antt =====
-- The funding window after an instant, and the jitter of a synthetic rate.
use arb_bot.Prelude.{ℕ, ◌+◌, ◌*◌, ◌/◌, ◌≤◌, ◌<◌, ◌≡◌, ◌≢◌, arith, pos, negsuc, ◌≤ℤ◌, Text}
use arb_bot.Clock.{Time}
use arb_bot.Clock.Bounds.{truncate-eq, truncate_bounds}
use arb_bot.Funding.{next_funding_window, jitter_steps}

-- For an instant t and an interval d > 0 the next window is the first multiple of d after t.
pub next_funding_window_lem :
    (clock t : Time) (d : ℕ)
    → t ≢ 0
    → 0 < d
    → (next_funding_window clock t (pos d) ≡ (t / d + 1) * d)
      × (t < next_funding_window clock t (pos d))
      × (next_funding_window clock t (pos d) ≤ t + d)
unfolding next_funding_window
next_funding_window_lem clock t d n h =
    ground (arith, truncate-eq t (pos d), truncate_bounds t (pos d))

-- So instants of one window share it, and no update moves it back.
pub next_funding_window_mono :
    (clock t u : Time) (d : ℕ)
    → t ≢ 0
    → 0 < d
    → t ≤ u
    → next_funding_window clock t (pos d) ≤ next_funding_window clock u (pos d)
next_funding_window_mono clock t u d n h k = grind (
  arith,
  next_funding_window_lem clock t d n h,
  next_funding_window_lem clock u d (omega arith) h,
)

-- The jitter is a whole number of steps from -4 to 4.
pub jitter_steps_bounds :
    (symbol : Text) → (negsuc 3 ≤ℤ jitter_steps symbol) × (jitter_steps symbol ≤ℤ pos 4)
unfolding jitter_steps
jitter_steps_bounds symbol = ground arith
