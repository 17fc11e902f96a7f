-- ===== src/Clock.antt =====
-- Go's `time` package, as far as the program uses it. An instant is the number of nanoseconds since
-- the zero time (January 1 of year 1, UTC); instants before it do not occur. A duration is an
-- `int64` number of nanoseconds. `t.UTC()` is the same instant.
pub mod Bounds
use arb_bot.Prelude.{
  ℕ, ◌+◌, ◌-◌, ◌*◌, ◌^◌, ◌%◌, Bool, ltb, ◌==◌, nat_eq, if◌then◌else◌, ℤ, pos, negsuc, pos_part,
  neg_part, sub_ℕ, ltb_ℤ, wrap64,
}

abbrev pub Time : Type 0
Time = ℕ

abbrev pub Duration : Type 0
Duration = ℤ

abbrev pub zero_time : Time
zero_time = 0

abbrev pub millisecond : ℕ
millisecond = 1_000_000

abbrev pub second : ℕ
second = 1_000_000_000

abbrev pub minute : ℕ
minute = 60_000_000_000

abbrev pub hour : ℕ
hour = 3_600_000_000_000

abbrev pub is_zero : Time → Bool
is_zero t = t == 0

-- `a.Before(b)`.
abbrev pub before : Time → Time → Bool
before a b = ltb a b

-- `t.Sub(u)` saturates at the ends of `int64`.
unfoldable pub saturate : ℤ → Duration
saturate z =
    if ltb_ℤ (pos (2 ^ 63 - 1)) z
    then pos (2 ^ 63 - 1)
    else if ltb_ℤ z (negsuc (2 ^ 63 - 1))
    then negsuc (2 ^ 63 - 1)
    else z

unfoldable pub sub_time : Time → Time → Duration
unfolding saturate
sub_time t u = saturate (sub_ℕ t u)

-- `t.Add(d)`, for results that are not before the zero time.
abbrev pub add_time : Time → Duration → Time
add_time t d = t + pos_part d - neg_part d

-- `t.Truncate(d)` rounds down to a multiple of d since the zero time, and is t for d <= 0.
unfoldable pub truncate : Time → Duration → Time
truncate t d = if ltb_ℤ (pos 0) d then t - t % pos_part d else t

-- `t.UnixNano()`, with the overflow of the `int64`.
unfoldable pub unix_nano : Time → ℤ
unix_nano t = wrap64 (sub_ℕ t (62_135_596_800 * second))

-- `time.Duration(n) * unit`.
unfoldable pub times : ℤ → ℕ → Duration
times n unit = wrap64 (sub_ℕ (pos_part n * unit) (neg_part n * unit))
