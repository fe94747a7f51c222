-- ===== src/Duration.antt =====
-- `time.Duration`, an int64 of nanoseconds, and the operations of Go's `time` package on it.
use sherlock.Prelude.{
  ℕ, ◌+◌, ◌-◌, ◌≤◌, ◌<◌, min, ◌≡◌, arith, leb, ◌==◌, if◌then◌else◌, ℤ, pos, negsuc, ltb_ℤ,
}
use sherlock.Contracts.{Time}

abbrev pub Duration : Type 0
Duration = ℤ

abbrev pub max_ns : ℕ
max_ns = 9223372036854775807

-- -2^63
abbrev pub min_duration : Duration
min_duration = negsuc max_ns

abbrev pub second : ℕ
second = 1000000000

abbrev pub minute : ℕ
minute = 60000000000

abbrev pub hour : ℕ
hour = 3600000000000

-- `t.Sub(u)`, which saturates at the ends of int64.
unfoldable pub sub : Time → Time → Duration
sub t u = if leb u t then pos (min (t - u) max_ns) else negsuc (min (u - t - 1) max_ns)

-- `-d` on int64: the least value is its own negation.
unfoldable pub neg : Duration → Duration
neg (pos n) = if n == 0 then pos 0 else negsuc (n - 1)
neg (negsuc n) = if n == max_ns then negsuc n else pos (n + 1)

-- `if d < 0 { d = -d }`
unfoldable pub flip_negative : Duration → Duration
unfolding neg
flip_negative d = if ltb_ℤ d (pos 0) then neg d else d

-- How far apart two times are.
abbrev pub distance : Time → Time → ℕ
distance t u = if leb u t then t - u else u - t

-- Within 292 years of each other the distance is exact.
pub flip_negative-sub :
    (t u : Time) → distance t u ≤ max_ns → flip_negative (sub t u) ≡ pos (distance t u)
unfolding flip_negative sub
flip_negative-sub t u h = ground arith

-- A time more than 2^63 nanoseconds before another is at the least duration, which stays negative.
pub flip_negative-sub_far : (t u : Time) → t + max_ns < u → flip_negative (sub t u) ≡ min_duration
unfolding flip_negative sub
flip_negative-sub_far t u h = ground arith

-- The other way round it is at the greatest one.
pub flip_negative-sub_ahead : (t u : Time) → u + max_ns < t → flip_negative (sub t u) ≡ pos max_ns
unfolding flip_negative sub
flip_negative-sub_ahead t u h = ground arith
