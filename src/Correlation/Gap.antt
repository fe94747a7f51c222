-- ===== src/Correlation/Gap.antt =====
-- The temporal correlation of two items of evidence.
use sherlock.Prelude.{
  ℕ, ◌+◌, ◌-◌, ◌≤◌, ◌<◌, ◌≡◌, refl, none, some, arith, ltb, leb, if◌then◌else◌, pos, ◌-ℤ◌, ◌<ℤ◌,
}
use sherlock.Contracts.{Evidence, Correlation, Time}
use sherlock.Duration.{
  max_ns, min_duration, sub, flip_negative, distance, flip_negative-sub, flip_negative-sub_far,
  flip_negative-sub_ahead,
}
use sherlock.Correlation.{
  temporal_window, correlation, observation_gap, temporal_strength, temporal_correlation,
}

-- The time between two intervals: nothing if they meet.
abbrev pub separation : Time → Time → Time → Time → ℕ
separation from_a to_a from_b to_b =
    if ltb to_a from_b then from_b - to_a else if ltb to_b from_a then from_a - to_b else 0

-- Times as the collectors give them: in order, and within 292 years of the other item's.
pub record IsTimed (a b : Evidence) : Type 0 where
  pub ordered_a : a.observed_at_from ≤ a.observed_at_to
  pub ordered_b : b.observed_at_from ≤ b.observed_at_to
  pub near_ab : distance b.observed_at_from a.observed_at_to ≤ max_ns
  pub near_ba : distance a.observed_at_from b.observed_at_to ≤ max_ns

pub observation_gap-eq-separation :
    (a b : Evidence)
    → IsTimed a b
    → observation_gap a b
      ≡ pos (separation a.observed_at_from a.observed_at_to b.observed_at_from b.observed_at_to)
unfolding observation_gap
observation_gap-eq-separation a b t = ground (
  arith,
  flip_negative-sub b.observed_at_from a.observed_at_to t.near_ab,
  flip_negative-sub a.observed_at_from b.observed_at_to t.near_ba,
)

temporal_strength_small :
    (g : ℕ) → g ≤ temporal_window → temporal_strength (pos g) ≡ pos (temporal_window - g)
unfolding temporal_strength ◌-ℤ◌
temporal_strength_small g h = ground arith

-- Two items with sane times are correlated exactly when at most 210 seconds separate them, and the
-- strength falls by the separation's share of the five minutes.
pub temporal_correlation_lem :
    (a b : Evidence)
    → IsTimed a b
    → temporal_correlation a b ≡ (
        let g =
          separation a.observed_at_from a.observed_at_to b.observed_at_from b.observed_at_to in
        if leb g 210000000000
        then some (correlation a b "temporal" (pos (temporal_window - g)))
        else none)
unfolding temporal_correlation temporal_strength ◌-ℤ◌
temporal_correlation_lem a b t = ground (arith, observation_gap-eq-separation a b t)

observation_gap_far :
    (a b : Evidence)
    → a.observed_at_from + max_ns < b.observed_at_to
    → a.observed_at_to < b.observed_at_from
    → flip_negative (sub b.observed_at_from a.observed_at_to) ≡ pos max_ns
    → observation_gap a b ≡ min_duration
unfolding observation_gap
observation_gap_far a b h k e =
    ground (arith, flip_negative-sub_far a.observed_at_from b.observed_at_to h)

-- An item that was observed up to a time more than 2^63 nanoseconds (292 years) before the other
-- began, such as one with unset times, is correlated with it at a strength above 1.0.
pub temporal_correlation_unset :
    (a b : Evidence)
    → a.observed_at_from + max_ns < b.observed_at_from
    → a.observed_at_to + max_ns < b.observed_at_from
    → b.observed_at_from ≤ b.observed_at_to
    → (c : Correlation) × (temporal_correlation a b ≡ some c) × (pos temporal_window <ℤ c.strength)
unfolding temporal_correlation temporal_strength ◌-ℤ◌
temporal_correlation_unset a b h k l =
    let gap : observation_gap a b ≡ min_duration =
      observation_gap_far a b (omega arith) (omega arith)
        (flip_negative-sub_ahead b.observed_at_from a.observed_at_to (omega arith)) in
    (correlation a b "temporal" (pos 9223372336854775808), rw gap refl, omega arith)
