-- ===== src/Rca/DeployRule/Window.antt =====
-- The two tests of how close two times are.
use sherlock.Prelude.{ℕ, ◌+◌, ◌*◌, ◌≤◌, ◌<◌, ◌≡◌, true, arith, leb, if◌then◌else◌, pos}
use sherlock.Contracts.{Time}
use sherlock.Duration.{max_ns, minute, hour, distance, flip_negative-sub, flip_negative-sub_far}
use sherlock.Rca.DeployRule.{proximity_confidence, within_window}

-- Of two times within 292 years of each other, the confidence is 80 up to 30 minutes apart, 70 up to
-- an hour, 50 up to two hours, and 0 beyond; and they are in a window exactly if they are no further
-- apart than it is long.
pub proximity_confidence_lem :
    (deploy_time alert_time : Time) (window : ℕ)
    → distance alert_time deploy_time ≤ max_ns
    → (proximity_confidence deploy_time alert_time ≡ (
        let d = distance alert_time deploy_time in
        if leb d (30 * minute)
        then 80
        else if leb d hour
        then 70
        else if leb d (2 * hour)
        then 50
        else 0))
      × (within_window alert_time deploy_time (pos window)
          ≡ leb (distance alert_time deploy_time) window)
unfolding proximity_confidence within_window
proximity_confidence_lem deploy_time alert_time window h =
    let e = flip_negative-sub alert_time deploy_time h in (ground (arith, e), ground (arith, e))

-- A time more than 2^63 nanoseconds (292 years) before the other, such as one that was never set, is
-- within every window of it.
pub within_window_far :
    (t u : Time) (window : ℕ) → t + max_ns < u → within_window t u (pos window) ≡ true
unfolding within_window
within_window_far t u window h = ground (arith, flip_negative-sub_far t u h)
