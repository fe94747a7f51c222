-- ===== src/CircuitBreaker/Steps.antt =====
-- Calls that overlap: any interleaving of critical sections keeps the invariant.
use sherlock.Prelude.{ℕ, suc, ◌≤◌, ◌<◌, ◌≡◌, ◌≢◌, true, false, ℤ}
use sherlock.Contracts.{Time}
use sherlock.Duration.{Duration}
use sherlock.CircuitBreaker.{closed, Breaker, new_breaker, admit, record_failure, record_success}

-- The breaker is closed exactly while fewer failures than the threshold stand in a row.
pub record IsValid (b : Breaker) : Type 0 where
  pub positive : 0 < b.fail_threshold
  pub few : b.state ≡ closed → b.failures < b.fail_threshold
  pub many : b.state ≢ closed → b.fail_threshold ≤ b.failures

-- The breaker with the number of calls that are with the provider.
pub record Config : Type 0 where
  pub breaker : Breaker
  pub in_flight : ℕ

pub data Step : Config → Config → Type 0 where
  enter :
      (c : Config) (now : Time)
      → (admit now c.breaker).1 ≡ true
      → Step c (record { breaker = (admit now c.breaker).0; in_flight = suc c.in_flight })
  reject :
      (c : Config) (now : Time)
      → (admit now c.breaker).1 ≡ false
      → Step c (record c { breaker = (admit now c.breaker).0 })
  fail :
      (c : Config) (now : Time) (n : ℕ)
      → c.in_flight ≡ suc n
      → Step c (record { breaker = record_failure now c.breaker; in_flight = n })
  succeed :
      (c : Config) (n : ℕ)
      → c.in_flight ≡ suc n
      → Step c (record { breaker = record_success c.breaker; in_flight = n })

pub data Reach (s : Config) : Config → Type 0 where
  here : Reach s s
  next : {t u : Config} → Reach s t → Step t u → Reach s u

abbrev pub fresh : ℤ → Duration → Config
fresh n d = record { breaker = new_breaker n d; in_flight = 0 }
