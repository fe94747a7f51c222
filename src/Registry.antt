-- ===== src/Registry.antt =====
-- internal/collector/registry.go: Register and CollectAll. A collector's `Collect` is a parameter, the
-- field of its record. CollectAll starts a goroutine for each collector of its copy of the list;
-- `advance` is what one of them does next, so that any order of their actions is a run.
pub mod Sums
pub mod Gathering
use sherlock.Prelude.{
  ℕ, ◌+◌, ◌≡◌, ◌≢◌, String, List, [], ◌∷◌, ◌++◌, Option, none, some, length, map, Result, ok, err,
}
use sherlock.Contracts.{Evidence, CollectRequest}

pub record Collector (E : Type 0) : Type 0 where
  pub name : String
  pub collect : CollectRequest → Result E (List Evidence)

unfoldable pub register : {E : Type 0} → Collector E → List (Collector E) → List (Collector E)
register c collectors = collectors ++ c ∷ []

-- A goroutine: before its collection, before the lock, before the metric, and at its return.
pub data Task (E : Type 0) : Type 0 where
  started : Collector E → Task E
  holding : Collector E → List Evidence → Task E
  counting : Collector E → ℕ → Task E
  ended : Option E → Task E

-- The evidence so far, the additions to the metric, and the collectors that the log warns of.
pub record Shared : Type 0 where
  pub combined : List Evidence
  pub counted : List (String × ℕ)
  pub warned : List String

module _ {E : Type 0} (req : CollectRequest) where
  abbrev pub after_collect : Collector E → Result E (List Evidence) → Shared → Task E × Shared
  after_collect c (err e) s = (ended none, record s { warned = c.name ∷ s.warned })
  after_collect c (ok ev) s = (holding c ev, s)

  unfoldable pub advance : Task E → Shared → Task E × Shared
  advance (started c) s = after_collect c (c.collect req) s
  advance (holding c ev) s = (counting c (length ev), record s { combined = s.combined ++ ev })
  advance (counting c n) s = (ended none, record s { counted = (c.name, n) ∷ s.counted })
  advance (ended e) s = (ended e, s)

  abbrev pub IsActive : Task E → Type 0
  IsActive t = (e : Option E) → t ≢ ended e

  pub data Step : List (Task E) × Shared → List (Task E) × Shared → Type 0 where
    act :
        (before : List (Task E)) (t : Task E) (after : List (Task E)) (s : Shared)
        → IsActive t
        → Step (before ++ t ∷ after, s) (before ++ (advance t s).0 ∷ after, (advance t s).1)

  -- So many steps, one after the other.
  pub data Run (start : List (Task E) × Shared) : ℕ → List (Task E) × Shared → Type 0 where
    here : Run start 0 start
    next : {n : ℕ} {c d : List (Task E) × Shared} → Run start n c → Step c d → Run start (n + 1) d

abbrev pub nothing_yet : Shared
nothing_yet = record { combined = []; counted = []; warned = [] }

unfoldable pub collect_all : {E : Type 0} → List (Collector E) → List (Task E) × Shared
collect_all collectors = (map started collectors, nothing_yet)

-- `g.Wait`: the first error that a goroutine returned.
unfoldable pub wait : {E : Type 0} → List (Task E) → Option E
wait [] = none
wait (ended (some e) ∷ ts) = some e
wait (ended none ∷ ts) = wait ts
wait (started c ∷ ts) = wait ts
wait (holding c ev ∷ ts) = wait ts
wait (counting c n ∷ ts) = wait ts
