-- ===== src/Registry/Sums.antt =====
-- The sums that the goroutines of CollectAll keep, whatever the order in which they act.
use sherlock.Prelude.{
  ℕ, ◌+◌, ◌*◌, ◌≤◌, ◌≡◌, refl, Bool, true, List, [], ◌∷◌, ◌++◌, none, some, arith, length,
  if◌then◌else◌, map, Result, ok, err, suc, String,
}
use sherlock.Contracts.{Evidence, CollectRequest}
use sherlock.Registry.{
  Collector, Task, started, holding, counting, ended, Shared, after_collect, advance, IsActive,
  Step, act, Run, here, next, collect_all,
}

-- How many items pass a test.
abbrev pub count : (Evidence → Bool) → List Evidence → ℕ
count p [] = 0
count p (x ∷ xs) = let rest = count p xs in if p x then suc rest else rest

pub count-append :
    (p : Evidence → Bool) (xs ys : List Evidence) → count p (xs ++ ys) ≡ count p xs + count p ys
count-append p [] ys = omega arith
count-append p (x ∷ xs) ys = ground (arith, count-append p xs ys)

pub count-true : (xs : List Evidence) → count (λ x. true) xs ≡ length xs
count-true [] = refl
count-true (x ∷ xs) = omega (arith, count-true xs)

abbrev pub sum_counted : List (String × ℕ) → ℕ
sum_counted [] = 0
sum_counted (c ∷ cs) = c.1 + sum_counted cs

module _ {E : Type 0} (req : CollectRequest) where
  abbrev pub found : (Evidence → Bool) → Result E (List Evidence) → ℕ
  found p (ok ev) = count p ev
  found p (err e) = 0

  -- What the collectors that succeed have found.
  abbrev pub found_by_all : (Evidence → Bool) → List (Collector E) → ℕ
  found_by_all p [] = 0
  found_by_all p (c ∷ cs) = found p (c.collect req) + found_by_all p cs

  -- What a goroutine has still to append.
  abbrev pub owed : (Evidence → Bool) → Task E → ℕ
  owed p (started c) = found p (c.collect req)
  owed p (holding c ev) = count p ev
  owed p (counting c n) = 0
  owed p (ended e) = 0

  -- What it has still to count.
  abbrev pub uncounted : Task E → ℕ
  uncounted (started c) = found (λ x. true) (c.collect req)
  uncounted (holding c ev) = length ev
  uncounted (counting c n) = n
  uncounted (ended e) = 0

  abbrev pub steps_left : Task E → ℕ
  steps_left (started c) = 3
  steps_left (holding c ev) = 2
  steps_left (counting c n) = 1
  steps_left (ended e) = 0

  abbrev pub sum : (Task E → ℕ) → List (Task E) → ℕ
  sum f [] = 0
  sum f (t ∷ ts) = f t + sum f ts

  sum-split :
      (f : Task E → ℕ) (before : List (Task E)) (t : Task E) (after : List (Task E))
      → sum f (before ++ t ∷ after) ≡ f t + sum f (before ++ after)
  sum-split f [] t after = refl
  sum-split f (b ∷ before) t after = omega (arith, sum-split f before t after)

  advance-owed :
      (p : Evidence → Bool) (t : Task E) (s : Shared)
      → count p (advance req t s).1.combined + owed p (advance req t s).0
        ≡ count p s.combined + owed p t
  unfolding advance
  advance-owed p (started c) s = ground arith
  advance-owed p (holding c ev) s = omega (arith, count-append p s.combined ev)
  advance-owed p (counting c n) s = refl
  advance-owed p (ended e) s = refl

  advance-uncounted :
      (t : Task E) (s : Shared)
      → sum_counted (advance req t s).1.counted + uncounted (advance req t s).0
        ≡ sum_counted s.counted + uncounted t
  unfolding advance
  advance-uncounted (started c) s =
      elim (c.collect req)
        as (λ r.
          sum_counted (after_collect req c r s).1.counted + uncounted (after_collect req c r s).0
          ≡ sum_counted s.counted + found (λ x. true) r) [
            | ok ev ↦ omega (arith, count-true ev)
            | err e ↦ refl
          ]
  advance-uncounted (holding c ev) s = refl
  advance-uncounted (counting c n) s = omega arith
  advance-uncounted (ended e) s = refl

  advance-steps_left :
      (t : Task E) (s : Shared)
      → IsActive req t
      → suc (steps_left (advance req t s).0) ≤ steps_left t
  unfolding advance
  advance-steps_left (started c) s a = ground arith
  advance-steps_left (holding c ev) s a = omega arith
  advance-steps_left (counting c n) s a = omega arith
  advance-steps_left (ended e) s a = absurd (a e refl)

  abbrev pub faults : Task E → ℕ
  faults (started c) = 0
  faults (holding c ev) = 0
  faults (counting c n) = 0
  faults (ended none) = 0
  faults (ended (some e)) = 1

  advance-faults : (t : Task E) (s : Shared) → faults (advance req t s).0 ≤ faults t
  unfolding advance
  advance-faults (started c) s = ground arith
  advance-faults (holding c ev) s = omega arith
  advance-faults (counting c n) s = omega arith
  advance-faults (ended e) s = omega arith

  -- After `n` steps: each collector's items are in the result or owed by its goroutine, the metric
  -- is as far as the goroutines have come, none has returned an error, and the steps are counted.
  pub record IsSound (collectors : List (Collector E)) (n : ℕ) (c : List (Task E) × Shared)
      : Type 0 where
    pub items :
        (p : Evidence → Bool) → count p c.1.combined + sum (owed p) c.0 ≡ found_by_all p collectors
    pub metric : sum_counted c.1.counted + sum uncounted c.0 ≡ found_by_all (λ x. true) collectors
    pub clean : sum faults c.0 ≡ 0
    pub steps : n + sum steps_left c.0 ≤ 3 * length collectors

  started-owed :
      (p : Evidence → Bool) (collectors : List (Collector E))
      → sum (owed p) (map started collectors) ≡ found_by_all p collectors
  started-owed p [] = refl
  started-owed p (c ∷ cs) = omega (arith, started-owed p cs)

  started-uncounted :
      (collectors : List (Collector E))
      → sum uncounted (map started collectors) ≡ found_by_all (λ x. true) collectors
  started-uncounted [] = refl
  started-uncounted (c ∷ cs) = omega (arith, started-uncounted cs)

  started-faults : (collectors : List (Collector E)) → sum faults (map started collectors) ≡ 0
  started-faults [] = refl
  started-faults (c ∷ cs) = omega (arith, started-faults cs)

  started-steps_left :
      (collectors : List (Collector E))
      → sum steps_left (map started collectors) ≡ 3 * length collectors
  started-steps_left [] = refl
  started-steps_left (c ∷ cs) = omega (arith, started-steps_left cs)

  Step-IsSound :
      (collectors : List (Collector E)) (n : ℕ) {c d : List (Task E) × Shared}
      → Step req c d
      → IsSound collectors n c
      → IsSound collectors (n + 1) d
  Step-IsSound collectors n (act before t after s a) v = record {
    items = λ p. omega (
      arith,
      v.items p,
      sum-split (owed p) before t after,
      sum-split (owed p) before (advance req t s).0 after,
      advance-owed p t s,
    );
    metric = omega (
      arith,
      v.metric,
      sum-split uncounted before t after,
      sum-split uncounted before (advance req t s).0 after,
      advance-uncounted t s,
    );
    clean = omega (
      arith,
      v.clean,
      sum-split faults before t after,
      sum-split faults before (advance req t s).0 after,
      advance-faults t s,
    );
    steps = omega (
      arith,
      v.steps,
      sum-split steps_left before t after,
      sum-split steps_left before (advance req t s).0 after,
      advance-steps_left t s a,
    );
  }

  pub Run-IsSound :
      (collectors : List (Collector E)) {n : ℕ} {c : List (Task E) × Shared}
      → Run req (collect_all collectors) n c
      → IsSound collectors n c
  unfolding collect_all
  Run-IsSound collectors here = record {
    items = λ p. omega (arith, started-owed p collectors);
    metric = omega (arith, started-uncounted collectors);
    clean = started-faults collectors;
    steps = omega (arith, started-steps_left collectors);
  }
  Run-IsSound collectors (next {n} r st) = Step-IsSound collectors n st (Run-IsSound collectors r)
