-- ===== src/Registry/Gathering.antt =====
-- What CollectAll gathers, whatever the order in which its goroutines act.
use sherlock.Prelude.{
  ℕ, ◌≡◌, refl, ap, Bool, true, List, [], ◌∷◌, Option, none, some, arith, length, All,
}
use sherlock.Contracts.{Evidence, CollectRequest}
use sherlock.Registry.{
  Collector, Task, started, holding, counting, ended, Shared, Run, collect_all, wait,
}
use sherlock.Registry.Sums.{
  count, count-true, sum_counted, found_by_all, sum, owed, uncounted, faults, Run-IsSound,
}

module _ {E : Type 0} (req : CollectRequest) where
  abbrev pub IsEnded : Task E → Type 0
  IsEnded t = (e : Option E) × (t ≡ ended e)

  sum-ended :
      (f : Task E → ℕ) (ts : List (Task E))
      → ((e : Option E) → f (ended e) ≡ 0)
      → All IsEnded ts
      → sum req f ts ≡ 0
  sum-ended f [] z h = refl
  sum-ended f (t ∷ ts) z ((e, same), h) = omega (arith, ap f same, z e, sum-ended f ts z h)

  wait-faults : (ts : List (Task E)) → sum req (faults req) ts ≡ 0 → wait ts ≡ none
  unfolding wait
  wait-faults [] h = refl
  wait-faults (started c ∷ ts) h = wait-faults ts (omega arith)
  wait-faults (holding c ev ∷ ts) h = wait-faults ts (omega arith)
  wait-faults (counting c n ∷ ts) h = wait-faults ts (omega arith)
  wait-faults (ended none ∷ ts) h = wait-faults ts (omega arith)
  wait-faults (ended (some e) ∷ ts) h = absurd (omega arith)

  -- When all goroutines have returned, in whatever order they acted: of every kind of item, the
  -- result has as many as the collectors that succeeded have found, together; the metric has been
  -- raised by the length of the result; and CollectAll returns no error.
  pub collect_all-gathers :
      (collectors : List (Collector E)) {n : ℕ} {ts : List (Task E)} {s : Shared}
      → Run req (collect_all collectors) n (ts, s)
      → All IsEnded ts
      → ((p : Evidence → Bool) → count p s.combined ≡ found_by_all req p collectors)
        × (sum_counted s.counted ≡ length s.combined)
        × (wait ts ≡ none)
  collect_all-gathers collectors {ts = ts} {s = s} r h =
      let v = Run-IsSound req collectors r in
      let items : (p : Evidence → Bool) → count p s.combined ≡ found_by_all req p collectors =
        λ p. omega (arith, v.items p, sum-ended (owed req p) ts (λ e. refl) h) in
      (
        items,
        omega (
          arith,
          items (λ x. true),
          count-true s.combined,
          v.metric,
          sum-ended (uncounted req) ts (λ e. refl) h,
        ),
        wait-faults ts v.clean,
      )
