-- ===== src/Tests/Collections.antt =====
-- A collection from two collectors, of which one fails.
use sherlock.Prelude.{◌≡◌, refl, ℕ, String, Bool, [], ◌∷◌, none, ok, err}
use sherlock.Contracts.{Evidence, CollectRequest}
use sherlock.Registry.{
  Collector, started, holding, counting, ended, Shared, advance, act, Run, here, next, nothing_yet,
  collect_all, wait,
}
use sherlock.Registry.Sums.{count, found_by_all}
use sherlock.Registry.Gathering.{collect_all-gathers}
use sherlock.Tests.{alert, evidence, ten}

abbrev request : CollectRequest
request = record {
  investigation_id = "i";
  alert = alert;
  targets = [];
  time_from = 0;
  time_to = ten;
}

abbrev loki : Collector String
loki = record { name = "loki"; collect = λ r. ok evidence }

abbrev prometheus : Collector String
prometheus = record { name = "prometheus"; collect = λ r. err "unreachable" }

abbrev gathered : Shared
gathered = record { combined = evidence; counted = ("loki", 4) ∷ []; warned = "prometheus" ∷ [] }

-- The second goroutine fails while the first holds its evidence.
both : Run request (collect_all (loki ∷ prometheus ∷ [])) 4 (ended none ∷ ended none ∷ [], gathered)
unfolding collect_all advance
both =
    next
      (next
        (next (next here (act [] (started loki) (started prometheus ∷ []) nothing_yet (λ e h. cc)))
          (act (holding loki evidence ∷ []) (started prometheus) [] nothing_yet (λ e h. cc)))
        (act [] (holding loki evidence) (ended none ∷ [])
          (record nothing_yet { warned = "prometheus" ∷ [] }) (λ e h. cc)))
      (act [] (counting loki 4) (ended none ∷ [])
        (record nothing_yet { combined = evidence; warned = "prometheus" ∷ [] }) (λ e h. cc))

collect_all-gathers_example :
    ((p : Evidence → Bool) → count p evidence ≡ found_by_all request p (loki ∷ prometheus ∷ []))
    × (◌≡◌ {A = ℕ} 4 4)
    × (wait {E = String} (ended none ∷ ended none ∷ []) ≡ none)
collect_all-gathers_example =
    collect_all-gathers request (loki ∷ prometheus ∷ []) both ((none, refl), ((none, refl), tt))
