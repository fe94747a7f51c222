-- ===== src/Rca/Rules/Backed.antt =====
-- Every hypothesis of a rule cites evidence, and only evidence that was collected.
use sherlock.Prelude.{
  ◌≡◌, refl, String, Bool, true, false, List, [], ◌∷◌, ◌++◌, if◌then◌else◌, ltb, length, All,
  All-append, filter_bool, is_empty, inl, inr, Bool-cases,
}
use sherlock.Contracts.{
  Evidence, Hypothesis, evidence_log, evidence_metric, evidence_event, evidence_deploy,
  evidence_k8s_state,
}
use sherlock.Rca.Evidence.{find_evidence_by_kind, evidence_ids}
use sherlock.Rca.Evidence.Listed.{
  IsListed, AllListed, AllListed-filter_bool, AllListed-find, All-evidence_ids,
}
use sherlock.Rca.Rules.{
  is_high, is_crash, crash_loop_rule, is_oom, is_memory_metric, oom_killed_rule, is_cpu_metric,
  is_traffic_metric, high_cpu_rule, error_spike_rule, is_scheduling, scheduling_failure_rule,
}

pub record IsBacked (evidence : List Evidence) (h : Hypothesis) : Type 0 where
  pub cites : is_empty h.supporting ≡ false
  pub listed : All (IsListed evidence) h.supporting
  pub uncontradicted : h.contradicting ≡ []

pub AllBacked-if :
    (evidence : List Evidence) (b : Bool) (h : Hypothesis)
    → (b ≡ false → IsBacked evidence h)
    → All (IsBacked evidence) (if b then [] else h ∷ [])
AllBacked-if evidence true h k = tt
AllBacked-if evidence false h k = (k refl, tt)

pub cites-append :
    (xs : List Evidence) (ids : List String)
    → is_empty xs ≡ false
    → is_empty (evidence_ids xs ++ ids) ≡ false
unfolding evidence_ids
cites-append [] ids h = cc
cites-append (x ∷ xs) ids h = refl

cites-ids : (xs : List Evidence) → is_empty xs ≡ false → is_empty (evidence_ids xs) ≡ false
unfolding evidence_ids
cites-ids [] h = cc
cites-ids (x ∷ xs) h = refl

not-is_empty_of_three : (xs : List Evidence) → ltb (length xs) 3 ≡ false → is_empty xs ≡ false
not-is_empty_of_three [] h = cc
not-is_empty_of_three (x ∷ xs) h = refl

module _ (evidence : List Evidence) where
  picked :
      (p : Evidence → Bool) (kind : String)
      → AllListed evidence (filter_bool p (find_evidence_by_kind evidence kind))
  picked p kind =
      AllListed-filter_bool evidence p (find_evidence_by_kind evidence kind)
        (AllListed-find evidence kind)

  -- The IDs of two picked lists, one behind the other.
  both :
      (xs ys : List Evidence)
      → AllListed evidence xs
      → AllListed evidence ys
      → All (IsListed evidence) (evidence_ids xs ++ evidence_ids ys)
  both xs ys h k =
      All-append (IsListed evidence) (evidence_ids xs) (evidence_ids ys)
        (All-evidence_ids evidence xs h) (All-evidence_ids evidence ys k)

  pub crash_loop_rule-IsBacked : All (IsBacked evidence) (crash_loop_rule evidence)
  unfolding crash_loop_rule
  crash_loop_rule-IsBacked = AllBacked-if evidence _ _ (λ some_crash. record {
    cites = cites-append _ _ some_crash;
    listed =
        both _ _ (picked is_crash evidence_k8s_state) (AllListed-find evidence evidence_deploy);
    uncontradicted = refl;
  })

  pub oom_killed_rule-IsBacked : All (IsBacked evidence) (oom_killed_rule evidence)
  unfolding oom_killed_rule
  oom_killed_rule-IsBacked = AllBacked-if evidence _ _ (λ some_oom. record {
    cites = cites-append _ _ some_oom;
    listed = both _ _ (picked is_oom evidence_k8s_state) (picked is_memory_metric evidence_metric);
    uncontradicted = refl;
  })

  pub error_spike_rule-IsBacked : All (IsBacked evidence) (error_spike_rule evidence)
  unfolding error_spike_rule
  error_spike_rule-IsBacked = AllBacked-if evidence _ _ (λ enough. record {
    cites = cites-append _ _ (not-is_empty_of_three _ enough);
    listed = both _ _ (picked is_high evidence_log) (AllListed-find evidence evidence_deploy);
    uncontradicted = refl;
  })

  pub scheduling_failure_rule-IsBacked : All (IsBacked evidence) (scheduling_failure_rule evidence)
  unfolding scheduling_failure_rule
  scheduling_failure_rule-IsBacked = AllBacked-if evidence _ _ (λ some_sched. record {
    cites = cites-ids _ some_sched;
    listed = All-evidence_ids evidence _ (
        AllListed-filter_bool evidence is_scheduling _ (
          All-append (λ e. IsListed evidence e.id) _ _ (AllListed-find evidence evidence_event)
            (AllListed-find evidence evidence_k8s_state)));
    uncontradicted = refl;
  })

  pub high_cpu_rule-IsBacked : All (IsBacked evidence) (high_cpu_rule evidence)
  unfolding high_cpu_rule
  high_cpu_rule-IsBacked = elim (Bool-cases (is_empty cpu)) [
    | inl no_cpu ↦ rw no_cpu tt
    | inr some_cpu ↦ rw some_cpu (elim (Bool-cases (is_empty deploys)) [
      | inl no_deploy ↦ rw no_deploy (elim (Bool-cases (is_empty traffic)) [
        | inl no_traffic ↦ rw no_traffic (
          record {
            cites = cites-ids cpu some_cpu;
            listed = All-evidence_ids evidence cpu (picked is_cpu_metric evidence_metric);
            uncontradicted = refl;
          },
          tt,
        )
        | inr some_traffic ↦ rw some_traffic (
          record {
            cites = cites-append cpu (evidence_ids traffic) some_cpu;
            listed =
                both cpu traffic (picked is_cpu_metric evidence_metric)
                  (picked is_traffic_metric evidence_metric);
            uncontradicted = refl;
          },
          tt,
        )
      ])
      | inr some_deploy ↦ rw some_deploy (
        record {
          cites = cites-append cpu (evidence_ids deploys) some_cpu;
          listed =
              both cpu deploys (picked is_cpu_metric evidence_metric)
                (AllListed-find evidence evidence_deploy);
          uncontradicted = refl;
        },
        tt,
      )
    ])
  ]
    where
      metrics : List Evidence
      metrics = find_evidence_by_kind evidence evidence_metric

      cpu : List Evidence
      cpu = filter_bool is_cpu_metric metrics

      deploys : List Evidence
      deploys = find_evidence_by_kind evidence evidence_deploy

      traffic : List Evidence
      traffic = filter_bool is_traffic_metric metrics
