-- ===== src/Resolver/Targets.antt =====
-- Which targets an alert is resolved to.
use sherlock.Prelude.{
  ◌⊎◌, ◌≤◌, ◌≡◌, ◌≢◌, refl, String, false, List, [], ◌∷◌, ◌++◌, Option, none, some, arith, is_empty,
  str_eq, eq_iff, str_eq_complete, mem_str, Bool-cases, inl, inr, if◌then◌else◌, All, All-append,
  length, length-append,
}
use sherlock.Contracts.{TargetRef, NormalizedAlert, Attributes, lookup, Time}
use sherlock.Resolver.{
  first_label, target_key, dedup_loop, dedup, service_targets, namespaced_targets,
  infer_from_labels, resolve_targets, resolve,
}

abbrev pub keys : List TargetRef → List String
keys [] = []
keys (r ∷ rs) = target_key r ∷ keys rs

-- No two targets have one key.
abbrev pub IsDistinct : List TargetRef → Type 0
IsDistinct [] = Unit
IsDistinct (r ∷ rs) = (mem_str (target_key r) (keys rs) ≡ false) × IsDistinct rs

-- The first target of a key.
abbrev pub find_target : String → List TargetRef → Option TargetRef
find_target k [] = none
find_target k (r ∷ rs) =
    let rest = find_target k rs in if str_eq k (target_key r) then some r else rest

-- What the alert names, before repetitions are dropped.
abbrev pub named_targets : NormalizedAlert → List TargetRef
named_targets alert =
    if is_empty alert.entity_hints then infer_from_labels alert.labels else alert.entity_hints

mem-dedup_loop :
    (k : String) (seen : List String) (refs : List TargetRef)
    → mem_str k (keys (dedup_loop seen refs))
      ≡ (if mem_str k seen then false else mem_str k (keys refs))
unfolding dedup_loop
mem-dedup_loop k seen [] = ground arith
mem-dedup_loop k seen (r ∷ rs) = ground (
  arith,
  mem-dedup_loop k seen rs,
  mem-dedup_loop k (target_key r ∷ seen) rs,
  eq_iff k (target_key r),
)

find-dedup_loop :
    (k : String) (seen : List String) (refs : List TargetRef)
    → find_target k (dedup_loop seen refs) ≡ (if mem_str k seen then none else find_target k refs)
unfolding dedup_loop
find-dedup_loop k seen [] = ground arith
find-dedup_loop k seen (r ∷ rs) = ground (
  arith,
  find-dedup_loop k seen rs,
  find-dedup_loop k (target_key r ∷ seen) rs,
  eq_iff k (target_key r),
)

dedup_loop-IsDistinct :
    (seen : List String) (refs : List TargetRef) → IsDistinct (dedup_loop seen refs)
unfolding dedup_loop
dedup_loop-IsDistinct seen [] = tt
dedup_loop-IsDistinct seen (r ∷ rs) = elim (Bool-cases (mem_str (target_key r) seen)) [
  | inl old ↦ rw old (dedup_loop-IsDistinct seen rs)
  | inr new ↦ rw new (
    ground (
      arith,
      mem-dedup_loop (target_key r) (target_key r ∷ seen) rs,
      str_eq_complete (target_key r) (target_key r) refl,
    ),
    dedup_loop-IsDistinct (target_key r ∷ seen) rs,
  )
]

-- The targets are those that the alert hints at, or if it hints at none, those that its labels name:
-- each key once, and of the targets of one key the first.
pub resolve-find :
    (now : Time) (alert : NormalizedAlert)
    → IsDistinct (resolve now alert).targets
      × ((k : String)
          → find_target k (resolve now alert).targets ≡ find_target k (named_targets alert))
unfolding resolve resolve_targets dedup
resolve-find now alert = elim (Bool-cases (is_empty alert.entity_hints)) [
  | inl none_given ↦ rw none_given (
    dedup_loop-IsDistinct [] (infer_from_labels alert.labels),
    (λ k. find-dedup_loop k [] (infer_from_labels alert.labels)),
  )
  | inr given ↦
      rw given (
        dedup_loop-IsDistinct [] alert.entity_hints,
        (λ k. find-dedup_loop k [] alert.entity_hints),
      )
]

module _ (labels : Attributes) where
  -- A target that the labels name: a service, or something in a namespace.
  pub record IsInferred (r : TargetRef) : Type 0 where
    pub named : r.name ≢ ""
    pub placed : (r.kind ≡ "service") ⊎ (r.namespace ≢ "")
    pub in_namespace : r.namespace ≡ lookup "namespace" labels
    pub in_cluster : r.cluster ≡ first_label labels ("cluster" ∷ [])

  service_targets-IsInferred : (name : String) → All IsInferred (service_targets labels name)
  service_targets-IsInferred name = elim (Bool-cases (str_eq name "")) [
    | inl blank ↦ rw blank tt
    | inr given ↦ rw given (
      record {
        named = λ e. cc (str_eq_complete name "" e);
        placed = inl refl;
        in_namespace = refl;
        in_cluster = refl;
      },
      tt,
    )
  ]

  namespaced_targets-IsInferred :
      (kind name : String) → All IsInferred (namespaced_targets labels kind name)
  namespaced_targets-IsInferred kind name = elim (Bool-cases (str_eq name "")) [
    | inl blank ↦ rw blank tt
    | inr given ↦ elim (Bool-cases (str_eq (lookup "namespace" labels) "")) [
      | inl nowhere ↦ rw (given, nowhere) tt
      | inr somewhere ↦
          rw (given, somewhere)
            (
              record {
                named = λ e. cc (str_eq_complete name "" e);
                placed = inr (λ e. cc (str_eq_complete (lookup "namespace" labels) "" e));
                in_namespace = refl;
                in_cluster = refl;
              },
              tt,
            )
    ]
  ]

  length-service_targets-le : (name : String) → length (service_targets labels name) ≤ 1
  length-service_targets-le name = ground arith

  length-namespaced_targets-le :
      (kind name : String) → length (namespaced_targets labels kind name) ≤ 1
  length-namespaced_targets-le kind name = ground arith

  -- The labels name at most three targets, each with a name, and each but a service with a namespace.
  pub infer_from_labels-IsInferred :
      All IsInferred (infer_from_labels labels) × (length (infer_from_labels labels) ≤ 3)
  unfolding infer_from_labels
  infer_from_labels-IsInferred =
      let services =
        service_targets labels
          (first_label labels ("service" ∷ "app" ∷ "app.kubernetes.io/name" ∷ [])) in
      let deployments = namespaced_targets labels "k8s.deployment" (lookup "deployment" labels) in
      let pods = namespaced_targets labels "k8s.pod" (lookup "pod" labels) in
      (
        All-append IsInferred (services ++ deployments) pods
            (All-append IsInferred services deployments (service_targets-IsInferred _)
              (namespaced_targets-IsInferred "k8s.deployment" (lookup "deployment" labels)))
            (namespaced_targets-IsInferred "k8s.pod" (lookup "pod" labels)),
        omega (
          arith,
          length-append (services ++ deployments) pods,
          length-append services deployments,
          length-service_targets-le
              (first_label labels ("service" ∷ "app" ∷ "app.kubernetes.io/name" ∷ [])),
          length-namespaced_targets-le "k8s.deployment" (lookup "deployment" labels),
          length-namespaced_targets-le "k8s.pod" (lookup "pod" labels),
        ),
      )
