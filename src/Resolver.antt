-- ===== src/Resolver.antt =====
-- internal/entity/resolver.go. The time that an alert has no end is resolved at is a parameter. The
-- start of the window may lie before the zero time, so it is an integer.
pub mod Targets
use Prim.Native.String.{◌++◌ as str_append}
use sherlock.Prelude.{
  ℕ, ◌*◌, String, Bool, true, false, List, [], ◌∷◌, ◌++◌, Option, none, some, is_empty, str_eq,
  mem_str, if◌then◌else◌, not, ◌&&◌, ◌||◌, ℤ, sub_ℕ, pos,
}
use sherlock.Contracts.{TargetRef, NormalizedAlert, Attributes, Time, lookup}
use sherlock.Duration.{minute}

pub record ResolveResult : Type 0 where
  pub targets : List TargetRef
  pub time_from : ℤ
  pub time_to : Time

-- An empty value is passed over like a missing one.
unfoldable pub first_label : Attributes → List String → String
first_label labels [] = ""
first_label labels (k ∷ ks) =
    let rest = first_label labels ks in
    if str_eq (lookup k labels) "" then rest else lookup k labels

abbrev pub target_key : TargetRef → String
target_key ref = str_append ref.kind (
    str_append "/" (
      str_append ref.namespace (str_append "/" (str_append ref.name (str_append "/" ref.cluster)))))

unfoldable pub dedup_loop : List String → List TargetRef → List TargetRef
dedup_loop seen [] = []
dedup_loop seen (ref ∷ refs) =
    let skipped = dedup_loop seen refs in
    let kept = dedup_loop (target_key ref ∷ seen) refs in
    if mem_str (target_key ref) seen then skipped else ref ∷ kept

unfoldable pub dedup : List TargetRef → List TargetRef
unfolding dedup_loop
dedup refs = dedup_loop [] refs

module _ (labels : Attributes) where
  -- A target in the labels' namespace, cluster and environment.
  abbrev pub labelled : String → String → TargetRef
  labelled kind name = record {
    kind = kind;
    namespace = lookup "namespace" labels;
    name = name;
    cluster = first_label labels ("cluster" ∷ []);
    environment = first_label labels ("environment" ∷ "env" ∷ []);
    repo = "";
    region = "";
  }

  abbrev pub service_targets : String → List TargetRef
  service_targets name = if str_eq name "" then [] else labelled "service" name ∷ []

  abbrev pub namespaced_targets : String → String → List TargetRef
  namespaced_targets kind name =
      if not (str_eq name "") && not (str_eq (lookup "namespace" labels) "")
      then labelled kind name ∷ []
      else []

  unfoldable pub infer_from_labels : List TargetRef
  infer_from_labels =
      service_targets (first_label labels ("service" ∷ "app" ∷ "app.kubernetes.io/name" ∷ []))
      ++ namespaced_targets "k8s.deployment" (lookup "deployment" labels)
      ++ namespaced_targets "k8s.pod" (lookup "pod" labels)

unfoldable pub resolve_targets : NormalizedAlert → List TargetRef
unfolding dedup infer_from_labels
resolve_targets alert =
    if is_empty alert.entity_hints
    then dedup (infer_from_labels alert.labels)
    else dedup alert.entity_hints

abbrev pub end_or : Time → Option Time → Time
end_or now none = now
end_or now (some t) = t

unfoldable pub resolve_time_window : Time → NormalizedAlert → ℤ × Time
resolve_time_window now alert = (sub_ℕ alert.starts_at (30 * minute), end_or now alert.ends_at)

unfoldable pub resolve : Time → NormalizedAlert → ResolveResult
unfolding resolve_targets resolve_time_window
resolve now alert =
    let (from, to) = resolve_time_window now alert in
    record { targets = resolve_targets alert; time_from = from; time_to = to }
