-- ===== src/Timeline.antt =====
-- internal/timeline/builder.go. `sort.Slice` and the UUIDs are parameters.
pub mod Order
use sherlock.Prelude.{
  ℕ, suc, String, Bool, true, false, ◌||◌, List, [], ◌∷◌, ◌++◌, map, Option, none, some, ltb,
  str_eq, if◌then◌else◌, SortSlice,
}
use sherlock.Contracts.{
  NormalizedAlert, Evidence, TimelineEvent, InvestigationData, evidence_event, evidence_k8s_state,
  evidence_metric, evidence_log, evidence_deploy, timeline_alert, timeline_k8s_event,
  timeline_metric_shift, timeline_log_pattern, timeline_deploy,
}

unfoldable pub alert_event : NormalizedAlert → TimelineEvent
alert_event alert = record {
  id = "";
  investigation_id = "";
  timestamp = alert.starts_at;
  kind = timeline_alert;
  source = alert.source;
  narrative = alert.title;
  evidence_ids = alert.id ∷ [];
  attributes = alert.labels;
}

abbrev pub event_of : String → Evidence → TimelineEvent
event_of kind e = record {
  id = "";
  investigation_id = "";
  timestamp = e.observed_at_from;
  kind = kind;
  source = e.source;
  narrative = e.summary;
  evidence_ids = e.id ∷ [];
  attributes = e.attributes;
}

-- The `switch` on the kind: `none` is `continue`, or the default, which leaves no event.
unfoldable pub evidence_event_of : Evidence → Option TimelineEvent
evidence_event_of e =
    if str_eq e.kind evidence_event || str_eq e.kind evidence_k8s_state
    then some (event_of timeline_k8s_event e)
    else if str_eq e.kind evidence_metric
    then (if ltb e.score 50 then none else some (event_of timeline_metric_shift e))
    else if str_eq e.kind evidence_log
    then (if ltb e.score 50 then none else some (event_of timeline_log_pattern e))
    else if str_eq e.kind evidence_deploy
    then some (event_of timeline_deploy e)
    else none

abbrev pub prepend_event : Option TimelineEvent → List TimelineEvent → List TimelineEvent
prepend_event none rest = rest
prepend_event (some ev) rest = ev ∷ rest

unfoldable pub evidence_events : List Evidence → List TimelineEvent
evidence_events [] = []
evidence_events (e ∷ es) = prepend_event (evidence_event_of e) (evidence_events es)

-- The comparison that `Build` sorts by.
abbrev pub earlier : TimelineEvent → TimelineEvent → Bool
earlier x y = ltb x.timestamp y.timestamp

unfoldable pub stamp : (ℕ → String) → String → ℕ → List TimelineEvent → List TimelineEvent
stamp new_id investigation_id i [] = []
stamp new_id investigation_id i (ev ∷ evs) =
    record ev { id = new_id i; investigation_id = investigation_id }
    ∷ stamp new_id investigation_id (suc i) evs

unfoldable pub unsorted_events : InvestigationData → List TimelineEvent
unfolding alert_event evidence_events
unsorted_events d = map alert_event d.alerts ++ evidence_events d.evidence

module _ (s : SortSlice TimelineEvent earlier) (new_id : ℕ → String) where
  unfoldable pub build : InvestigationData → List TimelineEvent
  unfolding unsorted_events stamp
  build d = stamp new_id d.investigation.id 0 (s.sort (unsorted_events d))
