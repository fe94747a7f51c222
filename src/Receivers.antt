-- ===== src/Receivers.antt =====
-- What the receivers of internal/receiver share: alertmanager/receiver.go and grafana/receiver.go have the
-- same helpers, and github/receiver.go and gitlab/receiver.go the same fingerprint. Hashes, fresh
-- identifiers, the clock, the printing of numbers and the making of errors are parameters, and so are
-- the JSON parsers of the payloads. A year of an end is that of UTC.
pub mod Alertmanager
pub mod Grafana
pub mod Github
pub mod Gitlab
pub mod Registered
pub mod Signed
pub mod Normal
use Prim.Native.String.{◌++◌ as str_append}
use sherlock.Prelude.{
  ℕ, ◌*◌, leb, String, Bool, true, false, List, [], ◌∷◌, ◌++◌, Option, none, some, str_eq,
  if◌then◌else◌, codes, to_lower, Result,
}
use sherlock.Contracts.{Attributes, NormalizedAlert, TargetRef, Time, lookup}
use sherlock.Analysis.{eq_codes}
use sherlock.Duration.{hour}

pub record Inputs (E : Type 0) : Type 0 where
  -- The HMAC-SHA256 of a secret and a body, in hexadecimal digits.
  pub hmac_hex : String → String → String
  pub sha256_hex : String → String
  pub new_id : ℕ → String
  pub now : Time
  pub print : ℕ → String
  -- `fmt.Errorf` with a message, and with one that wraps an error.
  pub errorf : String → E
  pub wrapf : String → E → E

abbrev pub status_firing : String
status_firing = "firing"

abbrev pub status_resolved : String
status_resolved = "resolved"

abbrev pub severity_critical : String
severity_critical = "critical"

abbrev pub severity_warning : String
severity_warning = "warning"

abbrev pub severity_info : String
severity_info = "info"

abbrev pub is_lower : String → String → Bool
is_lower s t = eq_codes (to_lower s) (codes t)

unfoldable pub map_status : String → String
unfolding to_lower
map_status s = if is_lower s "resolved" then status_resolved else status_firing

unfoldable pub map_severity : String → String
unfolding to_lower
map_severity s =
    if is_lower s "critical"
    then severity_critical
    else if is_lower s "info"
    then severity_info
    else severity_warning

-- An alert as both Alertmanager and Grafana send it; a missing time is 0.
pub record WebhookAlert : Type 0 where
  pub status : String
  pub labels : Attributes
  pub annotations : Attributes
  pub starts_at : Time
  pub ends_at : Time
  pub generator_url : String
  pub fingerprint : String

abbrev pub or_text : String → String → String
or_text s other = if str_eq s "" then other else s

abbrev pub target_ref : String → String → String → String → String → String → TargetRef
target_ref kind name namespace cluster repo environment = record {
  kind = kind;
  namespace = namespace;
  name = name;
  cluster = cluster;
  environment = environment;
  repo = repo;
  region = "";
}

-- `extractEntityHints`, of the labels that Alertmanager merges and Grafana sends.
abbrev pub service_hints : String → Attributes → List TargetRef
service_hints svc labels =
    if str_eq svc ""
    then []
    else target_ref "service" svc (lookup "namespace" labels) (lookup "cluster" labels) "" "" ∷ []

unfoldable pub extract_entity_hints : Attributes → List TargetRef
extract_entity_hints labels =
    service_hints (or_text (lookup "service" labels) (lookup "job" labels)) labels

abbrev pub link : String → String → List (String × String)
link rel href = if str_eq href "" then [] else (rel, href) ∷ []

unfoldable pub build_links : WebhookAlert → List (String × String)
build_links a =
    link "dashboard" (lookup "dashboard_url" a.annotations)
    ++ (link "generator" a.generator_url ++ link "runbook" (lookup "runbook_url" a.annotations))

-- The texts of a title or a summary.
abbrev pub sentence : String → String → String → String → String
sentence start a joint b = str_append start (str_append a (str_append joint b))

-- `!t.IsZero() && t.Year() > 1`
abbrev pub end_of : Time → Option Time
end_of t = if leb (365 * (24 * hour)) t then some t else none

-- `strings.Join(parts, "|")`
abbrev pub join_parts : List String → String
join_parts [] = ""
join_parts (p ∷ []) = p
join_parts (p ∷ q ∷ rest) = str_append p (str_append "|" (join_parts (q ∷ rest)))

module _ {E : Type 0} (x : Inputs E) where
  abbrev pub fingerprint_of : List String → String
  fingerprint_of parts = x.sha256_hex (join_parts parts)

  -- The alert that a repository's event is made into.
  abbrev pub repo_alert :
      String
      → String
      → String
      → String
      → String
      → Attributes
      → TargetRef
      → List (String × String)
      → NormalizedAlert
  repo_alert source severity title summary fingerprint labels hint links = record {
    id = x.new_id 0;
    source = source;
    tenant_id = "";
    status = status_firing;
    severity = severity;
    title = title;
    summary = summary;
    fingerprint = fingerprint;
    group_key = "";
    starts_at = x.now;
    ends_at = none;
    labels = labels;
    annotations = [];
    entity_hints = hint ∷ [];
    links = links;
    raw_ref = "";
  }
