-- ===== src/Dedup.antt =====
-- internal/dedup/dedup.go. The store is a parameter: the two queries that the service makes of it.
-- `Check` is given the time, and returns with its answer what it did: its queries and its log line.
pub mod Gated
use sherlock.Prelude.{
  ℕ, ◌-◌, String, true, false, Option, none, some, str_eq, if◌then◌else◌, List, [], ◌∷◌, Result, ok,
  err,
}
use sherlock.Contracts.{NormalizedAlert, ActiveInvestigation, DedupResult, Time}

-- What the service asks of the store, and the line that it logs when a link fails.
pub data StoreCall : Type 0 where
  find_active : (fingerprint : String) (since : Time) → StoreCall
  link_alert : (investigation_id alert_id : String) → StoreCall
  link_failed : (investigation_id alert_id : String) → StoreCall

pub record InvestigationLookup (E : Type 0) : Type 0 where
  pub find_active_by_fingerprint : String → Time → Result E (Option ActiveInvestigation)
  pub link_alert_to_investigation : String → String → Option E

abbrev pub not_duplicate : DedupResult
not_duplicate = record {
  is_duplicate = false;
  existing_id = "";
  existing_headline = "";
  existing_channel = "";
  existing_thread = "";
}

abbrev pub duplicate_of : ActiveInvestigation → DedupResult
duplicate_of existing = record {
  is_duplicate = true;
  existing_id = existing.id;
  existing_headline = existing.headline;
  existing_channel = existing.slack_channel_id;
  existing_thread = existing.slack_thread_ts;
}

module _ {E : Type 0} (store : InvestigationLookup E) (window : ℕ) where
  -- The link of the alert, whose error is logged and dropped.
  abbrev pub link : String → String → Option E → List StoreCall
  link investigation_id alert_id none = link_alert investigation_id alert_id ∷ []
  link investigation_id alert_id (some e) =
      link_alert investigation_id alert_id ∷ link_failed investigation_id alert_id ∷ []

  -- After the query.
  abbrev pub conclude :
      NormalizedAlert
      → StoreCall
      → Result E (Option ActiveInvestigation)
      → Result E DedupResult × List StoreCall
  conclude alert query (err e) = (err e, query ∷ [])
  conclude alert query (ok none) = (ok not_duplicate, query ∷ [])
  conclude alert query (ok (some existing)) = (
    ok (duplicate_of existing),
    query ∷ link existing.id alert.id (store.link_alert_to_investigation existing.id alert.id),
  )

  unfoldable pub check : Time → NormalizedAlert → Result E DedupResult × List StoreCall
  check now alert =
      let since = now - window in
      if str_eq alert.fingerprint ""
      then (ok not_duplicate, [])
      else conclude alert (find_active alert.fingerprint since)
          (store.find_active_by_fingerprint alert.fingerprint since)
