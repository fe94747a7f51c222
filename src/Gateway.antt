-- ===== src/Gateway.antt =====
-- internal/receiver/gateway.go. The receiver of a source, the stores, the duplicate and suppression
-- checks, the queue and the encoding of a job are parameters; a check is told the position of its
-- alert. A webhook's handler returns its response with the calls it made, in order. Spans and log
-- lines are left out.
use sherlock.Prelude.{
  ℕ, zero, suc, ◌+◌, ltb, ◌==◌, String, Bool, true, false, List, [], ◌∷◌, ◌++◌, Option, none, some,
  str_eq, if◌then◌else◌, length, Result, ok, err, ◌&&◌, not,
}
pub mod Wanted
pub mod Published
pub mod Answers
use Prim.Native.String.{◌++◌ as str_append}
use sherlock.Contracts.{Attributes, NormalizedAlert, InvestigationJob, DedupResult}

pub data Response : Type 0 where
  not_found too_large unauthorized internal_error bad_request accepted : Response
  deduplicated : ℕ → Response

pub data GatewayCall : Type 0 where
  put_raw_payload : (key body : String) → GatewayCall
  count_webhook : (source outcome : String) → GatewayCall
  observe_duration : (source : String) → GatewayCall
  dedup_check : NormalizedAlert → GatewayCall
  count_dedup_hit : GatewayCall
  notify_dedup : (channel thread existing_id alert_value : String) → GatewayCall
  suppress_check : (fingerprint : String) → GatewayCall
  count_suppress_hit : GatewayCall
  publish : (subject payload : String) → GatewayCall

pub record AlertReceiver (E : Type 0) : Type 0 where
  pub verify : Attributes → String → Option E
  pub decode : Attributes → String → Result E (List NormalizedAlert)

pub record Gateway (E : Type 0) : Type 0 where
  pub receivers : List (String × AlertReceiver E)
  pub put_blob : String → String → Option E
  pub dedup : Option (ℕ → NormalizedAlert → Result E (Option DedupResult))
  pub has_notifier : Bool
  pub suppress : Option (ℕ → String → Result E Bool)
  pub publisher : ℕ → String → String → Option E
  pub marshal : InvestigationJob → Result E String
  pub stream_name : String

-- One call of the handler: what it draws from the clock and the UUIDs, and the trace's headers.
pub record Request (E : Type 0) : Type 0 where
  pub source : String
  pub headers : Attributes
  pub body : Result E String
  pub blob_key : String
  pub new_id : ℕ → String
  pub trace_parent : String
  pub trace_state : String

abbrev pub find_receiver :
    {E : Type 0} → String → List (String × AlertReceiver E) → Option (AlertReceiver E)
find_receiver k [] = none
find_receiver k ((j, r) ∷ rs) = let rest = find_receiver k rs in if str_eq k j then some r else rest

-- What becomes of one alert: it is done with, it is skipped and counted, or the handler gives up.
pub data Verdict : Type 0 where
  handled skipped aborted : Verdict

abbrev pub title_or_id : NormalizedAlert → String
title_or_id alert = if str_eq alert.title "" then alert.id else alert.title

module _ {E : Type 0} (g : Gateway E) (r : Request E) where
  abbrev pub stamp : ℕ → NormalizedAlert → NormalizedAlert
  stamp i alert = record alert { id = r.new_id i; raw_ref = r.blob_key }

  abbrev pub notify_calls : NormalizedAlert → DedupResult → List GatewayCall
  notify_calls alert d =
      if g.has_notifier && not (str_eq d.existing_channel "")
      then notify_dedup d.existing_channel d.existing_thread d.existing_id (title_or_id alert) ∷ []
      else []

  abbrev pub after_dedup : NormalizedAlert → Result E (Option DedupResult) → Bool × List GatewayCall
  after_dedup alert (err e) = (false, dedup_check alert ∷ [])
  after_dedup alert (ok none) = (false, dedup_check alert ∷ [])
  after_dedup alert (ok (some d)) =
      if d.is_duplicate
      then (true, dedup_check alert ∷ count_dedup_hit ∷ notify_calls alert d)
      else (false, dedup_check alert ∷ [])

  -- Whether the alert is a duplicate.
  unfoldable pub dedup_stage : ℕ → NormalizedAlert → Bool × List GatewayCall
  dedup_stage i alert = elim g.dedup as (λ o. Bool × List GatewayCall) [
    | none ↦ (false, [])
    | some checker ↦ after_dedup alert (checker i alert)
  ]

  abbrev pub after_suppress : String → Result E Bool → Bool × List GatewayCall
  after_suppress fingerprint (err e) = (false, suppress_check fingerprint ∷ [])
  after_suppress fingerprint (ok true) =
      (true, suppress_check fingerprint ∷ count_suppress_hit ∷ [])
  after_suppress fingerprint (ok false) = (false, suppress_check fingerprint ∷ [])

  -- Whether the alert is suppressed.
  unfoldable pub suppress_stage : ℕ → NormalizedAlert → Bool × List GatewayCall
  suppress_stage i alert = elim g.suppress as (λ o. Bool × List GatewayCall) [
    | none ↦ (false, [])
    | some checker ↦
        if str_eq alert.fingerprint ""
        then (false, [])
        else after_suppress alert.fingerprint (checker i alert.fingerprint)
  ]

  abbrev pub job_of : NormalizedAlert → InvestigationJob
  job_of alert = record {
    alert = alert;
    slack_channel_id = "";
    slack_thread_ts = "";
    requested_by = "";
    trace_parent = r.trace_parent;
    trace_state = r.trace_state;
  }

  abbrev pub subject : String
  subject = str_append g.stream_name ".new"

  abbrev pub after_publish : Option E → Verdict
  after_publish none = handled
  after_publish (some e) = aborted

  -- A job that cannot be encoded is dropped.
  abbrev pub publish_payload : ℕ → Result E String → Verdict × List GatewayCall
  publish_payload i (err e) = (handled, [])
  publish_payload i (ok payload) =
      (after_publish (g.publisher i subject payload), publish subject payload ∷ [])

  unfoldable pub publish_stage : ℕ → NormalizedAlert → Verdict × List GatewayCall
  publish_stage i alert = publish_payload i (g.marshal (job_of alert))

  -- The three stages of the loop's body one after the other, each unless an earlier one skips.
  abbrev pub combine :
      Bool × List GatewayCall
      → Bool × List GatewayCall
      → Verdict × List GatewayCall
      → Verdict × List GatewayCall
  combine (true, dedup_calls) suppression publication = (skipped, dedup_calls)
  combine (false, dedup_calls) (true, suppress_calls) publication =
      (skipped, dedup_calls ++ suppress_calls)
  combine (false, dedup_calls) (false, suppress_calls) (verdict, publish_calls) =
      (verdict, dedup_calls ++ (suppress_calls ++ publish_calls))

  unfoldable pub handle_alert : ℕ → NormalizedAlert → Verdict × List GatewayCall
  handle_alert i alert =
      combine (dedup_stage i alert) (suppress_stage i alert) (publish_stage i alert)

  abbrev pub add_skip : Option ℕ → Option ℕ
  add_skip none = none
  add_skip (some n) = some (suc n)

  -- The number of skipped alerts, or `none` if the handler gave up.
  abbrev pub after_alert :
      Verdict × List GatewayCall → Option ℕ × List GatewayCall → Option ℕ × List GatewayCall
  after_alert (aborted, calls) (count, rest) = (none, calls)
  after_alert (handled, calls) (count, rest) = (count, calls ++ rest)
  after_alert (skipped, calls) (count, rest) = (add_skip count, calls ++ rest)

  unfoldable pub alerts_loop : ℕ → List NormalizedAlert → Option ℕ × List GatewayCall
  alerts_loop i [] = (some 0, [])
  alerts_loop i (alert ∷ alerts) =
      after_alert (handle_alert i (stamp i alert)) (alerts_loop (suc i) alerts)

  -- The answer to a webhook of `total` alerts.
  abbrev pub answer : ℕ → Option ℕ × List GatewayCall → Response × List GatewayCall
  answer total (none, calls) = (internal_error, calls)
  answer total (some n, calls) = (
    if ltb 0 n && n == total then deduplicated n else accepted,
    calls ++ (count_webhook r.source "accepted" ∷ observe_duration r.source ∷ []),
  )

  abbrev pub after_decode : Result E (List NormalizedAlert) → Response × List GatewayCall
  after_decode (err e) = (bad_request, count_webhook r.source "decode_error" ∷ [])
  after_decode (ok alerts) = answer (length alerts) (alerts_loop 0 alerts)

  abbrev pub after_put :
      Result E (List NormalizedAlert) → String → Option E → Response × List GatewayCall
  after_put decoded body (some e) = (internal_error, put_raw_payload r.blob_key body ∷ [])
  after_put decoded body none =
      let (response, calls) = after_decode decoded in
      (response, put_raw_payload r.blob_key body ∷ calls)

  abbrev pub after_verify : AlertReceiver E → String → Option E → Response × List GatewayCall
  after_verify receiver body (some e) = (unauthorized, count_webhook r.source "rejected" ∷ [])
  after_verify receiver body none =
      after_put (receiver.decode r.headers body) body (g.put_blob r.blob_key body)

  abbrev pub after_read : AlertReceiver E → Result E String → Response × List GatewayCall
  after_read receiver (err e) = (too_large, [])
  after_read receiver (ok body) = after_verify receiver body (receiver.verify r.headers body)

  abbrev pub after_lookup : Option (AlertReceiver E) → Response × List GatewayCall
  after_lookup none = (not_found, [])
  after_lookup (some receiver) = after_read receiver r.body

  unfoldable pub handle_webhook : Response × List GatewayCall
  unfolding alerts_loop handle_alert dedup_stage suppress_stage publish_stage
  handle_webhook = after_lookup (find_receiver r.source g.receivers)
