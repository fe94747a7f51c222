-- ===== src/Orchestrator/Effects.antt =====
-- The calls that an investigation makes of its services, their trace, and the monad of the run.
-- A service answers by its error or none, whatever came before.
use sherlock.Prelude.{ℕ, String, Bool, true, false, List, ◌∷◌, Option, none, some}
use sherlock.Contracts.{
  NormalizedAlert, TargetRef, Evidence, CollectRequest, Hypothesis, SuggestedFix, TimelineEvent,
  Investigation, InvestigationData, InvestigationGraph, InvestigationResult, InvestigationStatus,
  Time,
}

-- The two progress messages, with the number that each one shows.
pub data Progress : Type 0 where
  collecting_for : (targets : ℕ) → Progress
  collected_items : (items : ℕ) → Progress

pub data Effect : Type 0 where
  create_alert : NormalizedAlert → Effect
  create_investigation : Investigation → Effect
  audit_created : (tenant_id id alert_id : String) → Effect
  audit_completed : (tenant_id id headline : String) (confidence evidence hypotheses : ℕ) → Effect
  audit_failed : (tenant_id id error : String) → Effect
  post_started : (channel id : String) → Effect
  post_update : (channel thread : String) → Progress → Effect
  post_result : (channel thread : String) → InvestigationResult → Effect
  post_error : (channel thread message : String) → Effect
  update_status : (id : String) → InvestigationStatus → Effect
  complete_investigation : (id headline : String) (confidence : ℕ) → Effect
  collect : CollectRequest → Effect
  put_blob : (key body : String) → Effect
  begin_tx commit rollback : Effect
  create_evidence : List Evidence → Effect
  create_hypotheses : (id : String) → List Hypothesis → Effect
  create_events : List TimelineEvent → Effect
  correlate : InvestigationData → Effect
  rank : (llm : Bool) → InvestigationGraph → Effect
  count_started count_active count_inactive : Effect
  count_completed : (label : String) → Effect

-- A call and the error that it returned.
abbrev pub Event : Type 0
Event = Effect × Option String

-- The newest event stands first.
abbrev pub Trace : Type 0
Trace = List Event

pub record Resolved : Type 0 where
  pub targets : List TargetRef
  pub time_from : Time
  pub time_to : Time

-- The orchestrator's fields, and what the services behind its interfaces answer.
pub record Services : Type 0 where
  pub has_slack : Bool
  pub has_tx : Bool
  pub has_blob_store : Bool
  pub has_remediation : Bool
  pub llm_enabled : Bool
  pub has_llm : Bool
  pub error_of : Trace → Effect → Option String
  pub thread_of : Trace → String
  pub resolve : NormalizedAlert → Resolved
  pub collected_by : CollectRequest → List Evidence
  pub graph_of : InvestigationData → InvestigationGraph
  -- `none` is a panic of the engine.
  pub hypotheses_of : Bool → InvestigationGraph → Option (List Hypothesis)
  pub engine_name : Bool → String
  pub evaluate : List Hypothesis → List SuggestedFix
  pub build : InvestigationData → List TimelineEvent
  pub new_id : String
  pub now : Time

-- An error of the run, and whether it was counted as a failed investigation where it arose (the
-- flag `investigationFailed`).
pub record Failure : Type 0 where
  pub counted : Bool
  pub message : String

pub data Outcome (A : Type 0) : Type 0 where
  returned : A → Outcome A
  failed_with : Failure → Outcome A
  panicked : Outcome A

abbrev pub M : Type 0 → Type 0
M A = Trace → Outcome A × Trace

module _ {A : Type 0} where
  abbrev pub pure : A → M A
  pure a t = (returned a, t)

  abbrev pub fail : Failure → M A
  fail e t = (failed_with e, t)

  abbrev pub panic : M A
  panic t = (panicked, t)

module _ {A B : Type 0} where
  abbrev pub and_then : Outcome A → (A → M B) → M B
  and_then (returned a) f = f a
  and_then (failed_with e) f = fail e
  and_then panicked f = panic

  infixl 5 ◌>>=◌ ◌>>◌
  abbrev pub ◌>>=◌ : M A → (A → M B) → M B
  m >>= f = λ t. let (o, t') = m t in and_then o f t'

  abbrev pub ◌>>◌ : M A → M B → M B
  m >> n = m >>= λ _. n

module _ (services : Services) where
  -- A call whose error the caller looks at.
  abbrev pub invoke : Effect → M (Option String)
  invoke effect t = let e = services.error_of t effect in (returned e, (effect, e) ∷ t)

  -- A call whose error is logged or dropped.
  abbrev pub attempt : Effect → M (Unit {0})
  attempt effect t = (returned tt, (effect, services.error_of t effect) ∷ t)

  abbrev pub check_error : Option String → M (Unit {0})
  check_error none = pure tt
  check_error (some message) = fail (record { counted = false; message = message })

  -- A call whose error ends the caller.
  abbrev pub require : Effect → M (Unit {0})
  require effect = do e ← invoke effect; check_error e

  abbrev pub when : Bool → M (Unit {0}) → M (Unit {0})
  when true m = m
  when false m = pure tt

  -- `defer func() { _ = tx.Rollback(ctx) }()` around the rest of the function.
  abbrev pub with_rollback : M (Unit {0}) → M (Unit {0})
  with_rollback body t = let (o, t') = body t in (o, (rollback, services.error_of t' rollback) ∷ t')
