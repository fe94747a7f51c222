-- ===== src/Orchestrator/Lifecycle.antt =====
-- A whole run: how far the row of the investigation gets, and how it is counted.
use sherlock.Prelude.{ℕ, ◌≡◌, refl, ◌↔◌, String, List, [], ◌∷◌, none, arith}
use sherlock.Contracts.{InvestigationJob}
use sherlock.Orchestrator.Effects.{
  Services, Outcome, returned, failed_with, panicked, count_started, count_active, Trace,
}
use sherlock.Orchestrator.View.{View, view, Holds}
use sherlock.Orchestrator.Stages.{
  IsAt, Stopped, IsPartial, Stage, bind-Stage, analyzed, finished, create_stage-Stage,
  collecting_stage-Stage, collect_stage-Stage, analyze_stage-Stage,
}
use sherlock.Orchestrator.Replies.{ack, reply_of}
use sherlock.Orchestrator.Completion.{conclude_stage-Stage}
use sherlock.Orchestrator.{data_of, remediate, investigate, close_run, run_investigation}

module _ (services : Services) where
  investigate-Stage :
      (c : List String) (a : ℕ) (job : InvestigationJob)
      → Stage c a [] (investigate services job) finished
  unfolding investigate
  investigate-Stage c a job = bind-Stage (create_stage-Stage services c a job) λ inv.
      bind-Stage (collecting_stage-Stage services c a job inv) λ inv'.
        bind-Stage (collect_stage-Stage services c a job inv') λ items.
          bind-Stage (analyze_stage-Stage services c a inv' (data_of services job inv' items)) λ hs.
            conclude_stage-Stage services c a inv' (data_of services job inv' items) items
              (remediate services hs)

  -- How a run ends: its outcome, and what its trace shows of the row and the metrics.
  abbrev pub Ending : Outcome (Unit {0}) → View → Type 0
  Ending (returned u) v =
      (v.history ≡ finished) × (v.tx ≡ none) × (v.completed ≡ "done" ∷ []) × (v.active ≡ 0)
  Ending (failed_with e) v =
      IsPartial e.counted v.history × (v.tx ≡ none) × (v.completed ≡ "failed" ∷ []) × (v.active ≡ 0)
  Ending panicked v =
      (v.history ≡ analyzed) × (v.tx ≡ none) × (v.completed ≡ "done" ∷ []) × (v.active ≡ 0)

  close_run-Ending :
      (o : Outcome (Unit {0})) (t : Trace)
      → Holds (λ u. IsAt [] 1 finished) (Stopped [] 1) (IsAt [] 1 analyzed) (o, t)
      → Ending (close_run services (o, t)).0 (view (close_run services (o, t)).1)
  close_run-Ending (returned u) t h = ground arith
  close_run-Ending (failed_with e) t h = ground arith
  close_run-Ending panicked t h = ground arith

  -- The trace when the body begins.
  abbrev opened : Trace
  opened =
      let t : Trace = (count_started, services.error_of [] count_started) ∷ [] in
      (count_active, services.error_of t count_active) ∷ t

  -- Whatever the services answer, the row goes through pending, collecting, analyzing, publishing and
  -- done in this order, and the run returns exactly at the end of that: when it fails the row stands
  -- at one of the earlier ones, or at failed behind analyzing, which only an error of the RCA engine
  -- gives, and when it panics, at analyzing. No transaction is left open, the gauge of active
  -- investigations is back at 0, and the run is counted as completed once, as failed exactly if it
  -- returns an error; a run that panics is counted as done.
  pub run_investigation-Ending :
      (job : InvestigationJob)
      → Ending (run_investigation services job []).0 (view (run_investigation services job []).1)
  unfolding run_investigation
  run_investigation-Ending job =
      close_run-Ending (investigate services job opened).0 (investigate services job opened).1 (
        (investigate-Stage [] 1 job).ensures opened
          (record { statuses = refl; no_tx = refl; labels = refl; running = refl }))

acknowledged :
    (services : Services) (o : Outcome (Unit {0})) (v : View)
    → Ending services o v
    → (reply_of o ≡ ack) ↔ (v.history ≡ finished)
unfolding reply_of
acknowledged services (returned u) v h = ((λ e. h.0), (λ e. refl))
acknowledged services (failed_with e) v h = ground arith
acknowledged services panicked v h = ground arith

-- A message is acknowledged exactly when its run has brought the row to done; every other outcome,
-- a panic included, refuses it.
pub run_investigation-ack_iff :
    (services : Services) (job : InvestigationJob)
    → (reply_of (run_investigation services job []).0 ≡ ack)
      ↔ ((view (run_investigation services job []).1).history ≡ finished)
run_investigation-ack_iff services job =
    acknowledged services (run_investigation services job []).0
      (view (run_investigation services job []).1) (run_investigation-Ending services job)
