-- ===== src/Orchestrator/Completion.antt =====
-- The last stage: what `storeCompletionBatch` leaves, with a transaction and without.
use sherlock.Prelude.{
  ℕ, ◌≡◌, String, Bool, true, false, not, List, [], ◌∷◌, Option, some, arith, is_empty, length,
}
use sherlock.Contracts.{
  Evidence, Hypothesis, TimelineEvent, Investigation, InvestigationData, InvestigationResult,
  InvestigationStatus, publishing, done,
}
use sherlock.Orchestrator.Effects.{
  Services, Failure, M, ◌>>=◌, attempt, require, when, with_rollback, begin_tx, commit,
  create_hypotheses, create_events, update_status, complete_investigation, Trace, Outcome, returned,
  failed_with, panicked, rollback, post_result, audit_completed,
}
use sherlock.Orchestrator.View.{View, Holds, Ensures, bind-Ensures}
use sherlock.Orchestrator.Stages.{
  IsAt, Stopped, Stage, choose-Stage, bind-Stage, analyzed, published, finished,
}
use sherlock.Orchestrator.{
  store_results, notifies, headline_of, confidence_of, result_of, store_completion_batch,
  conclude_stage,
}

-- A transaction is open, with these statuses written.
record InTx (c : List String) (a : ℕ) (written : List InvestigationStatus) (v : View) : Type 0 where
  statuses : v.history ≡ analyzed
  open_tx : v.tx ≡ some written
  labels : v.completed ≡ c
  running : v.active ≡ a

-- A call in the transaction failed: nothing of it is in the row.
record Aborted (c : List String) (a : ℕ) (e : Failure) (v : View) : Type 0 where
  uncounted : e.counted ≡ false
  statuses : v.history ≡ analyzed
  labels : v.completed ≡ c
  running : v.active ≡ a

record TxStage (c : List String) (a : ℕ) {A : Type 0} (before : List InvestigationStatus) (m : M A)
    (after : View → Type 0) : Type 0 where
  ensures : Ensures (InTx c a before) m (λ x. after) (Aborted c a) (λ v. ⊥)

bind-TxStage :
    {c : List String} {a : ℕ} {A B : Type 0} {w w' : List InvestigationStatus}
    {after : View → Type 0} {m : M A} {f : A → M B}
    → TxStage c a w m (InTx c a w')
    → ((x : A) → TxStage c a w' (f x) after)
    → TxStage c a w (m >>= f) after
bind-TxStage {c} {a} {w = w} {w' = w'} {after = after} {m = m} {f = f} s k = record {
  ensures =
      bind-Ensures (InTx c a w) (λ x. InTx c a w') (λ x. after) (Aborted c a) (λ v. ⊥) m f s.ensures
        (λ x. (k x).ensures);
}

module _ (services : Services) (c : List String) (a : ℕ) where
  module _ (id : String) (hs : List Hypothesis) (events : List TimelineEvent) where
    tx_hypotheses :
        TxStage c a []
          (when services (not (is_empty hs)) (require services (create_hypotheses id hs)))
          (InTx c a [])
    tx_hypotheses = record { ensures = λ t p. ground arith }

    tx_events :
        TxStage c a []
          (when services (not (is_empty events)) (require services (create_events events)))
          (InTx c a [])
    tx_events = record { ensures = λ t p. ground arith }

    tx_publishing :
        TxStage c a [] (require services (update_status id publishing)) (InTx c a (publishing ∷ []))
    tx_publishing = record { ensures = λ t p. ground arith }

    tx_results : TxStage c a [] (store_results services id hs events) (InTx c a (publishing ∷ []))
    tx_results = bind-TxStage tx_hypotheses (λ u. bind-TxStage tx_events (λ w. tx_publishing))

    plain_hypotheses :
        Stage c a analyzed
          (when services (not (is_empty hs)) (require services (create_hypotheses id hs)))
          analyzed
    plain_hypotheses = record { ensures = λ t p. ground arith }

    plain_events :
        Stage c a analyzed
          (when services (not (is_empty events)) (require services (create_events events)))
          analyzed
    plain_events = record { ensures = λ t p. ground arith }

    plain_publishing : Stage c a analyzed (require services (update_status id publishing)) published
    plain_publishing = record { ensures = λ t p. ground arith }

    plain_results : Stage c a analyzed (store_results services id hs events) published
    plain_results =
        bind-Stage plain_hypotheses (λ u. bind-Stage plain_events (λ w. plain_publishing))

  module _ (id headline : String) (confidence : ℕ) where
    tx_complete :
        TxStage c a
          (publishing ∷ [])
          (require services (complete_investigation id headline confidence))
          (InTx c a (done ∷ publishing ∷ []))
    tx_complete = record { ensures = λ t p. ground arith }

    plain_complete :
        Stage c a published
          (require services (complete_investigation id headline confidence))
          finished
    plain_complete = record { ensures = λ t p. ground arith }

  tx_commit : TxStage c a (done ∷ publishing ∷ []) (require services commit) (IsAt c a finished)
  tx_commit = record { ensures = λ t p. ground arith }

  begin_tx-Ensures :
      Ensures
        (IsAt c a analyzed)
        (require services begin_tx)
        (λ u. InTx c a [])
        (Stopped c a)
        (IsAt c a analyzed)
  begin_tx-Ensures t p = ground arith

  -- The deferred rollback closes the transaction, whatever became of it.
  closed_outcome :
      (o : Outcome (Unit {0})) (t : Trace) (e : Option String)
      → Holds (λ x. IsAt c a finished) (Aborted c a) (λ v. ⊥) (o, t)
      → Holds (λ x. IsAt c a finished) (Stopped c a) (IsAt c a analyzed) (o, (rollback, e) ∷ t)
  closed_outcome (returned u) t e h = ground arith
  closed_outcome (failed_with f) t e h = ground arith
  closed_outcome panicked t e h = absurd h

  with_rollback-Ensures :
      (body : M (Unit {0}))
      → TxStage c a [] body (IsAt c a finished)
      → Ensures
          (InTx c a [])
          (with_rollback services body)
          (λ u. IsAt c a finished)
          (Stopped c a)
          (IsAt c a analyzed)
  with_rollback-Ensures body s t p =
      closed_outcome (body t).0 (body t).1 (services.error_of (body t).1 rollback) (s.ensures t p)

  in_tx :
      (body : M (Unit {0}))
      → TxStage c a [] body (IsAt c a finished)
      → Stage c a analyzed (require services begin_tx >>= λ u. with_rollback services body) finished
  in_tx body s = record {
    ensures =
        bind-Ensures (IsAt c a analyzed) (λ u. InTx c a []) (λ u. IsAt c a finished) (Stopped c a)
          (IsAt c a analyzed) (require services begin_tx) (λ u. with_rollback services body)
          begin_tx-Ensures (λ u. with_rollback-Ensures body s);
  }

  pub store_completion_batch-Stage :
      (id headline : String) (confidence : ℕ) (hs : List Hypothesis) (events : List TimelineEvent)
      → Stage c a analyzed
          (store_completion_batch services id headline confidence hs events)
          finished
  unfolding store_completion_batch
  store_completion_batch-Stage id headline confidence hs events =
      choose-Stage services c a services.has_tx
        (in_tx _ (
          bind-TxStage (tx_results id hs events)
            (λ u. bind-TxStage (tx_complete id headline confidence) (λ w. tx_commit))))
        (bind-Stage (plain_results id hs events) (λ u. plain_complete id headline confidence))

  post_result-Stage :
      (b : Bool) (channel thread : String) (r : InvestigationResult)
      → Stage c a finished
          (when services b (attempt services (post_result channel thread r)))
          finished
  post_result-Stage true channel thread r = record { ensures = λ t q. q }
  post_result-Stage false channel thread r = record { ensures = λ t q. q }

  audit-Stage :
      (tenant id headline : String) (x y z : ℕ)
      → Stage c a finished (attempt services (audit_completed tenant id headline x y z)) finished
  audit-Stage tenant id headline x y z = record { ensures = λ t q. q }

  pub conclude_stage-Stage :
      (inv : Investigation) (d : InvestigationData) (items : List Evidence) (hs : List Hypothesis)
      → Stage c a analyzed (conclude_stage services inv d items hs) finished
  unfolding conclude_stage
  conclude_stage-Stage inv d items hs =
      let events = services.build d in
      bind-Stage
        (store_completion_batch-Stage inv.id (headline_of services hs) (confidence_of services hs)
          hs events)
        (λ u.
          bind-Stage
            (post_result-Stage (notifies services inv) inv.slack_channel_id inv.slack_thread_ts
              (result_of services inv hs events))
            (λ w.
              audit-Stage inv.tenant_id inv.id (headline_of services hs) (confidence_of services hs)
                (length items) (length hs)))
