-- ===== src/Orchestrator/Stages.antt =====
-- What each stage of the run does to the row and the counters.
use sherlock.Prelude.{
  ℕ, ◌≡◌, ◌⊎◌, String, Bool, true, false, List, [], ◌∷◌, none, if◌then◌else◌, arith, length,
}
use sherlock.Contracts.{
  Evidence, CollectRequest, Investigation, InvestigationData, InvestigationJob, InvestigationStatus,
  pending, collecting, analyzing, publishing, done, failed,
}
use sherlock.Orchestrator.Effects.{
  Services, Failure, M, pure, ◌>>=◌, attempt, require, when, post_update, update_status, Progress,
  collect, collected_items,
}
use sherlock.Orchestrator.View.{View, Ensures, bind-Ensures}
use sherlock.Orchestrator.{
  notifies, collect_request, create_stage, collecting_stage, offload_item, offload,
  store_evidence_batch, collect_stage, analyze_stage,
}

abbrev pub created : List InvestigationStatus
created = pending ∷ []

abbrev pub collected : List InvestigationStatus
collected = collecting ∷ created

abbrev pub analyzed : List InvestigationStatus
analyzed = analyzing ∷ collected

abbrev pub published : List InvestigationStatus
published = publishing ∷ analyzed

abbrev pub finished : List InvestigationStatus
finished = done ∷ published

-- No transaction is open, and the rest is as given.
pub record IsAt (completed : List String) (active : ℕ) (history : List InvestigationStatus)
    (v : View) : Type 0 where
  pub statuses : v.history ≡ history
  pub no_tx : v.tx ≡ none
  pub labels : v.completed ≡ completed
  pub running : v.active ≡ active

-- Where the row may stand when the run stops with an error.
abbrev pub IsPartial : Bool → List InvestigationStatus → Type 0
IsPartial false h = (h ≡ []) ⊎ (h ≡ created) ⊎ (h ≡ collected) ⊎ (h ≡ analyzed) ⊎ (h ≡ published)
IsPartial true h = (h ≡ failed ∷ analyzed) ⊎ (h ≡ analyzed)

abbrev pub Stopped : List String → ℕ → Failure → View → Type 0
Stopped completed active e v =
    IsPartial e.counted v.history
    × IsAt (if e.counted then "failed" ∷ completed else completed) active v.history v

-- A part of the run that takes the row from one history to another. It may stop with an error, and it
-- panics only once the analysis has begun.
pub record Stage (completed : List String) (active : ℕ) {A : Type 0}
    (before : List InvestigationStatus) (m : M A) (after : List InvestigationStatus) : Type 0 where
  pub ensures :
      Ensures
        (IsAt completed active before)
        m
        (λ x. IsAt completed active after)
        (Stopped completed active)
        (IsAt completed active analyzed)

pub bind-Stage :
    {c : List String} {a : ℕ} {A B : Type 0} {h h' h'' : List InvestigationStatus} {m : M A}
    {f : A → M B}
    → Stage c a h m h'
    → ((x : A) → Stage c a h' (f x) h'')
    → Stage c a h (m >>= f) h''
bind-Stage {c} {a} {h = h} {h' = h'} {h'' = h''} {m = m} {f = f} s k = record {
  ensures =
      bind-Ensures (IsAt c a h) (λ x. IsAt c a h') (λ x. IsAt c a h'') (Stopped c a)
        (IsAt c a analyzed) m f s.ensures (λ x. (k x).ensures);
}

module _ (services : Services) (c : List String) (a : ℕ) where
  pub create_stage-Stage :
      (job : InvestigationJob) → Stage c a [] (create_stage services job) created
  unfolding create_stage
  create_stage-Stage job = record { ensures = λ t p. ground arith }

  -- A message to Slack, if there is one to send, and whatever it answers.
  notify-Stage :
      (h : List InvestigationStatus) (b : Bool) (channel thread : String) (p : Progress)
      → Stage c a h (when services b (attempt services (post_update channel thread p))) h
  notify-Stage h true channel thread p = record { ensures = λ t q. q }
  notify-Stage h false channel thread p = record { ensures = λ t q. q }

  pure-Stage : {A : Type 0} (h : List InvestigationStatus) (x : A) → Stage c a h (pure x) h
  pure-Stage h x = record { ensures = λ t q. q }

  pub choose-Stage :
      {A : Type 0} {h h' : List InvestigationStatus} (b : Bool) {m n : M A}
      → Stage c a h m h'
      → Stage c a h n h'
      → Stage c a h (if b then m else n) h'
  choose-Stage true s k = s
  choose-Stage false s k = k

  collecting-Stage :
      (id : String) → Stage c a created (require services (update_status id collecting)) collected
  collecting-Stage id = record { ensures = λ t p. ground arith }

  pub collecting_stage-Stage :
      (job : InvestigationJob) (inv : Investigation)
      → Stage c a created (collecting_stage services job inv) collected
  unfolding collecting_stage
  collecting_stage-Stage job inv =
      bind-Stage (collecting-Stage inv.id)
        (λ u. bind-Stage (notify-Stage collected _ _ _ _) (λ w. pure-Stage collected _))

  offload_item-Stage :
      (inv : Investigation) (e : Evidence)
      → Stage c a collected (offload_item services inv e) collected
  unfolding offload_item
  offload_item-Stage inv e = record { ensures = λ t p. ground arith }

  offload-Stage :
      (inv : Investigation) (es : List Evidence)
      → Stage c a collected (offload services inv es) collected
  unfolding offload
  offload-Stage inv [] = pure-Stage collected []
  offload-Stage inv (e ∷ es) =
      bind-Stage (offload_item-Stage inv e)
        (λ e'. bind-Stage (offload-Stage inv es) (λ es'. pure-Stage collected (e' ∷ es')))

  store_evidence_batch-Stage :
      (items : List Evidence) → Stage c a collected (store_evidence_batch services items) collected
  unfolding store_evidence_batch
  store_evidence_batch-Stage items = record { ensures = λ t p. ground arith }

  collect-Stage :
      (r : CollectRequest) → Stage c a collected (attempt services (collect r)) collected
  collect-Stage r = record { ensures = λ t p. p }

  pub collect_stage-Stage :
      (job : InvestigationJob) (inv : Investigation)
      → Stage c a collected (collect_stage services job inv) collected
  unfolding collect_stage
  collect_stage-Stage job inv =
      let r = collect_request services job inv in
      let found = services.collected_by r in
      bind-Stage (collect-Stage r) λ u.
        bind-Stage
          (choose-Stage services.has_blob_store (offload-Stage inv found)
            (pure-Stage collected found))
          λ items. bind-Stage (store_evidence_batch-Stage items) λ w.
            bind-Stage
              (notify-Stage collected (notifies services inv) inv.slack_channel_id
                inv.slack_thread_ts (collected_items (length items)))
              (λ x. pure-Stage collected items)

  pub analyze_stage-Stage :
      (inv : Investigation) (d : InvestigationData)
      → Stage c a collected (analyze_stage services inv d) analyzed
  unfolding analyze_stage
  analyze_stage-Stage inv d = record { ensures = λ t p. ground arith }
