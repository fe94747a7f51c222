-- ===== src/Tests/Investigations.antt =====
-- Runs of an investigation.
use sherlock.Prelude.{
  ℕ, Option, if◌then◌else◌, ◌==◌, ◌≡◌, refl, ◌↔◌, false, true, [], ◌∷◌, none, some, arith,
}
use sherlock.Orchestrator.Effects.{Services}
use sherlock.Orchestrator.View.{view}
use sherlock.Orchestrator.Stages.{finished}
use sherlock.Orchestrator.Lifecycle.{Ending, run_investigation-Ending, run_investigation-ack_iff}
use sherlock.Contracts.{InvestigationJob}
use sherlock.Orchestrator.Replies.{ack, nak, reply_of}
use sherlock.Orchestrator.Pool.{
  Pool, undecodable, receive, spawn, finish, release, here, next, idle, reply_to,
}
use sherlock.Orchestrator.Answered.{IsSound, Reach-IsSound}
use sherlock.Orchestrator.{
  run_investigation, investigate, create_stage, collecting_stage, collect_stage, analyze_stage,
  conclude_stage,
}
use sherlock.Tests.{job, suspect, evidence}

-- Services that never fail, with transactions and no Slack.
abbrev services : Services
services = record {
  has_slack = false;
  has_tx = true;
  has_blob_store = false;
  has_remediation = false;
  llm_enabled = false;
  has_llm = false;
  error_of = λ t e. none;
  thread_of = λ t. "";
  resolve = λ a. record { targets = []; time_from = 0; time_to = 0 };
  collected_by = λ r. evidence;
  graph_of = λ d. record { investigation_data = d; correlations = [] };
  hypotheses_of = λ b g. some (suspect ∷ []);
  engine_name = λ b. "rule-based";
  evaluate = λ hs. [];
  build = λ d. [];
  new_id = "i";
  now = 0;
}

-- The same with an engine that panics.
abbrev panicking : Services
panicking = record services { hypotheses_of = λ b g. none }

run_finishes : (view (run_investigation services job []).1).history ≡ finished
unfolding run_investigation investigate create_stage collecting_stage collect_stage analyze_stage
    conclude_stage
run_finishes = refl

panic_counted_done : (view (run_investigation panicking job []).1).completed ≡ "done" ∷ []
unfolding run_investigation investigate create_stage collecting_stage collect_stage analyze_stage
    conclude_stage
panic_counted_done = refl

run_investigation-Ending_example :
    Ending services
      (run_investigation services job []).0
      (view (run_investigation services job []).1)
run_investigation-Ending_example = run_investigation-Ending services job

run_investigation-ack_iff_example :
    (reply_of (run_investigation services job []).0 ≡ ack)
    ↔ ((view (run_investigation services job []).1).history ≡ finished)
run_investigation-ack_iff_example = run_investigation-ack_iff services job

-- The first message is no job; the second is.
abbrev decoded : ℕ → Option InvestigationJob
decoded k = if k == 2 then some job else none

abbrev all_services : ℕ → Services
all_services k = services

abbrev refused : Pool
refused = record idle { delivered = 1 ∷ []; replies = (1, nak) ∷ [] }

abbrev received : Pool
received = record refused { delivered = 2 ∷ 1 ∷ []; waiting = some (2, job) }

abbrev started : Pool
started = record received { waiting = none; running = (2, job) ∷ [] }

abbrev answered : Pool
answered = record started {
  running = [];
  leaving = 1;
  replies = (2, reply_to decoded all_services 10 2 job) ∷ (1, nak) ∷ [];
}

Reach-IsSound_example : IsSound decoded all_services 10 (record answered { leaving = 0 })
Reach-IsSound_example = Reach-IsSound decoded all_services 10 (
    next
      (next
        (next
          (next (next here (undecodable idle 1 refl refl refl))
            (receive refused 2 job refl refl refl))
          (spawn received 2 job refl (omega arith)))
        (finish started [] 2 job [] refl))
      (release answered 0 refl))
