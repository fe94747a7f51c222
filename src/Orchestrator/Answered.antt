-- ===== src/Orchestrator/Answered.antt =====
-- Every message is answered once, and rightly.
use sherlock.Prelude.{
  ℕ, suc, ◌+◌, ◌≤◌, ◌≡◌, ◌↔◌, refl, ap, List, [], ◌∷◌, ◌++◌, Option, none, some, arith, length,
  ◌==◌, All, All-append, All-append_inv, subst, Bool-cases, inl, inr,
}
use sherlock.Contracts.{InvestigationJob}
use sherlock.Orchestrator.{run_investigation}
use sherlock.Orchestrator.Effects.{Services}
use sherlock.Orchestrator.View.{view}
use sherlock.Orchestrator.Stages.{finished}
use sherlock.Orchestrator.Replies.{Reply, ack, nak}
use sherlock.Orchestrator.Lifecycle.{run_investigation-ack_iff}
use sherlock.Orchestrator.Pool.{
  Pool, Step, Reach, undecodable, receive, spawn, finish, release, here, next, times, plain,
  numbered, reply_to,
}

times-split :
    {A : Type 0} (number : A → ℕ) (k : ℕ) (before : List A) (x : A) (after : List A)
    → times number k (before ++ x ∷ after) ≡ times number k (x ∷ before ++ after)
times-split number k [] x after = refl
times-split number k (b ∷ before) x after = ground (arith, times-split number k before x after)

length-split :
    {A : Type 0} (before : List A) (x : A) (after : List A)
    → length (before ++ x ∷ after) ≡ suc (length (before ++ after))
length-split [] x after = refl
length-split (b ∷ before) x after = omega (arith, length-split before x after)

fresh_once :
    (k : ℕ) (delivered : List ℕ)
    → times plain k delivered ≡ 0
    → ((m : ℕ) → times plain m delivered ≤ 1)
    → (m : ℕ) → times plain m (k ∷ delivered) ≤ 1
fresh_once k delivered fresh once m = elim (Bool-cases (k == m)) [
  | inl same ↦ ground (arith, fresh)
  | inr other ↦ rw other (once m)
]

module _ (decode : ℕ → Option InvestigationJob) (services : ℕ → Services) (capacity : ℕ) where
  -- The message is a job whose run brings its row to done.
  abbrev pub Completes : ℕ → Type 0
  Completes k =
      (job : InvestigationJob) × (decode k ≡ some job)
      × ((view (run_investigation (services k) job []).1).history ≡ finished)

  abbrev pub IsAnswer : ℕ × Reply → Type 0
  IsAnswer (k, r) = (r ≡ ack) ↔ Completes k

  abbrev pub IsDecoded : ℕ × InvestigationJob → Type 0
  IsDecoded (k, job) = decode k ≡ some job

  abbrev pub waiting_list : Option (ℕ × InvestigationJob) → List (ℕ × InvestigationJob)
  waiting_list none = []
  waiting_list (some m) = m ∷ []

  pub record IsSound (p : Pool) : Type 0 where
    pub accounted :
        (k : ℕ)
        → times plain k p.delivered
          ≡ times numbered k p.replies
            + times numbered k (waiting_list p.waiting)
            + times numbered k p.running
    pub once : (k : ℕ) → times plain k p.delivered ≤ 1
    pub answers : All IsAnswer p.replies
    pub slots : length p.running + p.leaving ≤ capacity
    pub queued : All IsDecoded (waiting_list p.waiting)
    pub jobs : All IsDecoded p.running

  reply_to-IsAnswer :
      (k : ℕ) (job : InvestigationJob)
      → decode k ≡ some job
      → IsAnswer (k, reply_to decode services capacity k job)
  reply_to-IsAnswer k job d =
      let done = run_investigation-ack_iff (services k) job in
      (
        λ e. (job, d, done.0 e),
        λ (other, d', h).
            let same : other ≡ job = cc in
            done.1 (
              subst (λ j. (view (run_investigation (services k) j []).1).history ≡ finished) same
                h),
      )

  nak-IsAnswer : (k : ℕ) → decode k ≡ none → IsAnswer (k, nak)
  nak-IsAnswer k d = ((λ e. absurd (cc e)), (λ (job, d', h). absurd (cc)))

  waiting_times :
      (m : ℕ) {w v : Option (ℕ × InvestigationJob)}
      → w ≡ v
      → times numbered m (waiting_list w) ≡ times numbered m (waiting_list v)
  waiting_times m same = ap (λ o. times numbered m (waiting_list o)) same

  Step-IsSound : {p q : Pool} → Step decode services capacity p q → IsSound p → IsSound q
  Step-IsSound (undecodable p k w fresh d) s = record {
    accounted = λ m. ground (arith, s.accounted m);
    once = λ m. fresh_once k p.delivered fresh s.once m;
    answers = (nak-IsAnswer k d, s.answers);
    slots = s.slots;
    queued = s.queued;
    jobs = s.jobs;
  }
  Step-IsSound (receive p k job w fresh d) s = record {
    accounted = λ m. ground (arith, s.accounted m, waiting_times m w);
    once = λ m. fresh_once k p.delivered fresh s.once m;
    answers = s.answers;
    slots = s.slots;
    queued = (d, tt);
    jobs = s.jobs;
  }
  Step-IsSound (spawn p k job w free) s = record {
    accounted = λ m. ground (arith, s.accounted m, waiting_times m w);
    once = s.once;
    answers = s.answers;
    slots = omega (arith, s.slots);
    queued = tt;
    jobs = ((subst (λ o. All IsDecoded (waiting_list o)) w s.queued).0, s.jobs);
  }
  Step-IsSound (finish p before k job after r) s =
      let runs =
        All-append_inv IsDecoded before ((k, job) ∷ after) (subst (All IsDecoded) r s.jobs) in
      record {
        accounted = λ m. ground (
          arith,
          s.accounted m,
          ap (times numbered m) r,
          times-split numbered m before (k, job) after,
        );
        once = s.once;
        answers = (reply_to-IsAnswer k job runs.1.0, s.answers);
        slots = omega (arith, s.slots, ap length r, length-split before (k, job) after);
        queued = s.queued;
        jobs = All-append IsDecoded before after runs.0 runs.1.1;
      }
  Step-IsSound (release p n l) s = record {
    accounted = s.accounted;
    once = s.once;
    answers = s.answers;
    slots = omega (arith, s.slots);
    queued = s.queued;
    jobs = s.jobs;
  }

  -- In every reachable state each delivered message has been answered once and only once, or waits
  -- for a slot, or is being worked on, and never two of these; an answered message was acknowledged
  -- exactly if it is a job whose run has brought its row to done; and no more runs than `capacity`
  -- hold a slot.
  pub Reach-IsSound : {p : Pool} → Reach decode services capacity p → IsSound p
  Reach-IsSound here = record {
    accounted = λ k. refl;
    once = λ k. omega arith;
    answers = tt;
    slots = omega arith;
    queued = tt;
    jobs = tt;
  }
  Reach-IsSound (next r st) = Step-IsSound st (Reach-IsSound r)
