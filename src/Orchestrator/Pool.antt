-- ===== src/Orchestrator/Pool.antt =====
-- `Start` of internal/investigation/orchestrator.go: the queue's handler, the semaphore and the
-- goroutines, with `Subscribe` of internal/queue/queue.go, which refuses a message whose handler
-- returns an error. Each delivery of a message has a number of its own. Its JSON and the answers that
-- the services give its run are parameters, and `capacity` is the semaphore's.
use sherlock.Prelude.{
  ℕ, ◌+◌, ◌<◌, ◌≡◌, List, [], ◌∷◌, ◌++◌, Option, none, some, length, if◌then◌else◌, ◌==◌, suc,
}
use sherlock.Contracts.{InvestigationJob}
use sherlock.Orchestrator.{run_investigation}
use sherlock.Orchestrator.Effects.{Services}
use sherlock.Orchestrator.Replies.{Reply, nak, reply_of}

-- The handler is called for one message at a time, and may wait for a slot with its job. A goroutine
-- that has replied still holds its slot until it leaves.
pub record Pool : Type 0 where
  pub delivered : List ℕ
  pub waiting : Option (ℕ × InvestigationJob)
  pub running : List (ℕ × InvestigationJob)
  pub leaving : ℕ
  pub replies : List (ℕ × Reply)

-- How many of a list have the number.
abbrev pub times : {A : Type 0} → (A → ℕ) → ℕ → List A → ℕ
times number k [] = 0
times number k (x ∷ xs) = let rest = times number k xs in if number x == k then suc rest else rest

abbrev pub plain : ℕ → ℕ
plain n = n

abbrev pub numbered : {A : Type 0} → ℕ × A → ℕ
numbered x = x.0

abbrev pub idle : Pool
idle = record { delivered = []; waiting = none; running = []; leaving = 0; replies = [] }

module _ (decode : ℕ → Option InvestigationJob) (services : ℕ → Services) (capacity : ℕ) where
  -- The reply of the goroutine of a message, once its run has ended.
  abbrev pub reply_to : ℕ → InvestigationJob → Reply
  reply_to k job = reply_of (run_investigation (services k) job []).0

  pub data Step : Pool → Pool → Type 0 where
    -- A message that is no job: the handler returns an error, and the queue naks it.
    undecodable :
        (p : Pool) (k : ℕ)
        → p.waiting ≡ none
        → times plain k p.delivered ≡ 0
        → decode k ≡ none
        → Step p (record p { delivered = k ∷ p.delivered; replies = (k, nak) ∷ p.replies })
    receive :
        (p : Pool) (k : ℕ) (job : InvestigationJob)
        → p.waiting ≡ none
        → times plain k p.delivered ≡ 0
        → decode k ≡ some job
        → Step p (record p { delivered = k ∷ p.delivered; waiting = some (k, job) })
    -- `o.sem <- struct{}{}` goes through, and the goroutine starts.
    spawn :
        (p : Pool) (k : ℕ) (job : InvestigationJob)
        → p.waiting ≡ some (k, job)
        → length p.running + p.leaving < capacity
        → Step p (record p { waiting = none; running = (k, job) ∷ p.running })
    -- A run ends, in whatever order, and its goroutine replies.
    finish :
        (p : Pool) (before : List (ℕ × InvestigationJob)) (k : ℕ) (job : InvestigationJob)
        (after : List (ℕ × InvestigationJob))
        → p.running ≡ before ++ (k, job) ∷ after
        → Step p (record p {
          running = before ++ after;
          leaving = suc p.leaving;
          replies = (k, reply_to k job) ∷ p.replies;
        })
    -- `<-o.sem`
    release : (p : Pool) (n : ℕ) → p.leaving ≡ suc n → Step p (record p { leaving = n })

  pub data Reach : Pool → Type 0 where
    here : Reach idle
    next : {p q : Pool} → Reach p → Step p q → Reach q
