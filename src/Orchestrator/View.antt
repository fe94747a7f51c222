-- ===== src/Orchestrator/View.antt =====
-- What a trace says of the database and the metrics, and a rule for each primitive of the run.
use sherlock.Prelude.{ℕ, ◌+◌, ◌-◌, String, List, [], ◌∷◌, ◌++◌, Option, none, some}
use sherlock.Contracts.{InvestigationStatus, done}
use sherlock.Orchestrator.Effects.{
  Effect, create_investigation, update_status, complete_investigation, begin_tx, commit, rollback,
  count_active, count_inactive, count_completed, Trace, Failure, Outcome, returned, failed_with,
  panicked, M, and_then, ◌>>=◌,
}

-- The statuses that the investigation's row has had, newest first, and those written in a
-- transaction that is open; the labels counted as completed, and the two other counters.
pub record View : Type 0 where
  pub history : List InvestigationStatus
  pub tx : Option (List InvestigationStatus)
  pub completed : List String
  pub active : ℕ

abbrev pub write_in : View → Option (List InvestigationStatus) → InvestigationStatus → View
write_in v none s = record v { history = s ∷ v.history }
write_in v (some ss) s = record v { tx = some (s ∷ ss) }

-- A status goes to the open transaction, if there is one.
abbrev pub write : View → InvestigationStatus → View
write v s = write_in v v.tx s

abbrev commit_in : View → Option (List InvestigationStatus) → View
commit_in v none = v
commit_in v (some ss) = record v { history = ss ++ v.history; tx = none }

-- A call that failed has changed nothing. A rollback ends the transaction in any case.
abbrev pub observe : Effect → Option String → View → View
observe (create_investigation inv) none v = write v inv.status
observe (update_status id s) none v = write v s
observe (complete_investigation id headline confidence) none v = write v done
observe begin_tx none v = record v { tx = some [] }
observe commit none v = commit_in v v.tx
observe rollback e v = record v { tx = none }
observe count_active e v = record v { active = v.active + 1 }
observe count_inactive e v = record v { active = v.active - 1 }
observe (count_completed label) e v = record v { completed = label ∷ v.completed }
observe effect e v = v

abbrev pub start : View
start = record { history = []; tx = none; completed = []; active = 0 }

abbrev pub view : Trace → View
view [] = start
view ((effect, e) ∷ t) = observe effect e (view t)

module _ {A : Type 0} where
  -- What holds when the run returns, fails or panics.
  abbrev pub Holds :
      (A → View → Type 0) → (Failure → View → Type 0) → (View → Type 0) → Outcome A × Trace → Type 0
  Holds Q F X (returned a, t) = Q a (view t)
  Holds Q F X (failed_with e, t) = F e (view t)
  Holds Q F X (panicked, t) = X (view t)

  -- From a trace whose view satisfies `P`.
  abbrev pub Ensures :
      (View → Type 0)
      → M A
      → (A → View → Type 0)
      → (Failure → View → Type 0)
      → (View → Type 0)
      → Type 0
  Ensures P m Q F X = (t : Trace) → P (view t) → Holds Q F X (m t)

and_then-Holds :
    {A B : Type 0} (Q : A → View → Type 0) (R : B → View → Type 0) (F : Failure → View → Type 0)
    (X : View → Type 0) (o : Outcome A) (t : Trace) (f : A → M B)
    → Holds Q F X (o, t)
    → ((a : A) → Ensures (Q a) (f a) R F X)
    → Holds R F X (and_then o f t)
and_then-Holds Q R F X (returned a) t f h k = k a t h
and_then-Holds Q R F X (failed_with e) t f h k = h
and_then-Holds Q R F X panicked t f h k = h

pub bind-Ensures :
    {A B : Type 0} (P : View → Type 0) (Q : A → View → Type 0) (R : B → View → Type 0)
    (F : Failure → View → Type 0) (X : View → Type 0) (m : M A) (f : A → M B)
    → Ensures P m Q F X
    → ((a : A) → Ensures (Q a) (f a) R F X)
    → Ensures P (m >>= f) R F X
bind-Ensures P Q R F X m f h k t p = and_then-Holds Q R F X (m t).0 (m t).1 f (h t p) k
