-- ===== src/Timeline/Order.antt =====
-- The timeline is in order, complete, and of one investigation.
use mathlib.Core.List.{Permᴰ}
use sherlock.Prelude.{
  ℕ, suc, ◌+◌, ◌≡◌, refl, sym, ap, ◌∙◌, String, Bool, false, List, [], ◌∷◌, map, arith, ltb, str_eq,
  ◌||◌, ◌&&◌, not, eq_iff, if◌then◌else◌, length, length-append, length-map, All, IsSorted,
  SortSlice,
}
use sherlock.Contracts.{
  Evidence, TimelineEvent, InvestigationData, evidence_event, evidence_k8s_state, evidence_metric,
  evidence_log, evidence_deploy,
}
use sherlock.Timeline.{
  alert_event, evidence_event_of, prepend_event, evidence_events, earlier, stamp, unsorted_events,
  build,
}

-- A built event without its two identifiers.
abbrev pub unstamped : TimelineEvent → TimelineEvent
unstamped ev = record ev { id = ""; investigation_id = "" }

All-stamp :
    (P : TimelineEvent → Type 0) (new_id : ℕ → String) (inv : String) (i : ℕ)
    (evs : List TimelineEvent)
    → ((ev : TimelineEvent) (id : String)
        → P ev
        → P (record ev { id = id; investigation_id = inv }))
    → All P evs
    → All P (stamp new_id inv i evs)
unfolding stamp
All-stamp P new_id inv i [] blind ps = tt
All-stamp P new_id inv i (ev ∷ evs) blind ps =
    (blind ev (new_id i) ps.0, All-stamp P new_id inv (suc i) evs blind ps.1)

IsSorted-stamp :
    (new_id : ℕ → String) (inv : String) (i : ℕ) (evs : List TimelineEvent)
    → IsSorted earlier evs
    → IsSorted earlier (stamp new_id inv i evs)
unfolding stamp
IsSorted-stamp new_id inv i [] ps = tt
IsSorted-stamp new_id inv i (ev ∷ evs) ps = (
  All-stamp (λ k. earlier k ev ≡ false) new_id inv (suc i) evs (λ k id p. p) ps.0,
  IsSorted-stamp new_id inv (suc i) evs ps.1,
)

stamp-investigation_id :
    (new_id : ℕ → String) (inv : String) (i : ℕ) (evs : List TimelineEvent)
    → All (λ ev. ev.investigation_id ≡ inv) (stamp new_id inv i evs)
unfolding stamp
stamp-investigation_id new_id inv i [] = tt
stamp-investigation_id new_id inv i (ev ∷ evs) =
    (refl, stamp-investigation_id new_id inv (suc i) evs)

-- Which evidence the timeline shows: cluster events and deployments, and metrics and logs of a score
-- of at least 50 hundredths.
abbrev pub is_shown : Evidence → Bool
is_shown e =
    str_eq e.kind evidence_event
    || str_eq e.kind evidence_k8s_state
    || str_eq e.kind evidence_deploy
    || (not (ltb e.score 50) && (str_eq e.kind evidence_metric || str_eq e.kind evidence_log))

abbrev pub count_shown : List Evidence → ℕ
count_shown [] = 0
count_shown (e ∷ es) = let rest = count_shown es in if is_shown e then suc rest else rest

evidence_event_of_shown :
    (e : Evidence) (rest : List TimelineEvent) (n : ℕ)
    → length rest ≡ n
    → length (prepend_event (evidence_event_of e) rest) ≡ (if is_shown e then suc n else n)
unfolding evidence_event_of
evidence_event_of_shown e rest n h = ground (
  arith,
  eq_iff e.kind evidence_metric,
  eq_iff e.kind evidence_deploy,
  eq_iff evidence_metric evidence_deploy,
  eq_iff e.kind evidence_log,
  eq_iff evidence_log evidence_deploy,
  eq_iff evidence_metric evidence_log,
)

length-evidence_events : (es : List Evidence) → length (evidence_events es) ≡ count_shown es
unfolding evidence_events
length-evidence_events [] = refl
length-evidence_events (e ∷ es) =
    evidence_event_of_shown e (evidence_events es) (count_shown es) (length-evidence_events es)

-- Every element of one of two lists in a rearrangement, counted.
length-perm : {xs ys : List TimelineEvent} → Permᴰ xs ys → length xs ≡ length ys
length-perm Permᴰ.nil = refl
length-perm (Permᴰ.cons e p) = ap suc (length-perm p)
length-perm (Permᴰ.swap e d) = refl
length-perm (Permᴰ.trans p q) = length-perm p ∙ length-perm q

map-stamp :
    (new_id : ℕ → String) (inv : String) (i : ℕ) (evs : List TimelineEvent)
    → map unstamped (stamp new_id inv i evs) ≡ map unstamped evs
unfolding stamp
map-stamp new_id inv i [] = refl
map-stamp new_id inv i (ev ∷ evs) = rw (map-stamp new_id inv (suc i) evs)

map-perm : {xs ys : List TimelineEvent} → Permᴰ xs ys → Permᴰ (map unstamped xs) (map unstamped ys)
map-perm Permᴰ.nil = Permᴰ.nil
map-perm (Permᴰ.cons e p) = Permᴰ.cons (ap unstamped e) (map-perm p)
map-perm (Permᴰ.swap e d) = Permᴰ.swap (ap unstamped e) (ap unstamped d)
map-perm (Permᴰ.trans p q) = Permᴰ.trans (map-perm p) (map-perm q)

length-stamp :
    (new_id : ℕ → String) (inv : String) (i : ℕ) (evs : List TimelineEvent)
    → length (stamp new_id inv i evs) ≡ length evs
unfolding stamp
length-stamp new_id inv i [] = refl
length-stamp new_id inv i (ev ∷ evs) = ap suc (length-stamp new_id inv (suc i) evs)

length-unsorted_events :
    (d : InvestigationData) → length (unsorted_events d) ≡ length d.alerts + count_shown d.evidence
unfolding unsorted_events
length-unsorted_events d = omega (
  arith,
  length-append (map alert_event d.alerts) (evidence_events d.evidence),
  length-map alert_event d.alerts,
  length-evidence_events d.evidence,
)

module _ (s : SortSlice TimelineEvent earlier) (new_id : ℕ → String) where
  -- The timeline is in order of time, all of it of the investigation, and but for the identifiers it
  -- is a rearrangement of the alerts' and the evidence's events: one for each alert and one for each
  -- item of evidence that is shown.
  pub build_lem :
      (d : InvestigationData)
      → IsSorted earlier (build s new_id d)
        × All (λ ev. ev.investigation_id ≡ d.investigation.id) (build s new_id d)
        × Permᴰ (map unstamped (unsorted_events d)) (map unstamped (build s new_id d))
        × (length (build s new_id d) ≡ length d.alerts + count_shown d.evidence)
  unfolding build
  build_lem d =
      let sorted = s.sort (unsorted_events d) in
      let inv = d.investigation.id in
      (
        IsSorted-stamp new_id inv 0 sorted (s.sort-IsSorted (unsorted_events d)),
        stamp-investigation_id new_id inv 0 sorted,
        rw (map-stamp new_id inv 0 sorted) (map-perm (s.sort-perm (unsorted_events d))),
        length-stamp new_id inv 0 sorted
            ∙ sym (length-perm (s.sort-perm (unsorted_events d)))
            ∙ length-unsorted_events d,
      )
