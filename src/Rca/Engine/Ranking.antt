-- ===== src/Rca/Engine/Ranking.antt =====
-- What `Rank` returns: the best five, in order, each backed by evidence.
use sherlock.Prelude.{
  ℕ, zero, suc, ◌≤◌, ◌≡◌, refl, String, false, List, [], ◌∷◌, ◌++◌, Option, none, some, arith,
  length, take, drop, take-append-drop, length-take-le, All, All-imp, All-map, All-take, All-append,
  All-perm, IsSorted, IsSorted-take, IsSorted-take-drop, SortSlice, OnSome,
}
use mathlib.Core.List.{Permᴰ}
use sherlock.Contracts.{Evidence, Hypothesis}
use sherlock.Rca.Confidence.Bounds.{score_confidence-le}
use sherlock.Rca.Rules.Backed.{IsBacked}
use sherlock.Rca.Engine.{
  more_confident, append_results, score_all, rescore, assign_ids, rank_all, rank_results,
}

take-assign_ids :
    (new_id : ℕ → String) (n i : ℕ) (hs : List Hypothesis)
    → take n (assign_ids new_id i hs) ≡ assign_ids new_id i (take n hs)
unfolding assign_ids
take-assign_ids new_id zero i hs = refl
take-assign_ids new_id (suc n) i [] = refl
take-assign_ids new_id (suc n) i (h ∷ hs) = rw (take-assign_ids new_id n (suc i) hs)

length-assign_ids :
    (new_id : ℕ → String) (i : ℕ) (hs : List Hypothesis)
    → length (assign_ids new_id i hs) ≡ length hs
unfolding assign_ids
length-assign_ids new_id i [] = refl
length-assign_ids new_id i (h ∷ hs) = omega (arith, length-assign_ids new_id (suc i) hs)

-- A new ID changes nothing that a predicate blind to IDs can see.
All-assign_ids :
    (P : Hypothesis → Type 0) (new_id : ℕ → String) (i : ℕ) (hs : List Hypothesis)
    → ((h : Hypothesis) (id : String) → P h → P (record h { id = id }))
    → All P hs
    → All P (assign_ids new_id i hs)
unfolding assign_ids
All-assign_ids P new_id i [] blind ps = tt
All-assign_ids P new_id i (h ∷ hs) blind ps =
    (blind h (new_id i) ps.0, All-assign_ids P new_id (suc i) hs blind ps.1)

IsSorted-assign_ids :
    (new_id : ℕ → String) (i : ℕ) (hs : List Hypothesis)
    → IsSorted more_confident hs
    → IsSorted more_confident (assign_ids new_id i hs)
unfolding assign_ids
IsSorted-assign_ids new_id i [] ps = tt
IsSorted-assign_ids new_id i (h ∷ hs) ps = (
  All-assign_ids (λ k. more_confident k h ≡ false) new_id (suc i) hs (λ k id p. p) ps.0,
  IsSorted-assign_ids new_id (suc i) hs ps.1,
)

module _ (s : SortSlice Hypothesis more_confident) (new_id : ℕ → String) where
  -- The sorted hypotheses fall into those that are returned, with new IDs, and those that are
  -- dropped; none of the latter is more confident than one of the former.
  pub rank_all-split :
      (evidence : List Evidence) (hs : List Hypothesis)
      → (kept dropped : List Hypothesis) × (rank_all s new_id evidence hs
          ≡ assign_ids new_id 0 kept)
        × Permᴰ (score_all evidence hs) (kept ++ dropped)
        × (length kept ≤ 5)
        × All (λ k. All (λ d. more_confident d k ≡ false) dropped) kept
  unfolding rank_all
  rank_all-split evidence hs =
      let sorted = s.sort (score_all evidence hs) in
      (
        take 5 sorted,
        drop 5 sorted,
        take-assign_ids new_id 5 0 sorted,
        rw (take-append-drop 5 sorted) (s.sort-perm (score_all evidence hs)),
        length-take-le 5 sorted,
        IsSorted-take-drop more_confident 5 sorted (s.sort-IsSorted (score_all evidence hs)),
      )

-- A ranked hypothesis: backed by collected evidence and of a confidence that does not pass 95.
pub record IsRanked (evidence : List Evidence) (h : Hypothesis) : Type 0 where
  pub backed : IsBacked evidence h
  pub capped : h.confidence ≤ 95

-- At most five, in order of confidence, each backed.
abbrev pub IsRanking : List Evidence → List Hypothesis → Type 0
IsRanking evidence hs = (length hs ≤ 5) × IsSorted more_confident hs × All (IsRanked evidence) hs

IsRanked-rescore :
    (evidence : List Evidence) (h : Hypothesis)
    → IsBacked evidence h
    → IsRanked evidence (rescore evidence h)
unfolding rescore
IsRanked-rescore evidence h b = record {
  backed = record { cites = b.cites; listed = b.listed; uncontradicted = b.uncontradicted };
  capped = score_confidence-le h evidence;
}

AllRanked-score_all :
    (evidence : List Evidence) (hs : List Hypothesis)
    → All (IsBacked evidence) hs
    → All (IsRanked evidence) (score_all evidence hs)
unfolding score_all
AllRanked-score_all evidence hs b = All-map (IsRanked evidence) (rescore evidence) hs (
    All-imp (IsBacked evidence) (λ h. IsRanked evidence (rescore evidence h)) hs
      (IsRanked-rescore evidence) b)

IsRanked-id :
    (evidence : List Evidence) (h : Hypothesis) (id : String)
    → IsRanked evidence h
    → IsRanked evidence (record h { id = id })
IsRanked-id evidence h id r = record {
  backed = record {
    cites = r.backed.cites;
    listed = r.backed.listed;
    uncontradicted = r.backed.uncontradicted;
  };
  capped = r.capped;
}

module _ (s : SortSlice Hypothesis more_confident) (new_id : ℕ → String) where
  rank_all-IsRanked :
      (evidence : List Evidence) (hs : List Hypothesis)
      → All (IsBacked evidence) hs
      → All (IsRanked evidence) (rank_all s new_id evidence hs)
  unfolding rank_all
  rank_all-IsRanked evidence hs b = All-take (IsRanked evidence) 5 _ (
      All-assign_ids (IsRanked evidence) new_id 0 (s.sort (score_all evidence hs))
        (IsRanked-id evidence)
        (All-perm (IsRanked evidence) (s.sort-perm (score_all evidence hs))
          (AllRanked-score_all evidence hs b)))

  rank_all-IsSorted :
      (evidence : List Evidence) (hs : List Hypothesis)
      → IsSorted more_confident (rank_all s new_id evidence hs)
  unfolding rank_all
  rank_all-IsSorted evidence hs = IsSorted-take more_confident 5 _ (
      IsSorted-assign_ids new_id 0 (s.sort (score_all evidence hs))
        (s.sort-IsSorted (score_all evidence hs)))

  length-rank_all-le :
      (evidence : List Evidence) (hs : List Hypothesis) → length (rank_all s new_id evidence hs) ≤ 5
  unfolding rank_all
  length-rank_all-le evidence hs = length-take-le 5 _

  pub rank_results-IsRanking :
      (evidence : List Evidence) (o : Option (List Hypothesis))
      → OnSome (All (IsBacked evidence)) o
      → OnSome (IsRanking evidence) (rank_results s new_id evidence o)
  rank_results-IsRanking evidence none b = tt
  rank_results-IsRanking evidence (some hs) b = (
    length-rank_all-le evidence hs,
    rank_all-IsSorted evidence hs,
    rank_all-IsRanked evidence hs b,
  )

pub AllBacked-append :
    (evidence : List Evidence) (o rest : Option (List Hypothesis))
    → OnSome (All (IsBacked evidence)) o
    → OnSome (All (IsBacked evidence)) rest
    → OnSome (All (IsBacked evidence)) (append_results o rest)
AllBacked-append evidence none rest h k = tt
AllBacked-append evidence (some hs) none h k = tt
AllBacked-append evidence (some hs) (some ks) h k = All-append (IsBacked evidence) hs ks h k
