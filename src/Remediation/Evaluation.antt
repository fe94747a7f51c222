-- ===== src/Remediation/Evaluation.antt =====
-- `Evaluate` against the list of all fixes that it may suggest.
use sherlock.Prelude.{
  ◌≡◌, refl, sym, ap, ◌∙◌, String, List, [], ◌∷◌, ◌++◌, map, if◌then◌else◌, inl, inr, Bool-cases,
}
use mathlib.Core.List.{append-nil}
use sherlock.Contracts.{Hypothesis, SuggestedFix}
use sherlock.Remediation.Fixes.{
  Seen, add_fixes, IsDistinct, IsValid, find_title, add_fixes-IsValid, add_fixes-find,
}
use sherlock.Remediation.{
  Policy, Engine, policy_matches, fix_of, hypothesis_loop, policy_loop, policies_loop, evaluate,
}

-- The fixes of the hypotheses, in order.
abbrev pub own_fixes : List Hypothesis → List SuggestedFix
own_fixes [] = []
own_fixes (h ∷ hs) = h.suggested_fixes ++ own_fixes hs

-- The fixes of the policies that match a hypothesis.
abbrev pub matching_fixes : Hypothesis → List Policy → List SuggestedFix
matching_fixes h [] = []
matching_fixes h (p ∷ ps) =
    let rest = matching_fixes h ps in
    if policy_matches p h then map fix_of p.actions ++ rest else rest

abbrev pub policy_fixes : Engine → List Hypothesis → List SuggestedFix
policy_fixes policies [] = []
policy_fixes policies (h ∷ hs) = matching_fixes h policies ++ policy_fixes policies hs

add_fixes-append :
    (xs ys : List SuggestedFix) (s : Seen) → add_fixes (add_fixes s xs) ys ≡ add_fixes s (xs ++ ys)
unfolding add_fixes
add_fixes-append [] ys s = refl
add_fixes-append (x ∷ xs) ys s = add_fixes-append xs ys _

hypothesis_loop_lem :
    (hs : List Hypothesis) (s : Seen) → hypothesis_loop s hs ≡ add_fixes s (own_fixes hs)
unfolding hypothesis_loop
hypothesis_loop_lem [] s = unfold add_fixes in refl
hypothesis_loop_lem (h ∷ hs) s =
    hypothesis_loop_lem hs (add_fixes s h.suggested_fixes)
    ∙ add_fixes-append h.suggested_fixes (own_fixes hs) s

policy_loop_lem :
    (h : Hypothesis) (ps : List Policy) (s : Seen)
    → policy_loop h s ps ≡ add_fixes s (matching_fixes h ps)
unfolding policy_loop
policy_loop_lem h [] s = unfold add_fixes in refl
policy_loop_lem h (p ∷ ps) s = elim (Bool-cases (policy_matches p h)) [
  | inl fits ↦ rw fits (
      policy_loop_lem h ps (add_fixes s (map fix_of p.actions))
      ∙ add_fixes-append (map fix_of p.actions) (matching_fixes h ps) s)
  | inr other ↦ rw other (policy_loop_lem h ps s)
]

policies_loop_lem :
    (policies : Engine) (hs : List Hypothesis) (s : Seen)
    → policies_loop policies s hs ≡ add_fixes s (policy_fixes policies hs)
unfolding policies_loop
policies_loop_lem policies [] s = unfold add_fixes in refl
policies_loop_lem policies (h ∷ hs) s =
    policies_loop_lem policies hs (policy_loop h s policies)
    ∙ ap (λ r. add_fixes r (policy_fixes policies hs)) (policy_loop_lem h policies s)
    ∙ add_fixes-append (matching_fixes h policies) (policy_fixes policies hs) s

evaluate_lem :
    (policies : Engine) (hs : List Hypothesis)
    → evaluate policies hs ≡ (add_fixes ([], []) (own_fixes hs ++ policy_fixes policies hs)).1
unfolding evaluate
evaluate_lem policies hs =
    ap (λ r. r.1)
      (policies_loop_lem policies hs (hypothesis_loop ([], []) hs)
        ∙ ap (λ r. add_fixes r (policy_fixes policies hs)) (hypothesis_loop_lem hs ([], []))
        ∙ add_fixes-append (own_fixes hs) (policy_fixes policies hs) ([], []))

empty-IsValid : IsValid ([], [])
empty-IsValid = record { tracked = λ t. refl; distinct = tt }

-- `Evaluate` suggests each title once, and exactly the titles of the hypotheses' own fixes and of the
-- actions of the policies that match one of them; of fixes with one title it keeps the first, so a
-- hypothesis's own fix comes before a policy's.
pub evaluate-find :
    (policies : Engine) (hs : List Hypothesis)
    → IsDistinct (evaluate policies hs)
      × ((t : String)
          → find_title t (evaluate policies hs)
            ≡ find_title t (own_fixes hs ++ policy_fixes policies hs))
evaluate-find policies hs =
    let all_fixes = own_fixes hs ++ policy_fixes policies hs in
    rw (evaluate_lem policies hs) (
      (add_fixes-IsValid all_fixes ([], []) empty-IsValid).distinct,
      λ t.
          ap (find_title t) (sym (append-nil _))
          ∙ add_fixes-find t all_fixes ([], []) [] empty-IsValid
          ∙ ap (find_title t) (append-nil all_fixes),
    )
