-- ===== src/Rca/Confidence/Bounds.antt =====
-- What the score of a hypothesis can be.
use sherlock.Prelude.{ℕ, ◌≤◌, List, ◌++◌, String, arith, length, length-append}
use sherlock.Contracts.{Evidence, Hypothesis}
use sherlock.Rca.Evidence.{lookup_evidence}
use sherlock.Rca.Evidence.Lookup.{lookup_evidence-append}
use sherlock.Rca.Confidence.{score, score_confidence}

pub score-le : (c s x k o : ℕ) → score c s x k o ≤ 95
unfolding score
score-le c s x k o = omega arith

score_antitone : (c s x k o y : ℕ) → x ≤ y → score c s y k o ≤ score c s x k o
unfolding score
score_antitone c s x k o y h = ground arith

pub score_confidence-le :
    (h : Hypothesis) (evidence : List Evidence) → score_confidence h evidence ≤ 95
unfolding score_confidence
score_confidence-le h evidence = score-le h.confidence _ _ _ _

-- The score is at most 95 hundredths, and citing further contradicting evidence never raises it.
pub score_confidence-contradicting :
    (h : Hypothesis) (ids : List String) (evidence : List Evidence)
    → (score_confidence (record h { contradicting = h.contradicting ++ ids }) evidence
        ≤ score_confidence h evidence)
      × (score_confidence h evidence ≤ 95)
unfolding score_confidence
score_confidence-contradicting h ids evidence = (
  score_antitone h.confidence _ (length (lookup_evidence h.contradicting evidence)) _ _ _ (
      rw (lookup_evidence-append h.contradicting ids evidence) (
        omega (
          arith,
          length-append (lookup_evidence h.contradicting evidence) (lookup_evidence ids evidence),
        ))),
  score-le h.confidence _ _ _ _,
)
