-- ===== src/Rca/LlmEngine/Analyses.antt =====
-- Which analysis the passes end with.
use sherlock.Prelude.{
  ℕ, zero, suc, ◌+◌, ◌≤◌, ◌≡◌, ◌⊎◌, refl, inl, inr, String, arith, List, Option, none, some,
  is_empty, str_eq, Bool-cases, ltb, ◌&&◌, true, Result, ok, err, OnSome, subst,
}
use sherlock.Contracts.{Attributes, TargetRef, NormalizedAlert}
use sherlock.Analysis.{LlmAnalysis}
use sherlock.Answer.{parse_analysis}
use sherlock.FollowUp.{Progress, execute}
use sherlock.Rca.LlmEngine.{
  is_deep_evidence_empty, LlmEngine, Passed, count_call, after_deep_parse, deep_answer,
  gathered_answer, deep_passes,
}

module _ {E : Type 0} (e : LlmEngine E) where
  -- What the parser reads in the provider's answer to a deep pass, with the number of the pass.
  pub record IsReading (last : LlmAnalysis) : Type 0 where
    pub pass : ℕ
    pub content : String
    pub read : LlmAnalysis
    pub answered : e.complete pass ≡ ok content
    pub parsed : parse_analysis content ≡ some read
    pub marked :
        last ≡ record read { pass_count = pass; deep_dive = true; ai_provider = e.provider_name }

  -- The last analysis is the one before or the reading of a deep pass, and it is of the last pass
  -- that called the provider, or of the one before that.
  pub record IsLast (a : LlmAnalysis) (o : LlmAnalysis × ℕ) : Type 0 where
    pub recent : o.0.pass_count ≤ a.pass_count + o.1
    pub latest : a.pass_count + o.1 ≤ o.0.pass_count + 1
    pub source : (o.0 ≡ a) ⊎ IsReading o.0

  abbrev Last : LlmAnalysis → Passed e → Type 0
  Last a = OnSome (IsLast a)

  same-Last : (a : LlmAnalysis) (n : ℕ) → n ≤ 1 → Last a (some (a, n))
  same-Last a n h = record { recent = omega arith; latest = omega (arith, h); source = inl refl }

  count_call-Last :
      (pass : ℕ) (content : String) (read a : LlmAnalysis) (o : Passed e)
      → a.pass_count + 1 ≡ pass
      → e.complete pass ≡ ok content
      → parse_analysis content ≡ some read
      → Last (record read { pass_count = pass; deep_dive = true; ai_provider = e.provider_name }) o
      → Last a (count_call e o)
  count_call-Last pass content read a none p h k l = tt
  count_call-Last pass content read a (some last) p h k l = record {
    recent = omega (arith, l.recent, p);
    latest = omega (arith, l.latest, p);
    source = elim l.source [
      | inl same ↦ inr (record {
        pass = pass;
        content = content;
        read = read;
        answered = h;
        parsed = k;
        marked = same;
      })
      | inr reading ↦ inr reading
    ];
  }

  after_deep_parse-Last :
      (next : LlmAnalysis → Passed e) (pass : ℕ) (content : String) (a : LlmAnalysis)
      (o : Option LlmAnalysis)
      → a.pass_count + 1 ≡ pass
      → e.complete pass ≡ ok content
      → parse_analysis content ≡ o
      → ((b : LlmAnalysis) → b.pass_count + 1 ≡ suc pass → Last b (next b))
      → Last a (after_deep_parse e next pass o)
  after_deep_parse-Last next pass content a none p h k l = tt
  after_deep_parse-Last next pass content a (some read) p h k l =
      count_call-Last pass content read a _ p h k (l _ (omega arith))

  deep_answer-Last :
      (next : LlmAnalysis → Passed e) (pass : ℕ) (a : LlmAnalysis) (answer : Result E String)
      → a.pass_count + 1 ≡ pass
      → e.complete pass ≡ answer
      → ((b : LlmAnalysis) → b.pass_count + 1 ≡ suc pass → Last b (next b))
      → Last a (deep_answer e next pass a answer)
  deep_answer-Last next pass a (err x) p h l = same-Last a 1 (omega arith)
  deep_answer-Last next pass a (ok content) p h l =
      after_deep_parse-Last next pass content a (parse_analysis content) p h refl l

  gathered_answer-Last :
      (next : Option Attributes → LlmAnalysis → Passed e) (pass : ℕ) (a : LlmAnalysis)
      (o : Option Progress)
      → a.pass_count + 1 ≡ pass
      → ((m : Option Attributes) (b : LlmAnalysis)
          → b.pass_count + 1 ≡ suc pass
          → Last b (next m b))
      → Last a (gathered_answer e next pass a o)
  gathered_answer-Last next pass a none p l = tt
  gathered_answer-Last next pass a (some s) p l =
      elim (Bool-cases (is_deep_evidence_empty (some s.deep))) [
        | inl blank ↦ rw blank (same-Last a 0 (omega arith))
        | inr full ↦
            rw full (deep_answer-Last (next s.labels) pass a (e.complete pass) p refl (l s.labels))
      ]

  module _ (alert : NormalizedAlert) (targets : List TargetRef) where
    deep_passes-Last :
        (left pass : ℕ) (labels : Option Attributes) (a : LlmAnalysis)
        → a.pass_count + 1 ≡ pass
        → Last a (deep_passes e alert targets left pass labels a)
    unfolding deep_passes
    deep_passes-Last zero pass labels a p = same-Last a 0 (omega arith)
    deep_passes-Last (suc left) pass labels a p = elim (Bool-cases (is_empty a.follow_ups)) [
      | inl no_requests ↦ rw no_requests (same-Last a 0 (omega arith))
      | inr requests ↦ elim (Bool-cases (ltb 2 pass && str_eq a.confidence "high")) [
        | inl sure ↦ rw (requests, sure) (same-Last a 0 (omega arith))
        | inr unsure ↦
            rw (requests, unsure)
              (gathered_answer-Last (λ l b. deep_passes e alert targets left (suc pass) l b) pass a
                (execute (e.follow_up pass) alert targets labels a.follow_ups) p
                (λ m b q. deep_passes-Last left (suc pass) m b q))
      ]
    ]

    -- From an analysis of the pass before, the deep passes end, if no parse or follow-up panics, with
    -- that analysis or with what the parser reads in the provider's answer to one of them, which is
    -- the last pass that called the provider or the one before that.
    pub deep_passes-IsLast :
        (left pass : ℕ) (labels : Option Attributes) (a : LlmAnalysis) {o : LlmAnalysis × ℕ}
        → a.pass_count + 1 ≡ pass
        → deep_passes e alert targets left pass labels a ≡ some o
        → IsLast a o
    deep_passes-IsLast left pass labels a p h =
        subst (Last a) h (deep_passes-Last left pass labels a p)
