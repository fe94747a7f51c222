-- ===== src/Gateway/Published.antt =====
-- What the loop over the alerts of a webhook puts on the queue, and what it counts.
use sherlock.Prelude.{
  ℕ, suc, ◌≡◌, refl, ◌∙◌, ap, inl, inr, String, Bool, true, false, List, [], ◌∷◌, ◌++◌, Option,
  none, some, str_eq, if◌then◌else◌, Result, ok, err, Bool-cases, Option-cases, arith,
}
use sherlock.Contracts.{NormalizedAlert, DedupResult}
use sherlock.Gateway.{
  GatewayCall, Gateway, Request, Verdict, handled, skipped, aborted, stamp, notify_calls,
  after_dedup, dedup_stage, after_suppress, suppress_stage, job_of, subject, after_publish,
  publish_payload, publish_stage, combine, add_skip, handle_alert, after_alert, alerts_loop,
}
use sherlock.Gateway.Wanted.{
  payloads, payloads-append, says_duplicate, says_suppressed, is_duplicate, is_suppressed,
  is_skipped, add_payload, wanted, count_skipped, until_refused, any_refused,
}

module _ {E : Type 0} (g : Gateway E) (r : Request E) where
  payloads-notify_calls :
      (a : NormalizedAlert) (d : DedupResult) → payloads (notify_calls g r a d) ≡ []
  payloads-notify_calls a d = ground arith

  after_dedup_lem :
      (a : NormalizedAlert) (x : Result E (Option DedupResult))
      → ((after_dedup g r a x).0 ≡ says_duplicate x) × (payloads (after_dedup g r a x).1 ≡ [])
  after_dedup_lem a (err e) = (refl, refl)
  after_dedup_lem a (ok none) = (refl, refl)
  after_dedup_lem a (ok (some d)) = elim (Bool-cases d.is_duplicate) [
    | inl old ↦ rw old (refl, payloads-notify_calls a d)
    | inr new ↦ rw new (refl, refl)
  ]

  dedup_stage_lem :
      (i : ℕ) (a : NormalizedAlert)
      → ((dedup_stage g r i a).0 ≡ is_duplicate g r i a) × (payloads (dedup_stage g r i a).1 ≡ [])
  unfolding dedup_stage
  dedup_stage_lem i a = elim (Option-cases g.dedup) [
    | inl absent ↦ rw absent (refl, refl)
    | inr (checker, given) ↦ rw given (after_dedup_lem a (checker i a))
  ]

  after_suppress_lem :
      (fp : String) (x : Result E Bool)
      → ((after_suppress g r fp x).0 ≡ says_suppressed x)
        × (payloads (after_suppress g r fp x).1 ≡ [])
  after_suppress_lem fp (err e) = (refl, refl)
  after_suppress_lem fp (ok true) = (refl, refl)
  after_suppress_lem fp (ok false) = (refl, refl)

  suppress_stage_lem :
      (i : ℕ) (a : NormalizedAlert)
      → ((suppress_stage g r i a).0 ≡ is_suppressed g r i a)
        × (payloads (suppress_stage g r i a).1 ≡ [])
  unfolding suppress_stage
  suppress_stage_lem i a = elim (Option-cases g.suppress) [
    | inl absent ↦ rw absent (refl, refl)
    | inr (checker, given) ↦ rw given (elim (Bool-cases (str_eq a.fingerprint "")) [
      | inl blank ↦ rw blank (refl, refl)
      | inr marked ↦ rw marked (after_suppress_lem a.fingerprint (checker i a.fingerprint))
    ])
  ]

  combine_skip :
      (d s : Bool × List GatewayCall) (v : Verdict × List GatewayCall)
      → payloads d.1 ≡ []
      → payloads s.1 ≡ []
      → (if d.0 then true else s.0) ≡ true
      → ((combine g r d s v).0 ≡ skipped) × (payloads (combine g r d s v).1 ≡ [])
  combine_skip (true, dc) s v hd hs h = (refl, hd)
  combine_skip (false, dc) (true, sc) v hd hs h = (refl, payloads-append dc sc ∙ cc)
  combine_skip (false, dc) (false, sc) v hd hs h = absurd (cc)

  combine_pass :
      (d s : Bool × List GatewayCall) (v : Verdict × List GatewayCall)
      → payloads d.1 ≡ []
      → payloads s.1 ≡ []
      → (if d.0 then true else s.0) ≡ false
      → ((combine g r d s v).0 ≡ v.0) × (payloads (combine g r d s v).1 ≡ payloads v.1)
  combine_pass (true, dc) s v hd hs h = absurd (cc)
  combine_pass (false, dc) (true, sc) v hd hs h = absurd (cc)
  combine_pass (false, dc) (false, sc) (v, vc) hd hs h =
      (refl, simp (payloads-append dc (sc ++ vc), payloads-append sc vc, hd, hs))

  pub handle_alert_skip :
      (i : ℕ) (a : NormalizedAlert)
      → is_skipped g r i a ≡ true
      → ((handle_alert g r i a).0 ≡ skipped) × (payloads (handle_alert g r i a).1 ≡ [])
  unfolding handle_alert
  handle_alert_skip i a h =
      let d = dedup_stage_lem i a in
      let s = suppress_stage_lem i a in
      combine_skip (dedup_stage g r i a) (suppress_stage g r i a) (publish_stage g r i a) d.1 s.1
        (rw (d.0, s.0) h)

  pub handle_alert_pass :
      (i : ℕ) (a : NormalizedAlert)
      → is_skipped g r i a ≡ false
      → ((handle_alert g r i a).0 ≡ (publish_stage g r i a).0)
        × (payloads (handle_alert g r i a).1 ≡ payloads (publish_stage g r i a).1)
  unfolding handle_alert
  handle_alert_pass i a h =
      let d = dedup_stage_lem i a in
      let s = suppress_stage_lem i a in
      combine_pass (dedup_stage g r i a) (suppress_stage g r i a) (publish_stage g r i a) d.1 s.1
        (rw (d.0, s.0) h)

  -- What the loop returns for these payloads and this many skipped alerts.
  pub record IsLoop (ps : List (ℕ × String)) (n : ℕ) (result : Option ℕ × List GatewayCall)
      : Type 0 where
    pub counted : result.0 ≡ (if any_refused g r ps then none else some n)
    pub published : payloads result.1 ≡ until_refused g r ps

  add_skip-if :
      (b : Bool) (n : ℕ)
      → add_skip g r (if b then none else some n) ≡ (if b then none else some (suc n))
  add_skip-if true n = refl
  add_skip-if false n = refl

  skip-IsLoop :
      (ps : List (ℕ × String)) (n : ℕ) (head : Verdict × List GatewayCall)
      (rest : Option ℕ × List GatewayCall)
      → (head.0 ≡ skipped) × (payloads head.1 ≡ [])
      → IsLoop ps n rest
      → IsLoop ps (suc n) (after_alert g r head rest)
  skip-IsLoop ps n (skipped, calls) (count, more) h l = record {
    counted = ap (add_skip g r) l.counted ∙ add_skip-if (any_refused g r ps) n;
    published = payloads-append calls more ∙ ap (λ x. x ++ payloads more) h.1 ∙ l.published;
  }
  skip-IsLoop ps n (handled, calls) rest h l = absurd (cc (h.0))
  skip-IsLoop ps n (aborted, calls) rest h l = absurd (cc (h.0))

  published-IsLoop :
      (i : ℕ) (ps : List (ℕ × String)) (n : ℕ) (payload : String) (answer : Option E)
      (head : Verdict × List GatewayCall) (rest : Option ℕ × List GatewayCall)
      → g.publisher i (subject g r) payload ≡ answer
      → (head.0 ≡ after_publish g r answer) × (payloads head.1 ≡ payload ∷ [])
      → IsLoop ps n rest
      → IsLoop ((i, payload) ∷ ps) n (after_alert g r head rest)
  published-IsLoop i ps n payload none (handled, calls) (count, more) e h l = record {
    counted = rw e l.counted;
    published =
        payloads-append calls more
        ∙ ap (λ x. x ++ payloads more) h.1
        ∙ rw e (ap (λ x. payload ∷ x) l.published);
  }
  published-IsLoop i ps n payload (some x) (aborted, calls) (count, more) e h l = record {
    counted = rw e refl;
    published = rw e h.1;
  }
  published-IsLoop i ps n payload none (skipped, calls) rest e h l = absurd (cc (h.0))
  published-IsLoop i ps n payload none (aborted, calls) rest e h l = absurd (cc (h.0))
  published-IsLoop i ps n payload (some x) (skipped, calls) rest e h l = absurd (cc (h.0))
  published-IsLoop i ps n payload (some x) (handled, calls) rest e h l = absurd (cc (h.0))

  pass-IsLoop :
      (i : ℕ) (ps : List (ℕ × String)) (n : ℕ) (encoded : Result E String)
      (head : Verdict × List GatewayCall) (rest : Option ℕ × List GatewayCall)
      → (head.0 ≡ (publish_payload g r i encoded).0)
        × (payloads head.1 ≡ payloads (publish_payload g r i encoded).1)
      → IsLoop ps n rest
      → IsLoop (add_payload g r i encoded ps) n (after_alert g r head rest)
  pass-IsLoop i ps n (err e) (handled, calls) (count, more) h l = record {
    counted = l.counted;
    published = payloads-append calls more ∙ ap (λ x. x ++ payloads more) h.1 ∙ l.published;
  }
  pass-IsLoop i ps n (err e) (skipped, calls) rest h l = absurd (cc (h.0))
  pass-IsLoop i ps n (err e) (aborted, calls) rest h l = absurd (cc (h.0))
  pass-IsLoop i ps n (ok payload) head rest h l =
      published-IsLoop i ps n payload (g.publisher i (subject g r) payload) head rest refl h l

  pub alerts_loop-IsLoop :
      (i : ℕ) (alerts : List NormalizedAlert)
      → IsLoop (wanted g r i alerts) (count_skipped g r i alerts) (alerts_loop g r i alerts)
  unfolding alerts_loop publish_stage
  alerts_loop-IsLoop i [] = record { counted = refl; published = refl }
  alerts_loop-IsLoop i (a ∷ rest) =
      let stamped = stamp g r i a in
      elim (Bool-cases (is_skipped g r i stamped)) [
        | inl old ↦ rw old (
            skip-IsLoop (wanted g r (suc i) rest) (count_skipped g r (suc i) rest)
              (handle_alert g r i stamped) (alerts_loop g r (suc i) rest)
              (handle_alert_skip i stamped old) (alerts_loop-IsLoop (suc i) rest))
        | inr new ↦ rw new (
            pass-IsLoop i (wanted g r (suc i) rest) (count_skipped g r (suc i) rest)
              (g.marshal (job_of g r stamped)) (handle_alert g r i stamped)
              (alerts_loop g r (suc i) rest) (handle_alert_pass i stamped new)
              (alerts_loop-IsLoop (suc i) rest))
      ]
