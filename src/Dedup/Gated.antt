-- ===== src/Dedup/Gated.antt =====
-- cmd/sherlock/main.go, where it makes the duplicate check of the gateway from the service, and what
-- becomes of an alert then. The store and the clock may answer each check differently.
use sherlock.Prelude.{
  ℕ, ◌-◌, ◌≡◌, ◌≢◌, ◌⊎◌, refl, ap, ◌∙◌, inl, inr, String, true, false, List, [], ◌∷◌, Option, none,
  some, str_eq, eq_iff, Bool-cases, Result, ok, err,
}
use sherlock.Contracts.{NormalizedAlert, ActiveInvestigation, DedupResult, Time}
use sherlock.Dedup.{
  InvestigationLookup, StoreCall, find_active, link_alert, link_failed, link, conclude, check,
}
use sherlock.Gateway.{
  Gateway, Request, skipped, job_of, publish_stage, publish_payload, handle_alert,
}
use sherlock.Gateway.Wanted.{payloads, says_duplicate, is_suppressed}
use sherlock.Gateway.Published.{handle_alert_skip, handle_alert_pass}

module _ {E : Type 0} (store : ℕ → InvestigationLookup E) (window : ℕ) (now : ℕ → Time) where
  -- A pointer to the result, or an error.
  abbrev pub pointer : Result E DedupResult → Result E (Option DedupResult)
  pointer (ok d) = ok (some d)
  pointer (err e) = err e

  -- `dedupCheckerAdapter`
  unfoldable pub dedup_checker : ℕ → NormalizedAlert → Result E (Option DedupResult)
  unfolding check
  dedup_checker i a = pointer (check (store i) window (now i) a).0

  abbrev pub gated : Gateway E → Gateway E
  gated g = record g { dedup = some dedup_checker }

  abbrev pub lookup_of : ℕ → NormalizedAlert → Result E (Option ActiveInvestigation)
  lookup_of i a = (store i).find_active_by_fingerprint a.fingerprint (now i - window)

  -- The alert has a fingerprint under which the store finds an investigation.
  abbrev pub IsActive : ℕ → NormalizedAlert → ActiveInvestigation → Type 0
  IsActive i a existing = (a.fingerprint ≢ "") × (lookup_of i a ≡ ok (some existing))

  link-begins :
      (i : ℕ) (investigation alert : String) (o : Option E)
      → (rest : List StoreCall) × (link (store i) window investigation alert o
          ≡ link_alert investigation alert ∷ rest)
  link-begins i investigation alert none = ([], refl)
  link-begins i investigation alert (some e) = (link_failed investigation alert ∷ [], refl)

  module _ (g : Gateway E) (r : Request E) (i : ℕ) (a : NormalizedAlert) where
    -- The alert is skipped, and linked to the investigation.
    pub record IsLinked : Type 0 where
      pub existing : ActiveInvestigation
      pub active : IsActive i a existing
      pub linked :
          (rest : List StoreCall) × ((check (store i) window (now i) a).1
            ≡ find_active a.fingerprint (now i - window) ∷ link_alert existing.id a.id ∷ rest)
      pub skip : (handle_alert (gated g) r i a).0 ≡ skipped
      pub unpublished : payloads (handle_alert (gated g) r i a).1 ≡ []

    -- No investigation is found, and the alert's job is published.
    pub record IsPublished (payload : String) : Type 0 where
      pub inactive : (existing : ActiveInvestigation) → ¬ IsActive i a existing
      pub published : payloads (handle_alert (gated g) r i a).1 ≡ payload ∷ []

    published-payload :
        (payload : String)
        → is_suppressed g r i a ≡ false
        → g.marshal (job_of g r a) ≡ ok payload
        → says_duplicate (dedup_checker i a) ≡ false
        → payloads (handle_alert (gated g) r i a).1 ≡ payload ∷ []
    unfolding publish_stage
    published-payload payload s m new =
        (handle_alert_pass (gated g) r i a (rw new s)).1
        ∙ ap (λ x. payloads (publish_payload (gated g) r i x).1) m

    blank_new : str_eq a.fingerprint "" ≡ true → says_duplicate (dedup_checker i a) ≡ false
    unfolding dedup_checker check
    blank_new blank = rw blank refl

    marked_check :
        {x : Result E (Option ActiveInvestigation)}
        → str_eq a.fingerprint "" ≡ false
        → lookup_of i a ≡ x
        → check (store i) window (now i) a
          ≡ conclude (store i) window a (find_active a.fingerprint (now i - window)) x
    unfolding check
    marked_check marked found = rw (marked, found) refl

    marked_checker :
        {x : Result E (Option ActiveInvestigation)}
        → str_eq a.fingerprint "" ≡ false
        → lookup_of i a ≡ x
        → says_duplicate (dedup_checker i a)
          ≡ says_duplicate (
              pointer
                (conclude (store i) window a (find_active a.fingerprint (now i - window)) x).0)
    unfolding dedup_checker
    marked_checker marked found = ap (λ c. says_duplicate (pointer c.0)) (marked_check marked found)

    marked-gated :
        (payload : String) (x : Result E (Option ActiveInvestigation))
        → is_suppressed g r i a ≡ false
        → g.marshal (job_of g r a) ≡ ok payload
        → str_eq a.fingerprint "" ≡ false
        → lookup_of i a ≡ x
        → IsLinked ⊎ IsPublished payload
    marked-gated payload (err e) s m marked found = inr (record {
      inactive = λ existing (h, k). cc (found, k);
      published = published-payload payload s m (marked_checker marked found);
    })
    marked-gated payload (ok none) s m marked found = inr (record {
      inactive = λ existing (h, k). cc (found, k);
      published = published-payload payload s m (marked_checker marked found);
    })
    marked-gated payload (ok (some existing)) s m marked found =
        let (rest, l) =
          link-begins i existing.id a.id ((store i).link_alert_to_investigation existing.id a.id) in
        let passed = handle_alert_skip (gated g) r i a (rw (marked_checker marked found) refl) in
        inl (record {
          existing = existing;
          active = ((λ e. cc ((eq_iff a.fingerprint "").1 e, marked)), found);
          linked = (
            rest,
            ap (λ c. c.1) (marked_check marked found)
                ∙ ap (λ cs. find_active a.fingerprint (now i - window) ∷ cs) l,
          );
          skip = passed.0;
          unpublished = passed.1;
        })

    -- An alert that is not suppressed, and whose job can be encoded, is skipped and linked to an
    -- investigation if it has a fingerprint and the store finds an investigation under it in the
    -- window, and published otherwise, also when the store fails or the fingerprint is empty.
    pub handle_alert-gated :
        (payload : String)
        → is_suppressed g r i a ≡ false
        → g.marshal (job_of g r a) ≡ ok payload
        → IsLinked ⊎ IsPublished payload
    handle_alert-gated payload s m = elim (Bool-cases (str_eq a.fingerprint "")) [
      | inl blank ↦ inr (record {
        inactive = λ existing (h, k). h ((eq_iff a.fingerprint "").0 blank);
        published = published-payload payload s m (blank_new blank);
      })
      | inr marked ↦ marked-gated payload (lookup_of i a) s m marked refl
    ]
