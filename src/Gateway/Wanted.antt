-- ===== src/Gateway/Wanted.antt =====
-- The jobs that a webhook is to put on the queue, without the calls that lead there.
use sherlock.Prelude.{
  ℕ, suc, ◌≡◌, refl, ap, String, Bool, true, false, List, [], ◌∷◌, ◌++◌, Option, none, some, str_eq,
  if◌then◌else◌, Result, ok, err,
}
use sherlock.Contracts.{NormalizedAlert, DedupResult}
use sherlock.Gateway.{
  GatewayCall, put_raw_payload, count_webhook, observe_duration, dedup_check, count_dedup_hit,
  notify_dedup, suppress_check, count_suppress_hit, publish, Gateway, Request, stamp, job_of,
  subject,
}

-- The payloads that were given to the queue, in order.
abbrev pub payloads : List GatewayCall → List String
payloads [] = []
payloads (publish to payload ∷ cs) = payload ∷ payloads cs
payloads (put_raw_payload k b ∷ cs) = payloads cs
payloads (count_webhook s o ∷ cs) = payloads cs
payloads (observe_duration s ∷ cs) = payloads cs
payloads (dedup_check a ∷ cs) = payloads cs
payloads (count_dedup_hit ∷ cs) = payloads cs
payloads (notify_dedup c t i v ∷ cs) = payloads cs
payloads (suppress_check f ∷ cs) = payloads cs
payloads (count_suppress_hit ∷ cs) = payloads cs

pub payloads-append : (xs ys : List GatewayCall) → payloads (xs ++ ys) ≡ payloads xs ++ payloads ys
payloads-append [] ys = refl
payloads-append (publish to payload ∷ cs) ys = ap (λ l. payload ∷ l) (payloads-append cs ys)
payloads-append (put_raw_payload k b ∷ cs) ys = payloads-append cs ys
payloads-append (count_webhook s o ∷ cs) ys = payloads-append cs ys
payloads-append (observe_duration s ∷ cs) ys = payloads-append cs ys
payloads-append (dedup_check a ∷ cs) ys = payloads-append cs ys
payloads-append (count_dedup_hit ∷ cs) ys = payloads-append cs ys
payloads-append (notify_dedup c t i v ∷ cs) ys = payloads-append cs ys
payloads-append (suppress_check f ∷ cs) ys = payloads-append cs ys
payloads-append (count_suppress_hit ∷ cs) ys = payloads-append cs ys

abbrev pub says_duplicate : {E : Type 0} → Result E (Option DedupResult) → Bool
says_duplicate (ok (some d)) = d.is_duplicate
says_duplicate (ok none) = false
says_duplicate (err e) = false

abbrev pub says_suppressed : {E : Type 0} → Result E Bool → Bool
says_suppressed (ok b) = b
says_suppressed (err e) = false

abbrev pub is_error : {E : Type 0} → Option E → Bool
is_error none = false
is_error (some e) = true

module _ {E : Type 0} (g : Gateway E) (r : Request E) where
  -- A check that fails, or is not there, lets the alert pass.
  abbrev pub is_duplicate : ℕ → NormalizedAlert → Bool
  is_duplicate i a = elim g.dedup as (λ o. Bool) [
    | none ↦ false
    | some checker ↦ says_duplicate (checker i a)
  ]

  abbrev pub is_suppressed : ℕ → NormalizedAlert → Bool
  is_suppressed i a = elim g.suppress as (λ o. Bool) [
    | none ↦ false
    | some checker ↦
        if str_eq a.fingerprint "" then false else says_suppressed (checker i a.fingerprint)
  ]

  abbrev pub is_skipped : ℕ → NormalizedAlert → Bool
  is_skipped i a = if is_duplicate i a then true else is_suppressed i a

  abbrev pub add_payload : ℕ → Result E String → List (ℕ × String) → List (ℕ × String)
  add_payload i (ok payload) rest = (i, payload) ∷ rest
  add_payload i (err e) rest = rest

  -- The jobs of the alerts that are neither duplicates nor suppressed, encoded, with their positions.
  abbrev pub wanted : ℕ → List NormalizedAlert → List (ℕ × String)
  wanted i [] = []
  wanted i (a ∷ as') =
      let rest = wanted (suc i) as' in
      if is_skipped i (stamp g r i a)
      then rest
      else add_payload i (g.marshal (job_of g r (stamp g r i a))) rest

  abbrev pub count_skipped : ℕ → List NormalizedAlert → ℕ
  count_skipped i [] = 0
  count_skipped i (a ∷ as') =
      let rest = count_skipped (suc i) as' in
      if is_skipped i (stamp g r i a) then suc rest else rest

  abbrev pub is_refused : ℕ → String → Bool
  is_refused i payload = is_error (g.publisher i (subject g r) payload)

  -- The payloads up to the first that the queue refuses, that one included.
  abbrev pub until_refused : List (ℕ × String) → List String
  until_refused [] = []
  until_refused ((i, payload) ∷ ps) =
      let rest = until_refused ps in if is_refused i payload then payload ∷ [] else payload ∷ rest

  abbrev pub any_refused : List (ℕ × String) → Bool
  any_refused [] = false
  any_refused ((i, payload) ∷ ps) =
      let rest = any_refused ps in if is_refused i payload then true else rest
