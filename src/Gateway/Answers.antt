-- ===== src/Gateway/Answers.antt =====
-- What a webhook puts on the queue, and how it is answered.
use mathlib.Core.List.{append-nil}
use sherlock.Prelude.{
  ℕ, ◌≡◌, refl, ◌∙◌, ap, ◌⊎◌, inl, inr, ltb, ◌==◌, String, List, [], ◌∷◌, Option, none, some,
  if◌then◌else◌, length, Result, ok, err, ◌&&◌, Bool-cases,
}
use sherlock.Contracts.{NormalizedAlert}
use sherlock.Gateway.{
  Response, internal_error, accepted, deduplicated, GatewayCall, count_webhook, observe_duration,
  AlertReceiver, Gateway, Request, find_receiver, alerts_loop, answer, after_put, after_verify,
  after_read, after_lookup, handle_webhook,
}
use sherlock.Gateway.Wanted.{
  payloads, payloads-append, wanted, count_skipped, until_refused, any_refused,
}
use sherlock.Gateway.Published.{IsLoop, alerts_loop-IsLoop}

module _ {E : Type 0} (g : Gateway E) (r : Request E) where
  -- The webhook of a known source, read, verified, stored and decoded.
  pub record IsAccepted (receiver : AlertReceiver E) (body : String) (alerts : List NormalizedAlert)
      : Type 0 where
    pub known : find_receiver r.source g.receivers ≡ some receiver
    pub read : r.body ≡ ok body
    pub verified : receiver.verify r.headers body ≡ none
    pub stored : g.put_blob r.blob_key body ≡ none
    pub decoded : receiver.decode r.headers body ≡ ok alerts

  abbrev Safe : Response × List GatewayCall → Type 0
  Safe result =
      (payloads result.1 ≡ [])
      ⊎ ((receiver : AlertReceiver E) × (body : String) × (alerts : List NormalizedAlert)
          × IsAccepted receiver body alerts)

  abbrev pub answer_of : ℕ → List NormalizedAlert → Response
  answer_of n alerts = if ltb 0 n && n == length alerts then deduplicated n else accepted

  answer_lem :
      (alerts : List NormalizedAlert) (ps : List (ℕ × String)) (n : ℕ)
      (result : Option ℕ × List GatewayCall)
      → IsLoop g r ps n result
      → ((answer g r (length alerts) result).0
          ≡ (if any_refused g r ps then internal_error else answer_of n alerts))
        × (payloads (answer g r (length alerts) result).1 ≡ until_refused g r ps)
  answer_lem alerts ps n (none, calls) l = elim (Bool-cases (any_refused g r ps)) [
    | inl refused ↦ (rw refused refl, l.published)
    | inr sent ↦ absurd (cc (rw sent at l.counted))
  ]
  answer_lem alerts ps n (some m, calls) l = elim (Bool-cases (any_refused g r ps)) [
    | inl refused ↦ absurd (cc (rw refused at l.counted))
    | inr sent ↦
        (let same : m ≡ n = cc (rw sent at l.counted) in
          (
            rw (sent, same) refl,
            payloads-append calls
                  (count_webhook r.source "accepted" ∷ observe_duration r.source ∷ [])
                ∙ append-nil (payloads calls)
                ∙ l.published,
          ))
  ]

  accepted_lem :
      {receiver : AlertReceiver E} {body : String} {alerts : List NormalizedAlert}
      → IsAccepted receiver body alerts
      → handle_webhook g r ≡ after_put g r (ok alerts) body none
  unfolding handle_webhook
  accepted_lem {receiver} {body} {alerts} h =
      ap (after_lookup g r) h.known
      ∙ (ap (after_read g r receiver) h.read
          ∙ (ap (after_verify g r receiver body) h.verified
              ∙ (ap (after_put g r (receiver.decode r.headers body) body) h.stored
                  ∙ ap (λ d. after_put g r d body none) h.decoded)))

  -- Of a webhook that is accepted, the alerts that are neither duplicates nor suppressed are put on
  -- the queue in their order, up to the first that the queue refuses. If it refuses one, the answer is
  -- an internal error; else it is `deduplicated`, with their number, if there are alerts and all are
  -- duplicates or suppressed, and `accepted` otherwise.
  pub handle_webhook-publishes :
      {receiver : AlertReceiver E} {body : String} {alerts : List NormalizedAlert}
      → IsAccepted receiver body alerts
      → ((handle_webhook g r).0 ≡ (
          if any_refused g r (wanted g r 0 alerts)
          then internal_error
          else answer_of (count_skipped g r 0 alerts) alerts))
        × (payloads (handle_webhook g r).1 ≡ until_refused g r (wanted g r 0 alerts))
  handle_webhook-publishes {body = body} {alerts = alerts} h = rw (accepted_lem h) (
      answer_lem alerts (wanted g r 0 alerts) (count_skipped g r 0 alerts)
        (alerts_loop g r 0 alerts) (alerts_loop-IsLoop g r 0 alerts))

  after_put-Safe :
      (receiver : AlertReceiver E) (body : String) (decoded : Result E (List NormalizedAlert))
      (stored : Option E)
      → find_receiver r.source g.receivers ≡ some receiver
      → r.body ≡ ok body
      → receiver.verify r.headers body ≡ none
      → g.put_blob r.blob_key body ≡ stored
      → receiver.decode r.headers body ≡ decoded
      → Safe (after_put g r decoded body stored)
  after_put-Safe receiver body decoded (some e) k b v p d = inl refl
  after_put-Safe receiver body (err e) none k b v p d = inl refl
  after_put-Safe receiver body (ok alerts) none k b v p d = inr (
    receiver,
    body,
    alerts,
    record { known = k; read = b; verified = v; stored = p; decoded = d },
  )

  after_verify-Safe :
      (receiver : AlertReceiver E) (body : String) (answer : Option E)
      → find_receiver r.source g.receivers ≡ some receiver
      → r.body ≡ ok body
      → receiver.verify r.headers body ≡ answer
      → Safe (after_verify g r receiver body answer)
  after_verify-Safe receiver body (some e) k b v = inl refl
  after_verify-Safe receiver body none k b v =
      after_put-Safe receiver body (receiver.decode r.headers body) (g.put_blob r.blob_key body) k b
        v refl refl

  after_read-Safe :
      (receiver : AlertReceiver E) (body : Result E String)
      → find_receiver r.source g.receivers ≡ some receiver
      → r.body ≡ body
      → Safe (after_read g r receiver body)
  after_read-Safe receiver (err e) k b = inl refl
  after_read-Safe receiver (ok body) k b =
      after_verify-Safe receiver body (receiver.verify r.headers body) k b refl

  after_lookup-Safe :
      (found : Option (AlertReceiver E))
      → find_receiver r.source g.receivers ≡ found
      → Safe (after_lookup g r found)
  after_lookup-Safe none k = inl refl
  after_lookup-Safe (some receiver) k = after_read-Safe receiver r.body k refl

  -- A webhook puts something on the queue only if its source is known, its body was read, verified
  -- and stored, and its alerts were decoded.
  pub handle_webhook-IsAccepted :
      (payloads (handle_webhook g r).1 ≡ [])
      ⊎ ((receiver : AlertReceiver E) × (body : String) × (alerts : List NormalizedAlert)
          × IsAccepted receiver body alerts)
  unfolding handle_webhook
  handle_webhook-IsAccepted = after_lookup-Safe (find_receiver r.source g.receivers) refl
