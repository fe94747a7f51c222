-- ===== src/SlackApp/Backed.antt =====
-- Calls on behalf of a user in a channel, and the handlers that start investigations.
use sherlock.Prelude.{
  ◌+◌, ◌≡◌, ◌≢◌, refl, String, Bool, true, false, str_eq, if◌then◌else◌, codes, to_lower, contains,
  Result, ok, err, All, Bool-cases, inl, inr,
}
use sherlock.Contracts.{Investigation, NormalizedAlert}
use sherlock.Duration.{hour}
use sherlock.SlackApp.{
  AppCall, post_started, enqueue, post_error, post_update, list_evidence, get_investigation,
  get_alert, suppress, App, extract_arg,
}
use sherlock.SlackApp.Starts.{
  Outcome, then_call, reply, after_enqueue, after_start, start_investigation,
}
use sherlock.SlackApp.Mentions.{
  mention_investigate, status_reply, mention_status, mention_reply, help_text,
}

module _ {E : Type 0} (a : App E) where
  -- A fingerprint that some alert has.
  abbrev pub IsFingerprint : String → Type 0
  IsFingerprint fp =
      (id : String) × (alert : NormalizedAlert) × (a.alert_by_id id ≡ ok alert)
      × (alert.fingerprint ≡ fp)

  -- A call on behalf of a user in a channel: an investigation goes to a thread that was started there, a
  -- suppression is for an hour, by the user, of a fingerprint that an alert has and that is not empty,
  -- and what is posted is posted there.
  abbrev pub IsBacked : String → String → AppCall → Type 0
  IsBacked channel user (post_started c) = c ≡ channel
  IsBacked channel user (enqueue c thread u text) =
      (c ≡ channel) × (u ≡ user) × (a.start_thread channel ≡ ok thread)
  IsBacked channel user (post_error c thread message) = c ≡ channel
  IsBacked channel user (post_update c thread message) = c ≡ channel
  IsBacked channel user (list_evidence id) = Unit
  IsBacked channel user (get_investigation id) = Unit
  IsBacked channel user (get_alert id) = Unit
  IsBacked channel user (suppress fp expires_at by reason) =
      (fp ≢ "") × IsFingerprint fp × (expires_at ≡ a.now + hour) × (by ≡ user)

  -- All calls of a handler are backed.
  pub record Backed (channel user : String) (o : Outcome a) : Type 0 where
    pub calls : All (IsBacked channel user) o.1

  -- One more call before the others.
  pub Backed-then :
      (channel user : String) (call : AppCall) (o : Outcome a)
      → IsBacked channel user call
      → Backed channel user o
      → Backed channel user (then_call a call o)
  Backed-then channel user call o h k = record { calls = (h, k.calls) }

  -- A handler that only replies.
  pub Backed-reply :
      (channel user thread message : String) → Backed channel user (reply a channel thread message)
  Backed-reply channel user thread message = record { calls = (refl, tt) }

  pub Backed-if :
      (channel user : String) (b : Bool) (o p : Outcome a)
      → Backed channel user o
      → Backed channel user p
      → Backed channel user (if b then o else p)
  Backed-if channel user true o p h k = h
  Backed-if channel user false o p h k = k

  module _ (channel user : String) where
    after_enqueue-Backed :
        (failure wrapping thread : String) (r : Result E String)
        → Backed channel user (after_enqueue a failure wrapping channel thread r)
    after_enqueue-Backed failure wrapping thread (ok id) = record { calls = tt }
    after_enqueue-Backed failure wrapping thread (err e) = record { calls = (refl, tt) }

    after_start-Backed :
        (failure wrapping text : String) (r : Result E String)
        → a.start_thread channel ≡ r
        → Backed channel user (after_start a failure wrapping channel user text r)
    after_start-Backed failure wrapping text (err e) h = record { calls = tt }
    after_start-Backed failure wrapping text (ok thread) h =
        Backed-then channel user _ _ (refl, refl, h)
          (after_enqueue-Backed failure wrapping thread
            (a.enqueue_investigation channel thread user text))

    pub start_investigation-Backed :
        (failure wrapping text : String)
        → Backed channel user (start_investigation a failure wrapping channel user text)
    unfolding start_investigation
    start_investigation-Backed failure wrapping text =
        Backed-then channel user (post_started channel) _ refl
          (after_start-Backed failure wrapping text (a.start_thread channel) refl)

    status_reply-Backed :
        (id : String) (r : Result E Investigation)
        → Backed channel user (status_reply a channel id r)
    status_reply-Backed id (err e) = Backed-reply channel user _ _
    status_reply-Backed id (ok inv) = Backed-reply channel user _ _

    mention_investigate-Backed :
        (service : String) → Backed channel user (mention_investigate a channel user service)
    mention_investigate-Backed service = elim (Bool-cases (str_eq service "")) [
      | inl blank ↦ rw blank (Backed-reply channel user _ _)
      | inr given ↦ rw given (start_investigation-Backed _ _ service)
    ]

    mention_status-Backed : (id : String) → Backed channel user (mention_status a channel id)
    mention_status-Backed id = elim (Bool-cases (str_eq id "")) [
      | inl blank ↦ rw blank (Backed-reply channel user _ _)
      | inr given ↦ rw given (
          Backed-then channel user (get_investigation id) _ tt
            (status_reply-Backed id (a.investigation_by_id id)))
    ]

    pub mention_reply-Backed :
        (cleaned : String) → Backed channel user (mention_reply a channel user cleaned)
    mention_reply-Backed cleaned =
        let has : String → Bool = λ word. contains (to_lower cleaned) (codes word) in
        Backed-if channel user (has "help") _ _ (Backed-reply channel user "" help_text) (
          Backed-if channel user (has "investigate") _ _
            (mention_investigate-Backed (extract_arg cleaned "investigate"))
            (Backed-if channel user (has "status") _ _
              (mention_status-Backed (extract_arg cleaned "status"))
              (Backed-reply channel user ""
                "I didn't understand that. Try `@sherlock help` for available commands.")))
