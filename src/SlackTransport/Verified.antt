-- ===== src/SlackTransport/Verified.antt =====
-- No handler calls the application for a request that is not Slack's.
use sherlock.Prelude.{
  ◌+◌, ◌≤◌, ◌≡◌, refl, ◌⊎◌, inl, inr, String, true, false, List, [], Option, some, none, arith,
  str_eq_sound, Bool-cases, Result, ok, err, ℤ, pos, negsuc, ◌-ℤ◌, pos_part, neg_part, ◌≤ℤ◌,
}
use sherlock.Contracts.{lookup}
use sherlock.SlackTransport.{
  HttpTransport, HttpRequest, HandlerCall, Status, wrap_int64, is_far, is_stale, signature_of,
  verify_at, verify_slack_signature, verify_request, read_verified, slash_next, interaction_next,
  event_next, handle_slash_command, handle_interaction, handle_event,
}

abbrev pub IsInt64 : ℤ → Type 0
IsInt64 n = (negsuc 9223372036854775807 ≤ℤ n) × (n ≤ℤ pos 9223372036854775807)

-- A time from 1970 on that is not near the end of int64.
abbrev pub IsNow : ℤ → Type 0
IsNow n = (pos 0 ≤ℤ n) × (n ≤ℤ pos 4611686018427387904)

-- At most 300 apart.
abbrev pub IsNear : ℤ → ℤ → Type 0
IsNear a b =
    (pos_part a + neg_part b ≤ pos_part b + neg_part a + 300)
    × (pos_part b + neg_part a ≤ pos_part a + neg_part b + 300)

-- A difference of such times may wrap, but not to one so small.
wrap_int64-far :
    (d : ℤ)
    → pos_part d ≤ 13835058055282163712
    → neg_part d ≤ 9223372036854775807
    → is_far (wrap_int64 d) ≡ false
    → (pos_part d ≤ 300) × (neg_part d ≤ 300)
unfolding wrap_int64 ◌-ℤ◌
wrap_int64-far (pos n) p q h = ground arith
wrap_int64-far (negsuc n) p q h = ground arith

sub-bounds :
    (a b : ℤ)
    → IsNow a
    → IsInt64 b
    → (pos_part (a -ℤ b) ≤ 13835058055282163712) × (neg_part (a -ℤ b) ≤ 9223372036854775807)
unfolding ◌-ℤ◌
sub-bounds a b h k = ground arith

sub-IsNear : (a b : ℤ) → pos_part (a -ℤ b) ≤ 300 → neg_part (a -ℤ b) ≤ 300 → IsNear a b
unfolding ◌-ℤ◌
sub-IsNear a b h k = ground arith

is_stale-IsNear : (now ts : ℤ) → IsNow now → IsInt64 ts → is_stale now ts ≡ false → IsNear now ts
unfolding is_stale
is_stale-IsNear now ts n t h =
    let bounds = sub-bounds now ts n t in
    let near = wrap_int64-far (now -ℤ ts) bounds.0 bounds.1 h in sub-IsNear now ts near.0 near.1

module _ {E : Type 0} (t : HttpTransport E) (now : ℤ) where
  -- The request's body carries Slack's signature, made at most 300 seconds away from now.
  pub record IsVerified (r : HttpRequest E) : Type 0 where
    pub body : String
    pub ts : ℤ
    pub read : r.body ≡ ok body
    pub timed : t.parse_int (lookup "X-Slack-Request-Timestamp" r.headers) ≡ some ts
    pub near : IsNear now ts
    pub signed :
        signature_of t now (lookup "X-Slack-Request-Timestamp" r.headers) body
        ≡ lookup "X-Slack-Signature" r.headers

  module _ (now_bounds : IsNow now)
      (ts_bounds : (s : String) (ts : ℤ) → t.parse_int s ≡ some ts → IsInt64 ts) where
    verify_at-IsVerified :
        (r : HttpRequest E) (body : String) (parsed : Option ℤ)
        → r.body ≡ ok body
        → t.parse_int (lookup "X-Slack-Request-Timestamp" r.headers) ≡ parsed
        → verify_at t now
            (lookup "X-Slack-Request-Timestamp" r.headers)
            body
            (lookup "X-Slack-Signature" r.headers)
            parsed
          ≡ true
        → IsVerified r
    verify_at-IsVerified r body none b p h = absurd (cc)
    verify_at-IsVerified r body (some ts) b p h = elim (Bool-cases (is_stale now ts)) [
      | inl stale ↦ absurd (cc (rw stale at h))
      | inr fresh ↦ record {
        body = body;
        ts = ts;
        read = b;
        timed = p;
        near =
            is_stale-IsNear now ts now_bounds
              (ts_bounds (lookup "X-Slack-Request-Timestamp" r.headers) ts p) fresh;
        signed = str_eq_sound _ _ (rw fresh at h);
      }
    ]

    verify_request-IsVerified :
        (r : HttpRequest E) (body : String)
        → r.body ≡ ok body
        → verify_request t now r body ≡ true
        → IsVerified r
    unfolding verify_request verify_slack_signature
    verify_request-IsVerified r body b h =
        verify_at-IsVerified r body (t.parse_int (lookup "X-Slack-Request-Timestamp" r.headers)) b
          refl h

    read_verified-IsVerified :
        (r : HttpRequest E) (next : String → HttpRequest E → Status × List HandlerCall)
        (answer : Result E String)
        → r.body ≡ answer
        → ((read_verified t now r next answer).1 ≡ []) ⊎ IsVerified r
    read_verified-IsVerified r next (err e) b = inl refl
    read_verified-IsVerified r next (ok body) b = elim (Bool-cases (verify_request t now r body)) [
      | inl good ↦ inr (verify_request-IsVerified r body b good)
      | inr bad ↦ rw bad (inl refl)
    ]

    -- A slash command, an interaction or an event reaches the application only if its body was read,
    -- its timestamp is within 300 seconds of the time, and its signature is the secret's for both.
    -- The parser of numbers stays within int64, and the time is one from 1970 on, below 2^62.
    pub handle-IsVerified :
        (r : HttpRequest E)
        → (((handle_slash_command t now r).1 ≡ []) ⊎ IsVerified r)
          × (((handle_interaction t now r).1 ≡ []) ⊎ IsVerified r)
          × (((handle_event t now r).1 ≡ []) ⊎ IsVerified r)
    unfolding handle_slash_command handle_interaction handle_event
    handle-IsVerified r = (
      read_verified-IsVerified r (slash_next t now) r.body refl,
      read_verified-IsVerified r (interaction_next t now) r.body refl,
      read_verified-IsVerified r (event_next t now) r.body refl,
    )
