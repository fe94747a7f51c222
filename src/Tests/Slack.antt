-- ===== src/Tests/Slack.antt =====
-- Requests that claim to be Slack's.
use sherlock.Prelude.{
  ℤ, pos, ◌≡◌, ◌⊎◌, refl, String, true, [], ◌∷◌, none, some, ok, err, str_eq, ◌&&◌, if◌then◌else◌,
  arith, subst,
}
use sherlock.SlackTransport.{
  HttpTransport, HttpRequest, slash_command, status_ok, missing_payload, command_of, verify_request,
  is_stale, handle_slash_command, handle_interaction, handle_event,
}
use sherlock.SlackTransport.Verified.{IsInt64, IsVerified, handle-IsVerified}
use sherlock.SlackTransport.Forms.{handle_emptied}

-- An HMAC and a clock that always agree, and a parser that takes one content type.
abbrev transport : HttpTransport String
transport = record {
  signing_secret = "secret";
  hmac_hex = λ k s. "00";
  parse_int = λ s. some (pos 1000);
  parse_form = λ content_type body query.
      if str_eq content_type "form"
      then if str_eq body "" && str_eq query ""
        then ok []
        else ok (("text", body) ∷ ("payload", query) ∷ [])
      else err "malformed content type";
  decode_interaction = λ s. none;
  decode_event = λ s. none;
}

abbrev investigate_request : HttpRequest String
investigate_request = record {
  headers =
      ("X-Slack-Request-Timestamp", "1000")
      ∷ ("X-Slack-Signature", "v0=00")
      ∷ ("Content-Type", "form")
      ∷ [];
  query = "";
  body = ok "command=%2Fsherlock&text=cart";
}

investigate_verified :
    verify_request transport (pos 1100) investigate_request "command=%2Fsherlock&text=cart" ≡ true
unfolding verify_request is_stale
investigate_verified = refl

parsed_bounds : (s : String) (ts : ℤ) → transport.parse_int s ≡ some ts → IsInt64 ts
parsed_bounds s ts e = let same : pos 1000 ≡ ts = cc in subst IsInt64 same (omega arith)

handle-IsVerified_example :
    (((handle_slash_command transport (pos 1100) investigate_request).1 ≡ [])
      ⊎ IsVerified transport (pos 1100) investigate_request)
    × (((handle_interaction transport (pos 1100) investigate_request).1 ≡ [])
        ⊎ IsVerified transport (pos 1100) investigate_request)
    × (((handle_event transport (pos 1100) investigate_request).1 ≡ [])
        ⊎ IsVerified transport (pos 1100) investigate_request)
handle-IsVerified_example =
    handle-IsVerified transport (pos 1100) (omega arith) parsed_bounds investigate_request

handle_emptied_example :
    (handle_slash_command transport (pos 1100) investigate_request
      ≡ (status_ok, slash_command (command_of transport (pos 1100) []) ∷ []))
    × (handle_interaction transport (pos 1100) investigate_request ≡ (missing_payload, []))
handle_emptied_example =
    handle_emptied transport (pos 1100) investigate_request "command=%2Fsherlock&text=cart" refl
      refl refl investigate_verified
