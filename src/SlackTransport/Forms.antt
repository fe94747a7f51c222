-- ===== src/SlackTransport/Forms.antt =====
-- What is left of a form after its body was read.
use sherlock.Prelude.{◌≡◌, refl, String, true, List, [], ◌∷◌, ok, ℤ, ap, ◌∙◌}
use sherlock.Contracts.{lookup}
use sherlock.SlackTransport.{
  HttpTransport, HttpRequest, HandlerCall, Status, slash_command, status_ok, missing_payload,
  verify_request, read_verified, slash_form, interaction_form, slash_next, interaction_next,
  command_of, handle_slash_command, handle_interaction,
}

module _ {E : Type 0} (t : HttpTransport E) (now : ℤ) where
  verified_lem :
      (r : HttpRequest E) (body : String)
      (next : String → HttpRequest E → Status × List HandlerCall)
      → verify_request t now r body ≡ true
      → read_verified t now r next (ok body) ≡ next body (record r { body = ok "" })
  verified_lem r body next v = rw v refl

  -- Since the handlers read the body before they parse its form, a verified request with no query
  -- string, and with a content type under which an empty body is an empty form, has an empty form,
  -- whatever its body says: as a slash command it reaches the application with all its fields empty,
  -- and as an interaction it is refused for the lack of a payload.
  pub handle_emptied :
      (r : HttpRequest E) (body : String)
      → r.query ≡ ""
      → t.parse_form (lookup "Content-Type" r.headers) "" "" ≡ ok []
      → r.body ≡ ok body
      → verify_request t now r body ≡ true
      → (handle_slash_command t now r ≡ (status_ok, slash_command (command_of t now []) ∷ []))
        × (handle_interaction t now r ≡ (missing_payload, []))
  unfolding handle_slash_command handle_interaction
  handle_emptied r body q empty_form b v =
      let content_type = lookup "Content-Type" r.headers in
      let form : t.parse_form content_type "" r.query ≡ ok [] =
        ap (λ s. t.parse_form content_type "" s) q ∙ empty_form in
      (
        ap (read_verified t now r (slash_next t now)) b
            ∙ verified_lem r body (slash_next t now) v
            ∙ ap (slash_form t now) form,
        ap (read_verified t now r (interaction_next t now)) b
            ∙ verified_lem r body (interaction_next t now) v
            ∙ ap (interaction_form t now) form,
      )
