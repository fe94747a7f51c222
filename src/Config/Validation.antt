-- ===== src/Config/Validation.antt =====
-- internal/config/config.go: validate and Load. Reading the file and the YAML parser are parameters; the
-- parser is given the configuration that it fills in.
use sherlock.Prelude.{
  ℕ, String, ◌&&◌, not, Option, none, some, str_eq, if◌then◌else◌, Result, ok, err,
}
use sherlock.Config.{Config, ReceiversConfig}
use sherlock.Config.Defaults.{defaults}
use sherlock.Config.Overrides.{Parsers, apply_env_overrides}

-- The checks that an enabled receiver has its secret.
unfoldable pub validate_receivers : ReceiversConfig → Option String
validate_receivers r =
    if r.alertmanager.enabled && str_eq r.alertmanager.secret ""
    then some "strict_webhook_auth is enabled but alertmanager receiver has no secret configured"
    else if r.grafana.enabled && str_eq r.grafana.hmac_secret ""
    then some "strict_webhook_auth is enabled but grafana receiver has no hmac_secret configured"
    else if r.github.enabled && str_eq r.github.webhook_secret ""
    then some "strict_webhook_auth is enabled but github receiver has no webhook_secret configured"
    else if r.gitlab.enabled && str_eq r.gitlab.secret_token ""
    then some "strict_webhook_auth is enabled but gitlab receiver has no secret_token configured"
    else none

unfoldable pub validate : {F : Type 0} → Config F → Option String
unfolding validate_receivers
validate c =
    if str_eq c.server.address ""
    then some "server.address is required"
    else if str_eq c.postgres.dsn ""
    then some "postgres.dsn is required"
    else if str_eq c.nats.url ""
    then some "nats.url is required"
    else if not (str_eq c.slack.mode "socket")
        && not (str_eq c.slack.mode "http")
        && not (str_eq c.slack.mode "both")
    then some "slack.mode must be one of: socket, http, both"
    else if c.server.strict_webhook_auth
    then validate_receivers c.receivers
    else none

pub data ReadFile (E : Type 0) : Type 0 where
  contents : String → ReadFile E
  not_exist : ReadFile E
  unreadable : E → ReadFile E

pub data LoadError (E : Type 0) : Type 0 where
  reading : E → LoadError E
  parsing : E → LoadError E
  validation : String → LoadError E

module _ {E F : Type 0} (hundredths : ℕ → F) (unmarshal : String → Config F → Result E (Config F))
    (p : Parsers F) (env : String → String) where
  abbrev pub after_parse : Result E (Config F) → Result (LoadError E) (Config F)
  after_parse (ok c) = ok c
  after_parse (err e) = err (parsing e)

  abbrev pub after_read : ReadFile E → Result (LoadError E) (Config F)
  after_read (contents text) = after_parse (unmarshal text (defaults hundredths))
  after_read not_exist = ok (defaults hundredths)
  after_read (unreadable e) = err (reading e)

  abbrev pub validated : Config F → Option String → Result (LoadError E) (Config F)
  validated c none = ok c
  validated c (some message) = err (validation message)

  abbrev pub after_file : Result (LoadError E) (Config F) → Result (LoadError E) (Config F)
  after_file (err e) = err e
  after_file (ok c) =
      validated (apply_env_overrides p env c) (validate (apply_env_overrides p env c))

  unfoldable pub load : (String → ReadFile E) → String → Result (LoadError E) (Config F)
  unfolding apply_env_overrides validate defaults
  load read_file path =
      after_file (if str_eq path "" then ok (defaults hundredths) else after_read (read_file path))
