-- ===== src/Tests/Settings.antt =====
-- A configuration from the defaults and two variables; floats are numbers of hundredths.
use sherlock.Prelude.{ℕ, ◌≡◌, refl, String, none, str_eq, if◌then◌else◌, Result, ok, err, to_lower}
use sherlock.Config.{Config}
use sherlock.Config.Defaults.{defaults}
use sherlock.Config.Overrides.{
  Parsers, apply_env_overrides, override_server, override_slack, override_postgres, override_nats,
  override_receivers, set_text, set_flag, set_parsed,
}
use sherlock.Config.Validation.{ReadFile, not_exist, validation, load}
use sherlock.Config.Usable.{IsUsable, IsBase, load-IsUsable}

abbrev pub exact : ℕ → ℕ
exact n = n

abbrev no_parsers : Parsers ℕ
no_parsers = record {
  parse_float = λ s. none;
  parse_float32 = λ s. none;
  atoi = λ s. none;
  parse_duration = λ s. none;
}

abbrev no_file : String → ReadFile String
no_file path = not_exist

abbrev no_yaml : String → Config ℕ → Result String (Config ℕ)
no_yaml text c = err "no parser"

abbrev http_env : String → String
http_env k =
    if str_eq k "SHERLOCK_SLACK_MODE"
    then "http"
    else if str_eq k "SHERLOCK_STRICT_WEBHOOK_AUTH"
    then "false"
    else ""

abbrev strict_env : String → String
strict_env k = if str_eq k "SHERLOCK_STRICT_WEBHOOK_AUTH" then "True" else ""

http_loads :
    load exact no_yaml no_parsers http_env no_file "sherlock.yaml"
    ≡ ok (apply_env_overrides no_parsers http_env (defaults exact))
unfolding load set_text set_flag set_parsed to_lower override_server override_slack
    override_postgres override_nats override_receivers
http_loads = refl

-- The default receivers have no secrets.
strict_fails :
    load exact no_yaml no_parsers strict_env no_file ""
    ≡ err (
        validation
          "strict_webhook_auth is enabled but alertmanager receiver has no secret configured")
unfolding load set_text set_flag set_parsed to_lower override_server override_slack
    override_postgres override_nats override_receivers
strict_fails = refl

load-IsUsable_example :
    IsUsable (apply_env_overrides no_parsers http_env (defaults exact))
    × ((base : Config ℕ) × IsBase exact no_yaml no_parsers http_env no_file "sherlock.yaml" base
        × (apply_env_overrides no_parsers http_env (defaults exact)
            ≡ apply_env_overrides no_parsers http_env base))
load-IsUsable_example =
    load-IsUsable exact no_yaml no_parsers http_env no_file "sherlock.yaml" http_loads
