-- ===== src/Config/Overrides.antt =====
-- internal/config/config.go: applyEnvOverrides, with one function for each section of the
-- configuration, since no two variables set the same field. `env` is `os.Getenv`.
use sherlock.Prelude.{String, Bool, Option, none, some, str_eq, if◌then◌else◌, ℤ, to_lower, codes}
use sherlock.Duration.{Duration}
use sherlock.Analysis.{eq_codes}
use sherlock.Config.{
  CollectorsConfig, Config, DedupConfig, GitConfig, InvestigationConfig, LlmConfig, NatsConfig,
  ObjectStoreConfig, PostgresConfig, ReceiversConfig, RemediationConfig, ServerConfig, SlackConfig,
  TracingConfig,
}

-- `strconv` and `time.ParseDuration`; `none` is an error.
pub record Parsers (F : Type 0) : Type 0 where
  pub parse_float : String → Option F
  pub parse_float32 : String → Option F
  pub atoi : String → Option ℤ
  pub parse_duration : String → Option Duration

-- The new value of a field, by the variable's value and the field's. An empty variable counts as unset.
unfoldable pub set_text : String → String → String
set_text v old = if str_eq v "" then old else v

-- `strings.EqualFold v "true"`: no other letter folds to one of these.
unfoldable pub set_flag : String → Bool → Bool
unfolding to_lower
set_flag v old = if str_eq v "" then old else eq_codes (to_lower v) (codes "true")

abbrev pub or_old {ℓ} : {A : Type ℓ} → A → Option A → A
or_old old none = old
or_old old (some a) = a

-- A value that does not parse is passed over.
unfoldable pub set_parsed {ℓ} : {A : Type ℓ} → (String → Option A) → String → A → A
set_parsed parse v old = if str_eq v "" then old else or_old old (parse v)

module _ {F : Type 0} (p : Parsers F) (env : String → String) where
  unfoldable pub override_server : ServerConfig F → ServerConfig F
  override_server c = record c {
    address = set_text (env "SHERLOCK_SERVER_ADDRESS") c.address;
    rate_limit_rps = set_parsed p.parse_float (env "SHERLOCK_RATE_LIMIT_RPS") c.rate_limit_rps;
    rate_limit_burst = set_parsed p.atoi (env "SHERLOCK_RATE_LIMIT_BURST") c.rate_limit_burst;
    api_key = set_text (env "SHERLOCK_API_KEY") c.api_key;
    strict_webhook_auth = set_flag (env "SHERLOCK_STRICT_WEBHOOK_AUTH") c.strict_webhook_auth;
  }

  unfoldable pub override_postgres : PostgresConfig → PostgresConfig
  override_postgres c = record c {
    dsn = set_text (env "SHERLOCK_POSTGRES_DSN") c.dsn;
    max_conns = set_parsed p.atoi (env "SHERLOCK_POSTGRES_MAX_CONNS") c.max_conns;
  }

  unfoldable pub override_nats : NatsConfig → NatsConfig
  override_nats c = record c {
    url = set_text (env "SHERLOCK_NATS_URL") c.url;
    stream_name = set_text (env "SHERLOCK_NATS_STREAM_NAME") c.stream_name;
  }

  unfoldable pub override_object_store : ObjectStoreConfig → ObjectStoreConfig
  override_object_store c = record c {
    endpoint = set_text (env "SHERLOCK_S3_ENDPOINT") c.endpoint;
    bucket = set_text (env "SHERLOCK_S3_BUCKET") c.bucket;
    region = set_text (env "SHERLOCK_S3_REGION") c.region;
    access_key = set_text (env "SHERLOCK_S3_ACCESS_KEY") c.access_key;
    secret_key = set_text (env "SHERLOCK_S3_SECRET_KEY") c.secret_key;
  }

  unfoldable pub override_slack : SlackConfig → SlackConfig
  override_slack c = record c {
    bot_token = set_text (env "SHERLOCK_SLACK_BOT_TOKEN") c.bot_token;
    app_token = set_text (env "SHERLOCK_SLACK_APP_TOKEN") c.app_token;
    signing_secret = set_text (env "SHERLOCK_SLACK_SIGNING_SECRET") c.signing_secret;
    mode = set_text (env "SHERLOCK_SLACK_MODE") c.mode;
  }

  unfoldable pub override_collectors : CollectorsConfig → CollectorsConfig
  override_collectors c = record c {
    prometheus = record c.prometheus {
      url = set_text (env "SHERLOCK_PROMETHEUS_URL") c.prometheus.url;
    };
    loki = record c.loki { url = set_text (env "SHERLOCK_LOKI_URL") c.loki.url };
    kubernetes = record c.kubernetes {
      in_cluster = set_flag (env "SHERLOCK_K8S_IN_CLUSTER") c.kubernetes.in_cluster;
      kubeconfig = set_text (env "SHERLOCK_K8S_KUBECONFIG") c.kubernetes.kubeconfig;
    };
  }

  unfoldable pub override_receivers : ReceiversConfig → ReceiversConfig
  override_receivers c = record c {
    grafana = record c.grafana {
      hmac_secret = set_text (env "SHERLOCK_GRAFANA_HMAC_SECRET") c.grafana.hmac_secret;
    };
    github = record c.github {
      webhook_secret = set_text (env "SHERLOCK_GITHUB_WEBHOOK_SECRET") c.github.webhook_secret;
    };
    gitlab = record c.gitlab {
      secret_token = set_text (env "SHERLOCK_GITLAB_SECRET_TOKEN") c.gitlab.secret_token;
    };
    alertmanager = record c.alertmanager {
      secret = set_text (env "SHERLOCK_ALERTMANAGER_SECRET") c.alertmanager.secret;
    };
  }

  unfoldable pub override_investigation : InvestigationConfig → InvestigationConfig
  override_investigation c = record c {
    timeout = set_parsed p.parse_duration (env "SHERLOCK_INVESTIGATION_TIMEOUT") c.timeout;
    max_concurrent =
        set_parsed p.atoi (env "SHERLOCK_INVESTIGATION_MAX_CONCURRENT") c.max_concurrent;
  }

  unfoldable pub override_dedup : DedupConfig → DedupConfig
  override_dedup c = record c {
    enabled = set_flag (env "SHERLOCK_DEDUP_ENABLED") c.enabled;
    window = set_parsed p.parse_duration (env "SHERLOCK_DEDUP_WINDOW") c.window;
  }

  unfoldable pub override_llm : LlmConfig F → LlmConfig F
  override_llm c = record c {
    enabled = set_flag (env "SHERLOCK_LLM_ENABLED") c.enabled;
    provider = set_text (env "SHERLOCK_LLM_PROVIDER") c.provider;
    model = set_text (env "SHERLOCK_LLM_MODEL") c.model;
    api_key = set_text (env "SHERLOCK_LLM_API_KEY") c.api_key;
    endpoint = set_text (env "SHERLOCK_LLM_ENDPOINT") c.endpoint;
    gcp_project = set_text (env "SHERLOCK_LLM_GCP_PROJECT") c.gcp_project;
    gcp_region = set_text (env "SHERLOCK_LLM_GCP_REGION") c.gcp_region;
    temperature = set_parsed p.parse_float32 (env "SHERLOCK_LLM_TEMPERATURE") c.temperature;
    max_tokens = set_parsed p.atoi (env "SHERLOCK_LLM_MAX_TOKENS") c.max_tokens;
    max_passes = set_parsed p.atoi (env "SHERLOCK_LLM_MAX_PASSES") c.max_passes;
    timeout = set_parsed p.parse_duration (env "SHERLOCK_LLM_TIMEOUT") c.timeout;
  }

  unfoldable pub override_git : GitConfig → GitConfig
  override_git c = record c {
    enabled = set_flag (env "SHERLOCK_GIT_ENABLED") c.enabled;
    provider = set_text (env "SHERLOCK_GIT_PROVIDER") c.provider;
    token = set_text (env "SHERLOCK_GIT_TOKEN") c.token;
    organization = set_text (env "SHERLOCK_GIT_ORGANIZATION") c.organization;
    default_branch = set_text (env "SHERLOCK_GIT_DEFAULT_BRANCH") c.default_branch;
  }

  unfoldable pub override_remediation : RemediationConfig → RemediationConfig
  override_remediation c = record c {
    enabled = set_flag (env "SHERLOCK_REMEDIATION_ENABLED") c.enabled;
    policies_path = set_text (env "SHERLOCK_REMEDIATION_POLICIES_PATH") c.policies_path;
  }

  unfoldable pub override_tracing : TracingConfig F → TracingConfig F
  override_tracing c = record c {
    enabled = set_flag (env "SHERLOCK_TRACING_ENABLED") c.enabled;
    endpoint = set_text (env "SHERLOCK_TRACING_ENDPOINT") c.endpoint;
    sample_rate = set_parsed p.parse_float (env "SHERLOCK_TRACING_SAMPLE_RATE") c.sample_rate;
  }

  unfoldable pub apply_env_overrides : Config F → Config F
  apply_env_overrides c = record c {
    server = override_server c.server;
    postgres = override_postgres c.postgres;
    nats = override_nats c.nats;
    object_store = override_object_store c.object_store;
    slack = override_slack c.slack;
    collectors = override_collectors c.collectors;
    receivers = override_receivers c.receivers;
    investigation = override_investigation c.investigation;
    dedup = override_dedup c.dedup;
    llm = override_llm c.llm;
    git = override_git c.git;
    remediation = override_remediation c.remediation;
    tracing = override_tracing c.tracing;
    auto_migrate = set_flag (env "SHERLOCK_AUTO_MIGRATE") c.auto_migrate;
  }
