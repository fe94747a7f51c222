-- ===== src/Config.antt =====
-- internal/config/config.go: the configuration's records. A float is of a type that is a parameter.
pub mod Defaults
pub mod Overrides
pub mod Validation
pub mod Usable
use sherlock.Prelude.{String, Bool, ℤ}
use sherlock.Contracts.{Attributes}
use sherlock.Duration.{Duration}

pub record DedupConfig : Type 0 where
  pub enabled : Bool
  pub window : Duration

pub record ServerConfig (F : Type 0) : Type 0 where
  pub address : String
  pub rate_limit_rps : F
  pub rate_limit_burst : ℤ
  pub api_key : String
  pub strict_webhook_auth : Bool

pub record PostgresConfig : Type 0 where
  pub dsn : String
  pub max_conns : ℤ

pub record NatsConfig : Type 0 where
  pub url : String
  pub stream_name : String

pub record ObjectStoreConfig : Type 0 where
  pub endpoint : String
  pub bucket : String
  pub region : String
  pub access_key : String
  pub secret_key : String
  pub use_path_style : Bool

pub record SlackConfig : Type 0 where
  pub bot_token : String
  pub app_token : String
  pub signing_secret : String
  pub mode : String

pub record PrometheusConfig : Type 0 where
  pub url : String

pub record LokiConfig : Type 0 where
  pub url : String

pub record KubernetesConfig : Type 0 where
  pub in_cluster : Bool
  pub kubeconfig : String

pub record GrafanaReceiverConfig : Type 0 where
  pub enabled : Bool
  pub hmac_secret : String

pub record AlertmanagerReceiverConfig : Type 0 where
  pub enabled : Bool
  pub secret : String

pub record GithubReceiverConfig : Type 0 where
  pub enabled : Bool
  pub webhook_secret : String

pub record GitlabReceiverConfig : Type 0 where
  pub enabled : Bool
  pub secret_token : String

pub record InvestigationConfig : Type 0 where
  pub timeout : Duration
  pub max_concurrent : ℤ

pub record LlmConfig (F : Type 0) : Type 0 where
  pub enabled : Bool
  pub provider : String
  pub model : String
  pub api_key : String
  pub endpoint : String
  pub gcp_project : String
  pub gcp_region : String
  pub temperature : F
  pub max_tokens : ℤ
  pub max_passes : ℤ
  pub timeout : Duration

pub record GitConfig : Type 0 where
  pub enabled : Bool
  pub provider : String
  pub token : String
  pub organization : String
  pub default_branch : String
  pub workload_repos : Attributes

pub record RemediationConfig : Type 0 where
  pub enabled : Bool
  pub policies_path : String

pub record TracingConfig (F : Type 0) : Type 0 where
  pub enabled : Bool
  pub endpoint : String
  pub sample_rate : F

pub record CollectorsConfig : Type 0 where
  pub prometheus : PrometheusConfig
  pub loki : LokiConfig
  pub kubernetes : KubernetesConfig

pub record ReceiversConfig : Type 0 where
  pub grafana : GrafanaReceiverConfig
  pub alertmanager : AlertmanagerReceiverConfig
  pub github : GithubReceiverConfig
  pub gitlab : GitlabReceiverConfig

pub record Config (F : Type 0) : Type 0 where
  pub server : ServerConfig F
  pub postgres : PostgresConfig
  pub nats : NatsConfig
  pub object_store : ObjectStoreConfig
  pub slack : SlackConfig
  pub collectors : CollectorsConfig
  pub receivers : ReceiversConfig
  pub investigation : InvestigationConfig
  pub dedup : DedupConfig
  pub llm : LlmConfig F
  pub git : GitConfig
  pub remediation : RemediationConfig
  pub tracing : TracingConfig F
  pub auto_migrate : Bool
