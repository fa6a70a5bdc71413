-- ===== src/Config/Sections.antt =====
-- src/core/config.rs: the sections of the configuration and the functions that give its default
-- values. The machine integers are numbers, and a `HashMap` is an association list.
use hakimi_hub.Prelude.{ℕ, Bool, Option, List}
use hakimi_hub.Prelude.Str.{Text}
use hakimi_hub.Config.Intercept.{InterceptRule}

pub record DohEndpoint : Type 0 where
  pub name : Text
  pub url : Text
  pub priority : ℕ
  pub trusted : Bool
  pub preset_ip : Option Text

pub record RuleSource : Type 0 where
  pub name : Text
  pub source_type : Text
  pub url : Text

pub record BannerConfig : Type 0 where
  pub theme : Text

pub record InterceptsConfig : Type 0 where
  pub rules : List InterceptRule

pub record ProxyConfig : Type 0 where
  pub bind : Text
  pub port : ℕ
  pub mitm_enabled : Bool
  pub max_connections : ℕ
  pub idle_timeout_secs : ℕ
  pub auto_set_system_proxy : Bool

pub record DnsConfig : Type 0 where
  pub doh_endpoints : List DohEndpoint
  pub probe_timeout_secs : ℕ
  pub max_concurrent_probes : ℕ
  pub cache_ttl_secs : ℕ
  pub probe_interval_secs : ℕ
  pub sni_spoof_domain : Text
  pub connect_timeout_secs : ℕ
  pub max_cache_entries : Option ℕ
  pub ipv6_failure_threshold : ℕ
  pub ipv6_recovery_secs : ℕ
  pub ipv6_enabled : Bool
  pub dns_mapping : List (Text × Text)

pub record CertConfig : Type 0 where
  pub ca_key_size : ℕ
  pub cert_validity_days : ℕ
  pub max_cache_size : ℕ

pub record RulesConfig : Type 0 where
  pub update_interval_hours : ℕ
  pub sources : List RuleSource

pub record LogConfig : Type 0 where
  pub level : Text
  pub file : Text
  pub retention_days : ℕ
  pub json_format : Bool

pub record CacheConfig : Type 0 where
  pub enabled : Bool
  pub ttl_days : ℕ
  pub max_size_mb : ℕ
  pub max_file_size_mb : ℕ

pub record AppConfig : Type 0 where
  pub proxy : ProxyConfig
  pub dns : DnsConfig
  pub cert : CertConfig
  pub rules : RulesConfig
  pub log : LogConfig
  pub banner : BannerConfig
  pub intercepts : InterceptsConfig
  pub cache : CacheConfig
