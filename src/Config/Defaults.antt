-- ===== src/Config/Defaults.antt =====
-- src/core/config.rs: the default values of the configuration.
use hakimi_hub.Prelude.{ℕ, Bool, true, false, Option, none, some, List, [], ◌∷◌}
use hakimi_hub.Prelude.Str.{Text, codes}
use hakimi_hub.Config.Intercept.{InterceptAction}
use hakimi_hub.Config.Sections.{
  DohEndpoint, RuleSource, BannerConfig, InterceptsConfig, ProxyConfig, DnsConfig, CertConfig,
  RulesConfig, LogConfig, CacheConfig, AppConfig,
}

abbrev pub default_true : Bool
default_true = true

abbrev pub default_false : Bool
default_false = false

abbrev pub default_proxy_bind : Text
default_proxy_bind = codes "127.0.0.1"

abbrev pub default_proxy_port : ℕ
default_proxy_port = 2830

abbrev pub default_proxy_max_connections : ℕ
default_proxy_max_connections = 0

abbrev pub default_proxy_idle_timeout : ℕ
default_proxy_idle_timeout = 300

abbrev pub default_banner_theme : Text
default_banner_theme = codes "pink"

abbrev pub default_dns_probe_timeout : ℕ
default_dns_probe_timeout = 4

abbrev pub default_dns_max_concurrent : ℕ
default_dns_max_concurrent = 32

abbrev pub default_dns_cache_ttl : ℕ
default_dns_cache_ttl = 300

abbrev pub default_dns_probe_interval : ℕ
default_dns_probe_interval = 300

abbrev pub default_dns_sni_spoof : Text
default_dns_sni_spoof = codes "www.baidu.com"

abbrev pub default_dns_connect_timeout : ℕ
default_dns_connect_timeout = 5

abbrev pub default_max_cache_entries : Option ℕ
default_max_cache_entries = some 1000

abbrev pub default_ipv6_failure_threshold : ℕ
default_ipv6_failure_threshold = 3

abbrev pub default_ipv6_recovery_secs : ℕ
default_ipv6_recovery_secs = 300

abbrev pub default_ipv6_enabled : Bool
default_ipv6_enabled = false

abbrev pub default_cert_key_size : ℕ
default_cert_key_size = 4096

abbrev pub default_cert_validity : ℕ
default_cert_validity = 7

abbrev pub default_cert_max_cache : ℕ
default_cert_max_cache = 1000

abbrev pub default_rules_update_interval : ℕ
default_rules_update_interval = 24

abbrev pub default_log_level : Text
default_log_level = codes "info"

abbrev pub default_log_file : Text
default_log_file = codes "logs/hakimi-hub.log"

abbrev pub default_log_retention : ℕ
default_log_retention = 7

abbrev pub default_cache_ttl_days : ℕ
default_cache_ttl_days = 30

abbrev pub default_cache_max_size_mb : ℕ
default_cache_max_size_mb = 500

abbrev pub default_cache_max_file_size_mb : ℕ
default_cache_max_file_size_mb = 10

abbrev pub default_doh_endpoints : List DohEndpoint
default_doh_endpoints =
    record {
      name = codes "tencent-doh";
      url = codes "https://doh.pub/dns-query";
      priority = 10;
      trusted = false;
      preset_ip = some (codes "119.29.29.29");
    }
    ∷ record {
      name = codes "alidns";
      url = codes "https://dns.alidns.com/dns-query";
      priority = 11;
      trusted = false;
      preset_ip = some (codes "223.5.5.5");
    }
    ∷ record {
      name = codes "dnspod-backup";
      url = codes "https://doh.pub/dns-query";
      priority = 12;
      trusted = false;
      preset_ip = some (codes "119.29.29.29");
    }
    ∷ record {
      name = codes "cloudflare-1";
      url = codes "https://cloudflare-dns.com/dns-query";
      priority = 20;
      trusted = true;
      preset_ip = some (codes "104.16.249.249");
    }
    ∷ record {
      name = codes "cloudflare-2";
      url = codes "https://cloudflare-dns.com/dns-query";
      priority = 21;
      trusted = true;
      preset_ip = some (codes "104.16.248.249");
    }
    ∷ record {
      name = codes "google-dns-1";
      url = codes "https://dns.google/dns-query";
      priority = 22;
      trusted = true;
      preset_ip = some (codes "8.8.8.8");
    }
    ∷ record {
      name = codes "google-dns-2";
      url = codes "https://dns.google/dns-query";
      priority = 23;
      trusted = true;
      preset_ip = some (codes "8.8.4.4");
    }
    ∷ record {
      name = codes "quad9";
      url = codes "https://dns.quad9.net/dns-query";
      priority = 24;
      trusted = true;
      preset_ip = some (codes "9.9.9.9");
    }
    ∷ []

abbrev pub common_defaults : InterceptsConfig
common_defaults = record {
  rules =
      record {
        from = codes "github.com";
        from_pattern = some (codes "^/[^/]+/[^/]+/releases/download/.*");
        action = InterceptAction.proxy (codes "v4.gh-proxy.org");
      }
      ∷ record {
        from = codes "github.com";
        from_pattern = some (codes "^/[^/]+/[^/]+/archive/.*");
        action = InterceptAction.proxy (codes "v4.gh-proxy.org");
      }
      ∷ record {
        from = codes "codeload.github.com";
        from_pattern = some (codes "^/.*");
        action = InterceptAction.proxy (codes "v4.gh-proxy.org");
      }
      ∷ record {
        from = codes "github.com";
        from_pattern = none;
        action = InterceptAction.sni_spoof (codes "www.baidu.com") (codes "github.com");
      }
      ∷ record {
        from = codes "api.github.com";
        from_pattern = none;
        action = InterceptAction.sni_spoof (codes "www.baidu.com") (codes "api.github.com");
      }
      ∷ record {
        from = codes "*.githubassets.com";
        from_pattern = none;
        action = InterceptAction.sni_spoof (codes "www.baidu.com") (codes "*.githubassets.com");
      }
      ∷ record {
        from = codes "release-assets.githubusercontent.com";
        from_pattern = none;
        action =
            InterceptAction.sni_spoof (codes "www.baidu.com")
              (codes "release-assets.githubusercontent.com");
      }
      ∷ record {
        from = codes "objects.githubusercontent.com";
        from_pattern = none;
        action =
            InterceptAction.sni_spoof (codes "www.baidu.com")
              (codes "objects.githubusercontent.com");
      }
      ∷ record {
        from = codes "*.githubusercontent.com";
        from_pattern = none;
        action =
            InterceptAction.sni_spoof (codes "www.baidu.com") (codes "*.githubusercontent.com");
      }
      ∷ record {
        from = codes "store.steampowered.com";
        from_pattern = none;
        action = InterceptAction.sni_spoof (codes "www.baidu.com") (codes "store.steampowered.com");
      }
      ∷ record {
        from = codes "api.steampowered.com";
        from_pattern = none;
        action = InterceptAction.sni_spoof (codes "www.baidu.com") (codes "api.steampowered.com");
      }
      ∷ record {
        from = codes "login.steampowered.com";
        from_pattern = none;
        action = InterceptAction.sni_spoof (codes "www.baidu.com") (codes "login.steampowered.com");
      }
      ∷ record {
        from = codes "help.steampowered.com";
        from_pattern = none;
        action = InterceptAction.sni_spoof (codes "www.baidu.com") (codes "help.steampowered.com");
      }
      ∷ record {
        from = codes "store-points.steampowered.com";
        from_pattern = none;
        action =
            InterceptAction.sni_spoof (codes "www.baidu.com")
              (codes "store-points.steampowered.com");
      }
      ∷ record {
        from = codes "*.steamstatic.com";
        from_pattern = none;
        action = InterceptAction.sni_spoof (codes "www.baidu.com") (codes "*.steamstatic.com");
      }
      ∷ record {
        from = codes "steamserver.net";
        from_pattern = none;
        action = InterceptAction.sni_spoof (codes "www.baidu.com") (codes "steamserver.net");
      }
      ∷ record {
        from = codes "support.steampowered.com";
        from_pattern = none;
        action =
            InterceptAction.sni_spoof (codes "www.baidu.com") (codes "support.steampowered.com");
      }
      ∷ [];
}

abbrev pub default_rules_sources : List RuleSource
default_rules_sources =
    record { name = codes "builtin"; source_type = codes "builtin"; url = [] } ∷ []

abbrev pub default_banner_config : BannerConfig
default_banner_config = record { theme = default_banner_theme }

abbrev pub default_proxy_config : ProxyConfig
default_proxy_config = record {
  bind = default_proxy_bind;
  port = default_proxy_port;
  mitm_enabled = default_true;
  max_connections = default_proxy_max_connections;
  idle_timeout_secs = default_proxy_idle_timeout;
  auto_set_system_proxy = default_true;
}

abbrev pub default_dns_config : DnsConfig
default_dns_config = record {
  doh_endpoints = default_doh_endpoints;
  probe_timeout_secs = default_dns_probe_timeout;
  max_concurrent_probes = default_dns_max_concurrent;
  cache_ttl_secs = default_dns_cache_ttl;
  probe_interval_secs = default_dns_probe_interval;
  sni_spoof_domain = default_dns_sni_spoof;
  connect_timeout_secs = default_dns_connect_timeout;
  max_cache_entries = default_max_cache_entries;
  ipv6_failure_threshold = default_ipv6_failure_threshold;
  ipv6_recovery_secs = default_ipv6_recovery_secs;
  ipv6_enabled = default_ipv6_enabled;
  dns_mapping = [];
}

abbrev pub default_cert_config : CertConfig
default_cert_config = record {
  ca_key_size = default_cert_key_size;
  cert_validity_days = default_cert_validity;
  max_cache_size = default_cert_max_cache;
}

abbrev pub default_rules_config : RulesConfig
default_rules_config = record {
  update_interval_hours = default_rules_update_interval;
  sources = default_rules_sources;
}

abbrev pub default_log_config : LogConfig
default_log_config = record {
  level = default_log_level;
  file = default_log_file;
  retention_days = default_log_retention;
  json_format = default_false;
}

abbrev pub default_cache_config : CacheConfig
default_cache_config = record {
  enabled = default_true;
  ttl_days = default_cache_ttl_days;
  max_size_mb = default_cache_max_size_mb;
  max_file_size_mb = default_cache_max_file_size_mb;
}

abbrev pub default_intercepts_config : InterceptsConfig
default_intercepts_config = common_defaults

-- The derived `Default` of the whole configuration.
abbrev pub default_app_config : AppConfig
default_app_config = record {
  proxy = default_proxy_config;
  dns = default_dns_config;
  cert = default_cert_config;
  rules = default_rules_config;
  log = default_log_config;
  banner = default_banner_config;
  intercepts = default_intercepts_config;
  cache = default_cache_config;
}
