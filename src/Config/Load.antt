-- ===== src/Config/Load.antt =====
-- src/core/config.rs: `validate`, `load_from_file` and `load_or_default`, with what a configuration
-- that is loaded satisfies. The file system and the TOML reader are parameters.
use hakimi_hub.Prelude.{
  ltb, ◌==◌, if◌then◌else◌, Bool-cases, ◌≤◌, ◌<◌, ◌≡◌, refl, ◌↔◌, ◌⊎◌, inl, inr, Bool, true, false,
  not, ◌&&◌, ◌||◌, arith,
}
use hakimi_hub.Prelude.Str.{Text, codes}
use hakimi_hub.Config.Sections.{AppConfig}
use hakimi_hub.Config.Defaults.{default_app_config}
pub mod Start

-- `anyhow::Result`: an error is its message.
pub data Result (A : Type 0) : Type 0 where
  ok : A → Result A
  err : Text → Result A

abbrev pub and_then : {A B : Type 0} → Result A → (A → Result B) → Result B
and_then (Result.ok a) f = f a
and_then (Result.err e) f = Result.err e

-- `if c { bail!(e) }` before the rest.
abbrev bail_if : Bool → Text → Result Unit → Result Unit
bail_if true e rest = Result.err e
bail_if false e rest = rest

unfoldable pub validate : AppConfig → Result Unit
validate c = bail_if (c.proxy.port == 0) (codes "proxy.port cannot be 0") (
    bail_if (ltb c.proxy.idle_timeout_secs 10) (codes "proxy.idle_timeout_secs must be >= 10") (
      bail_if (c.dns.probe_timeout_secs == 0 || ltb 60 c.dns.probe_timeout_secs)
        (codes "dns.probe_timeout_secs must be 1-60")
        (bail_if (ltb c.dns.cache_ttl_secs 30) (codes "dns.cache_ttl_secs must be >= 30") (
          bail_if (c.dns.max_concurrent_probes == 0) (codes "dns.max_concurrent_probes cannot be 0")
            (bail_if (not (c.cert.ca_key_size == 2048) && not (c.cert.ca_key_size == 4096))
              (codes "cert.ca_key_size must be 2048 or 4096")
              (bail_if (c.cert.cert_validity_days == 0)
                (codes "cert.cert_validity_days cannot be 0") (Result.ok tt)))))))

-- `read` is `std::fs::read_to_string` and `from_str` is `toml::from_str`.
unfoldable pub load_from_file :
    (Text → Result Text) → (Text → Result AppConfig) → Text → Result AppConfig
unfolding validate
load_from_file read from_str path = and_then (read path) (λ content.
    and_then (from_str content) (λ config. and_then (validate config) (λ u. Result.ok config)))

-- `exists_path` is whether the file stands in the data directory.
unfoldable pub load_or_default :
    (Text → Result Text) → (Text → Result AppConfig) → (Text → Bool) → Text → Result AppConfig
unfolding load_from_file
load_or_default read from_str exists_path config_path =
    if exists_path config_path
    then load_from_file read from_str config_path
    else Result.ok default_app_config

-- What a configuration must satisfy.
pub record Valid (c : AppConfig) : Type 0 where
  pub port : 0 < c.proxy.port
  pub idle_timeout : 10 ≤ c.proxy.idle_timeout_secs
  pub probe_timeout : (1 ≤ c.dns.probe_timeout_secs) × (c.dns.probe_timeout_secs ≤ 60)
  pub cache_ttl : 30 ≤ c.dns.cache_ttl_secs
  pub concurrent_probes : 0 < c.dns.max_concurrent_probes
  pub key_size : (c.cert.ca_key_size ≡ 2048) ⊎ (c.cert.ca_key_size ≡ 4096)
  pub validity : 0 < c.cert.cert_validity_days

Valid-of_validate : (c : AppConfig) → validate c ≡ Result.ok tt → Valid c
unfolding validate
Valid-of_validate c h = record {
  port = ground arith;
  idle_timeout = ground arith;
  probe_timeout = (ground arith, ground arith);
  cache_ttl = ground arith;
  concurrent_probes = ground arith;
  key_size = elim (Bool-cases (c.cert.ca_key_size == 2048)) [
    | inl e ↦ inl (ground arith)
    | inr e ↦ inr (ground arith)
  ];
  validity = ground arith;
}

validate_of_Valid : (c : AppConfig) → Valid c → validate c ≡ Result.ok tt
unfolding validate
validate_of_Valid c v = rw (a, b, d, f, g, i, j) refl
  where
    a : (c.proxy.port == 0) ≡ false
    a = ground (arith, v.port)

    b : ltb c.proxy.idle_timeout_secs 10 ≡ false
    b = ground (arith, v.idle_timeout)

    d : (c.dns.probe_timeout_secs == 0 || ltb 60 c.dns.probe_timeout_secs) ≡ false
    d = ground (arith, v.probe_timeout)

    f : ltb c.dns.cache_ttl_secs 30 ≡ false
    f = ground (arith, v.cache_ttl)

    g : (c.dns.max_concurrent_probes == 0) ≡ false
    g = ground (arith, v.concurrent_probes)

    i : (not (c.cert.ca_key_size == 2048) && not (c.cert.ca_key_size == 4096)) ≡ false
    i = ground (arith, v.key_size)

    j : (c.cert.cert_validity_days == 0) ≡ false
    j = ground (arith, v.validity)

-- `validate` accepts exactly the configurations whose numbers are within the documented bounds.
pub validate_iff : (c : AppConfig) → (validate c ≡ Result.ok tt) ↔ Valid c
validate_iff c = (Valid-of_validate c, validate_of_Valid c)

default-Valid : Valid default_app_config
default-Valid = Valid-of_validate default_app_config (unfold validate in refl)

pub Valid-of_load_from_file :
    (read : Text → Result Text) (from_str : Text → Result AppConfig) (path : Text) (c : AppConfig)
    → load_from_file read from_str path ≡ Result.ok c
    → Valid c
unfolding load_from_file
Valid-of_load_from_file read from_str path c h = go (read path) h
  where
    checked :
        (d : AppConfig) (r : Result Unit)
        → validate d ≡ r
        → and_then r (λ u. Result.ok d) ≡ Result.ok c
        → Valid c
    checked d (Result.ok tt) e k = let f : d ≡ c = cc k in rw (← f) (Valid-of_validate d e)
    checked d (Result.err m) e k = absurd (cc k)

    parsed :
        (r : Result AppConfig)
        → and_then r (λ d. and_then (validate d) (λ u. Result.ok d)) ≡ Result.ok c
        → Valid c
    parsed (Result.ok d) k = checked d (validate d) refl k
    parsed (Result.err m) k = absurd (cc k)

    go :
        (r : Result Text)
        → and_then r (λ t. and_then (from_str t) (λ d. and_then (validate d) (λ u. Result.ok d)))
          ≡ Result.ok c
        → Valid c
    go (Result.ok t) k = parsed (from_str t) k
    go (Result.err m) k = absurd (cc k)

-- Whatever stands in the configuration file, what is loaded is within the bounds; without a file
-- it is the built-in configuration, which is so too.
pub load_or_default-Valid :
    (read : Text → Result Text) (from_str : Text → Result AppConfig) (exists_path : Text → Bool)
    (path : Text) (c : AppConfig)
    → load_or_default read from_str exists_path path ≡ Result.ok c
    → Valid c
unfolding load_or_default
load_or_default-Valid read from_str exists_path path c h = elim (Bool-cases (exists_path path)) [
  | inl e ↦ Valid-of_load_from_file read from_str path c (rw e at h)
  | inr e ↦
      let f : Result.ok default_app_config ≡ Result.ok c = rw e at h in
      let g : default_app_config ≡ c = cc f in rw (← g) default-Valid
]
