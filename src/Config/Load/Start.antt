-- ===== src/Config/Load/Start.antt =====
-- src/cli/commands.rs: the configuration that `start` runs the proxy with.
use hakimi_hub.Prelude.{
  Option, none, some, ℕ, zero, suc, ◌≢◌, ◌<◌, ◌≡◌, refl, Bool, true, false, if◌then◌else◌, arith,
}
use hakimi_hub.Prelude.Str.{Text}
use hakimi_hub.Config.Sections.{AppConfig}
use hakimi_hub.Config.Load.{
  Result, Valid, load_from_file, load_or_default, load_or_default-Valid, Valid-of_load_from_file,
}

-- The configuration of every command, from the file that an option names or from the usual one.
unfoldable pub command_config :
    (Text → Result Text)
    → (Text → Result AppConfig)
    → (Text → Bool)
    → Text
    → Option Text
    → Result AppConfig
unfolding load_from_file load_or_default
command_config read from_str exists_path config_path none =
    load_or_default read from_str exists_path config_path
command_config read from_str exists_path config_path (some path) = load_from_file read from_str path

-- What the options of `start` change in the configuration that was loaded.
unfoldable pub start_config : Option ℕ → Bool → AppConfig → AppConfig
start_config port no_mitm c =
    let d : AppConfig = elim port [
      | none ↦ c
      | some p ↦ record c { proxy = record (c.proxy) { port = p } }
    ] in
    if no_mitm then record d { proxy = record (d.proxy) { mitm_enabled = false } } else d

with_port-Valid :
    (c : AppConfig) (p : ℕ)
    → 0 < p
    → Valid c
    → Valid (record c { proxy = record (c.proxy) { port = p } })
with_port-Valid c p h v = record {
  port = h;
  idle_timeout = v.idle_timeout;
  probe_timeout = v.probe_timeout;
  cache_ttl = v.cache_ttl;
  concurrent_probes = v.concurrent_probes;
  key_size = v.key_size;
  validity = v.validity;
}

without_mitm-Valid :
    (c : AppConfig)
    → Valid c
    → Valid (record c { proxy = record (c.proxy) { mitm_enabled = false } })
without_mitm-Valid c v = record {
  port = v.port;
  idle_timeout = v.idle_timeout;
  probe_timeout = v.probe_timeout;
  cache_ttl = v.cache_ttl;
  concurrent_probes = v.concurrent_probes;
  key_size = v.key_size;
  validity = v.validity;
}

Valid-start_config :
    (port : Option ℕ) (no_mitm : Bool) (c : AppConfig)
    → port ≢ some 0
    → Valid c
    → Valid (start_config port no_mitm c)
unfolding start_config
Valid-start_config none false c n v = v
Valid-start_config none true c n v = without_mitm-Valid c v
Valid-start_config (some zero) no_mitm c n v = absurd (n refl)
Valid-start_config (some (suc p)) false c n v = with_port-Valid c (suc p) (omega arith) v
Valid-start_config (some (suc p)) true c n v =
    without_mitm-Valid (record c { proxy = record (c.proxy) { port = suc p } })
      (with_port-Valid c (suc p) (omega arith) v)

command_config-Valid :
    (read : Text → Result Text) (from_str : Text → Result AppConfig) (exists_path : Text → Bool)
    (usual : Text) (given : Option Text) (c : AppConfig)
    → command_config read from_str exists_path usual given ≡ Result.ok c
    → Valid c
unfolding command_config
command_config-Valid read from_str exists_path usual none c h =
    load_or_default-Valid read from_str exists_path usual c h
command_config-Valid read from_str exists_path usual (some path) c h =
    Valid-of_load_from_file read from_str path c h

-- Whatever stands in the configuration file, the usual one or one that is given, the configuration
-- that `start` runs the proxy with is within the bounds that `validate` checks, if the option
-- `--port` is not given as 0.
pub start_config-Valid :
    (read : Text → Result Text) (from_str : Text → Result AppConfig) (exists_path : Text → Bool)
    (usual : Text) (given : Option Text) (c : AppConfig) (port : Option ℕ) (no_mitm : Bool)
    → command_config read from_str exists_path usual given ≡ Result.ok c
    → port ≢ some 0
    → Valid (start_config port no_mitm c)
start_config-Valid read from_str exists_path usual given c port no_mitm h n =
    Valid-start_config port no_mitm c n
      (command_config-Valid read from_str exists_path usual given c h)
