-- ===== src/Dns/Prober.antt =====
-- src/dns/ip_prober.rs: addresses ranked by the time a TCP connection takes. The connections are
-- tokio's: their outcomes are arguments, in the order in which they complete where the source
-- takes them as they come (the semaphore only bears on that order). Times are in nanoseconds.
use hakimi_hub.Prelude.{
  ltb, leb, ◌==◌, if◌then◌else◌, ltb→lt, lt→ltb, leb→le, le→leb, ==_iff, ==_refl, Bool-cases,
  Option-cases, &&-elim, &&-intro, ||-elim, is_some, present, length, get_elem?, take, drop,
  is_empty, any, all, select, All, length-append, take-append-drop, length-take, length-drop,
  take-length_append, drop-length_append, All-append, ℕ, zero, suc, ◌+◌, ◌-◌, ◌*◌, ◌/◌, ◌%◌, ◌^◌,
  ◌≤◌, ◌<◌, ◌≡◌, refl, sym, ap, ◌∙◌, ◌≢◌, ◌↔◌, ◌⊎◌, inl, inr, Bool, true, false, not, ◌&&◌, ◌||◌,
  Option, none, some, List, [], ◌∷◌, ◌++◌, map, arith,
}
use hakimi_hub.Prelude.Str.{Text, codes}
use hakimi_hub.Prelude.Str
use mathlib.Core.Option
use mathlib.Core.List
use hakimi_hub.Prelude.Sort.{sort_by_key}
use hakimi_hub.Config.Sections.{DnsConfig}
use hakimi_hub.Utils.Containers.{MapOps, LruOps}
use hakimi_hub.Utils.Evictable.{Entry, EvictableCache, with_ttl}
use hakimi_hub.Utils.Evictable
use hakimi_hub.Dns.Ip.{IpAddr}
pub mod Ipv6
pub mod Ranking
pub mod Ranked
pub mod Pending
pub mod Select
pub mod Best

pub record IpProbeResult : Type 0 where
  pub ip : IpAddr
  pub latency : ℕ
  pub reachable : Bool

pub record BestIpValue : Type 0 where
  pub ip : IpAddr

pub data IpSelectResult : Type 0 where
  best_ip : IpAddr → IpSelectResult
  all_unreachable : List IpAddr → IpSelectResult

pub record Ipv6Status : Type 0 where
  pub consecutive_failures : ℕ
  pub disabled_until : Option ℕ

-- How a connection attempt ends: after a time, with an error, or at the timeout.
pub data Connect : Type 0 where
  connected : ℕ → Connect
  failed : Connect
  timed_out : Connect

-- `Duration::MAX`
abbrev pub duration_max : ℕ
duration_max = 18446744073709551615 * 1000000000 + 999999999

unfoldable pub probe_single_inner : Connect → ℕ
probe_single_inner (Connect.connected elapsed) = elapsed
probe_single_inner Connect.failed = duration_max
probe_single_inner Connect.timed_out = duration_max

-- A probe that completes: its address, its outcome and the time at which the loop looks at it.
pub record Completion : Type 0 where
  pub ip : IpAddr
  pub outcome : Connect
  pub now : ℕ

abbrev pub is_ipv4 : IpAddr → Bool
is_ipv4 (IpAddr.v4 a b c d) = true
is_ipv4 (IpAddr.v6 a b c d e f g h) = false

abbrev pub is_ipv6 : IpAddr → Bool
is_ipv6 ip = not (is_ipv4 ip)

-- The instants that a call reads, in the order in which it reads them.
pub record Clock : Type 0 where
  pub asked : ℕ
  pub started : ℕ
  pub recorded : ℕ
  pub looked_up : ℕ
  pub inserted : ℕ
  pub inserted_ns : ℕ

abbrev pub seconds : ℕ → ℕ
seconds n = n * 1000000000

-- The addresses that are probed: all of them, or those of IPv4 while IPv6 is disabled.
unfoldable pub ips_to_probe : Bool → List IpAddr → List IpAddr
ips_to_probe probe_ipv6 ips =
    let ipv4_ips = select is_ipv4 ips in
    let ipv6_ips = select is_ipv6 ips in
    if probe_ipv6 || (is_empty ipv4_ips && not (is_empty ipv6_ips)) then ips else ipv4_ips

-- `if latency < self.probe_timeout { results.push((ip, latency)) }`
unfoldable pub push_result : ℕ → List (IpAddr × ℕ) → Completion → List (IpAddr × ℕ)
unfolding probe_single_inner
push_result timeout results e =
    let latency = probe_single_inner e.outcome in
    if ltb latency timeout then results ++ (e.ip, latency) ∷ [] else results

-- The first loop: the results, and the probes that had not completed when it was left.
unfoldable pub collect :
    Bool → ℕ → ℕ → List (IpAddr × ℕ) → List Completion → List (IpAddr × ℕ) × List Completion
unfolding push_result
collect fast deadline timeout results [] = (results, [])
collect fast deadline timeout results (e ∷ es) =
    let pushed = push_result timeout results e in
    let rest = collect fast deadline timeout pushed es in
    if fast && leb 3 (length pushed) && leb deadline e.now then (pushed, es) else rest

-- The second loop, which waits for all that is left.
unfoldable pub collect_rest : ℕ → List (IpAddr × ℕ) → List Completion → List (IpAddr × ℕ)
unfolding push_result
collect_rest timeout results [] = results
collect_rest timeout results (e ∷ es) = collect_rest timeout (push_result timeout results e) es

-- Both loops, for the probes of `total` addresses.
unfoldable pub gather : ℕ → ℕ → ℕ → List Completion → List (IpAddr × ℕ)
unfolding collect collect_rest
gather timeout started total events =
    let r = collect (ltb 3 total) (started + 200000000) timeout [] events in
    if ltb (length r.0) 3 && not (is_empty r.1) then collect_rest timeout r.0 r.1 else r.0

module _ (dec : Discrete Text) (M : MapOps dec (Entry BestIpValue)) (L : LruOps dec) where
  pub record IpProber : Type 0 where
    pub probe_timeout : ℕ
    pub best_ip_cache : EvictableCache dec M L
    pub ipv6_status : Ipv6Status
    pub ipv6_failure_threshold : ℕ
    pub ipv6_recovery_duration : ℕ
    pub ipv6_enabled : Bool

  unfoldable pub new : DnsConfig → IpProber
  new config = record {
    probe_timeout = seconds config.probe_timeout_secs;
    best_ip_cache =
        with_ttl dec M L (elim config.max_cache_entries [ none ↦ 500 | some n ↦ n ])
          (seconds config.cache_ttl_secs);
    ipv6_status = record { consecutive_failures = 0; disabled_until = none };
    ipv6_failure_threshold = config.ipv6_failure_threshold;
    ipv6_recovery_duration = seconds config.ipv6_recovery_secs;
    ipv6_enabled = config.ipv6_enabled;
  }

  unfoldable pub should_probe_ipv6 : IpProber → ℕ → Bool
  should_probe_ipv6 p now =
      if not p.ipv6_enabled
      then false
      else if p.ipv6_failure_threshold == 0
      then true
      else (elim p.ipv6_status.disabled_until [ none ↦ true | some until ↦ not (ltb now until) ])

  -- `fetch_add` on an `AtomicU32` wraps around; the sum `+ 1` on its old value does as well.
  unfoldable pub record_ipv6_probe_result : IpProber → Bool → ℕ → IpProber
  record_ipv6_probe_result p success now =
      let failures = (p.ipv6_status.consecutive_failures + 1) % 2 ^ 32 in
      if p.ipv6_failure_threshold == 0
      then p
      else if success
      then record p { ipv6_status = record { consecutive_failures = 0; disabled_until = none } }
      else record p {
        ipv6_status = record {
          consecutive_failures = failures;
          disabled_until =
              if leb p.ipv6_failure_threshold failures
              then some (now + p.ipv6_recovery_duration)
              else p.ipv6_status.disabled_until;
        };
      }

  unfoldable pub remember : IpProber → Text → IpAddr → Clock → IpProber
  unfolding Evictable.insert
  remember p domain ip clock = record p {
    best_ip_cache =
        Evictable.insert dec M L p.best_ip_cache domain (record { ip = ip }) clock.inserted
          clock.inserted_ns;
  }

  unfoldable pub select_ranked_ips :
      IpProber → Clock → Text → List IpAddr → List Completion → List IpAddr × IpProber
  unfolding should_probe_ipv6 record_ipv6_probe_result ips_to_probe gather remember sort_by_key
  select_ranked_ips p clock domain ips events =
      let probe_ipv6 = should_probe_ipv6 p clock.asked in
      let probed = ips_to_probe probe_ipv6 ips in
      let results = gather p.probe_timeout clock.started (length probed) events in
      let q =
        if probe_ipv6 && not (is_empty (select is_ipv6 ips))
        then record_ipv6_probe_result p (any (λ r. is_ipv6 r.0) results) clock.recorded
        else p in
      if is_empty ips then ([], p) else (elim (map (λ r. r.0) (sort_by_key (λ r. r.1) results)) [
        | [] ↦ ([], q)
        | best ∷ others ↦ (best ∷ others, remember q domain best clock)
      ])

  unfoldable pub invalidate : IpProber → Text → IpProber
  unfolding Evictable.remove
  invalidate p domain = record p {
    best_ip_cache = (Evictable.remove dec M L p.best_ip_cache domain).1;
  }

  unfoldable pub invalidate_all : IpProber → IpProber
  unfolding Evictable.clear
  invalidate_all p = record p { best_ip_cache = Evictable.clear dec M L p.best_ip_cache }

  unfoldable pub force_reprobe_ranked :
      IpProber → Clock → Text → List IpAddr → List Completion → List IpAddr × IpProber
  unfolding invalidate select_ranked_ips
  force_reprobe_ranked p clock domain ips events =
      select_ranked_ips (invalidate p domain) clock domain ips events
