-- ===== src/Dns/Prober/Select.antt =====
-- src/dns/ip_prober.rs: all addresses are probed, and the fastest is selected. `outcomes` is what
-- `join_all` returns: one outcome for each probe, in the order of the addresses.
use hakimi_hub.Prelude.{
  ltb, leb, if◌then◌else◌, is_empty, any, select, ℕ, not, ◌&&◌, Option, none, some, List, [], ◌∷◌,
  map,
}
use hakimi_hub.Prelude.Str.{Text}
use hakimi_hub.Utils.Containers.{MapOps, LruOps}
use hakimi_hub.Utils.Evictable.{Entry, EvictableCache}
use hakimi_hub.Utils.Evictable
use hakimi_hub.Dns.Ip.{IpAddr}
use hakimi_hub.Dns.Prober.{
  IpProber, BestIpValue, IpProbeResult, IpSelectResult, Connect, Clock, probe_single_inner, is_ipv6,
  ips_to_probe, should_probe_ipv6, record_ipv6_probe_result, remember, invalidate,
}

-- `ips_to_probe.iter().zip(results)`
unfoldable pub probe_results : ℕ → List IpAddr → List Connect → List IpProbeResult
unfolding probe_single_inner
probe_results timeout [] outcomes = []
probe_results timeout (ip ∷ ips) [] = []
probe_results timeout (ip ∷ ips) (o ∷ outcomes) =
    record {
      ip = ip;
      latency = probe_single_inner o;
      reachable = ltb (probe_single_inner o) timeout;
    }
    ∷ probe_results timeout ips outcomes

-- `min_by_key(|r| r.latency)`, which takes the first of several minima.
unfoldable pub min_by_latency : List IpProbeResult → Option IpProbeResult
min_by_latency [] = none
min_by_latency (r ∷ rs) = elim (min_by_latency rs) [
  | none ↦ some r
  | some s ↦ some (if leb r.latency s.latency then r else s)
]

-- The error is none.
unfoldable pub pick_best : List IpProbeResult → Option IpSelectResult
unfolding min_by_latency
pick_best results =
    let reachable = select (λ r. r.reachable) results in
    if is_empty reachable
    then some (IpSelectResult.all_unreachable (map (λ r. r.ip) results))
    else (elim (min_by_latency reachable) [
      | none ↦ none
      | some best ↦ some (IpSelectResult.best_ip best.ip)
    ])

module _ (dec : Discrete Text) (M : MapOps dec (Entry BestIpValue)) (L : LruOps dec) where
  unfoldable pub probe_all_with_ipv6_handling :
      IpProber dec M L → Clock → List IpAddr → List Connect → List IpProbeResult × IpProber dec M L
  unfolding should_probe_ipv6 ips_to_probe probe_results record_ipv6_probe_result
  probe_all_with_ipv6_handling p clock ips outcomes =
      let probe_ipv6 = should_probe_ipv6 dec M L p clock.asked in
      let results = probe_results p.probe_timeout (ips_to_probe probe_ipv6 ips) outcomes in
      let any_success = any (λ r. r.reachable) (select (λ r. is_ipv6 r.ip) results) in
      (
        results,
        if probe_ipv6 && not (is_empty (select is_ipv6 ips))
            then record_ipv6_probe_result dec M L p any_success clock.recorded
            else p,
      )

  -- The cached address of a domain, and the prober with the cache after the lookup.
  unfoldable pub cached : IpProber dec M L → Clock → Text → Option BestIpValue × IpProber dec M L
  unfolding Evictable.get
  cached p clock domain =
      let r = Evictable.get dec M L p.best_ip_cache domain clock.looked_up clock.looked_up in
      (r.0, record p { best_ip_cache = r.1 })

  -- What `select_best_ip_detailed` does with the answer of `pick_best`.
  unfoldable pub settle :
      IpProber dec M L
      → Clock
      → Text
      → Option IpSelectResult
      → Option IpSelectResult × IpProber dec M L
  unfolding remember
  settle p clock domain none = (none, p)
  settle p clock domain (some (IpSelectResult.best_ip ip)) =
      (some (IpSelectResult.best_ip ip), remember dec M L p domain ip clock)
  settle p clock domain (some (IpSelectResult.all_unreachable ips)) =
      (some (IpSelectResult.all_unreachable ips), p)

  unfoldable pub select_best_ip_detailed :
      IpProber dec M L
      → Clock
      → Text
      → List IpAddr
      → List Connect
      → Option IpSelectResult × IpProber dec M L
  unfolding cached probe_all_with_ipv6_handling pick_best settle
  select_best_ip_detailed p clock domain ips outcomes =
      let c = cached p clock domain in
      let probed = probe_all_with_ipv6_handling c.1 clock ips outcomes in
      if is_empty ips then (none, p) else (elim c.0 [
        | some entry ↦ (some (IpSelectResult.best_ip entry.ip), c.1)
        | none ↦ settle probed.1 clock domain (pick_best probed.0)
      ])

  -- `all_ips[0]`, after the test that there is one.
  abbrev pub first_of : Option IpSelectResult → Option IpAddr
  first_of none = none
  first_of (some (IpSelectResult.best_ip ip)) = some ip
  first_of (some (IpSelectResult.all_unreachable [])) = none
  first_of (some (IpSelectResult.all_unreachable (ip ∷ ips))) = some ip

  unfoldable pub select_best_ip :
      IpProber dec M L
      → Clock
      → Text
      → List IpAddr
      → List Connect
      → Option IpAddr × IpProber dec M L
  unfolding cached probe_all_with_ipv6_handling pick_best settle
  select_best_ip p clock domain ips outcomes =
      let c = cached p clock domain in
      let probed = probe_all_with_ipv6_handling c.1 clock ips outcomes in
      let r = settle probed.1 clock domain (pick_best probed.0) in
      if is_empty ips
      then (none, p)
      else (elim c.0 [ some entry ↦ (some entry.ip, c.1) | none ↦ (first_of r.0, r.1) ])

  unfoldable pub force_reprobe :
      IpProber dec M L
      → Clock
      → Text
      → List IpAddr
      → List Connect
      → Option IpAddr × IpProber dec M L
  unfolding invalidate select_best_ip
  force_reprobe p clock domain ips outcomes =
      select_best_ip (invalidate dec M L p domain) clock domain ips outcomes

  unfoldable pub force_reprobe_detailed :
      IpProber dec M L
      → Clock
      → Text
      → List IpAddr
      → List Connect
      → Option IpSelectResult × IpProber dec M L
  unfolding invalidate select_best_ip_detailed
  force_reprobe_detailed p clock domain ips outcomes =
      select_best_ip_detailed (invalidate dec M L p domain) clock domain ips outcomes
