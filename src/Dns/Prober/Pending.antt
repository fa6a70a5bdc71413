-- ===== src/Dns/Prober/Pending.antt =====
-- src/dns/ip_prober.rs: what an early return means for IPv6.
use hakimi_hub.Prelude.{if◌then◌else◌, is_empty, any, select, ℕ, not, ◌&&◌, List}
use hakimi_hub.Prelude.Str.{Text}
use hakimi_hub.Utils.Containers.{MapOps, LruOps}
use hakimi_hub.Utils.Evictable.{Entry}
use hakimi_hub.Dns.Ip.{IpAddr}
use hakimi_hub.Dns.Prober.{
  IpProber, BestIpValue, Completion, Clock, probe_single_inner, should_probe_ipv6,
  record_ipv6_probe_result, is_ipv6,
}
use hakimi_hub.Dns.Prober.Ranked.{gathered}

abbrev result_of : Completion → IpAddr × ℕ
result_of e = (e.ip, probe_single_inner e.outcome)

module _ (dec : Discrete Text) (M : MapOps dec (Entry BestIpValue)) (L : LruOps dec) where
  abbrev judged : IpProber dec M L → Clock → List IpAddr → List Completion → IpProber dec M L
  judged p clock ips es =
      if should_probe_ipv6 dec M L p clock.asked && not (is_empty (select is_ipv6 ips))
      then record_ipv6_probe_result dec M L p
          (any (λ r. is_ipv6 r.0) (gathered dec M L p clock ips es)) clock.recorded
      else p
