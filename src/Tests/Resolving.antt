-- ===== src/Tests/Resolving.antt =====
-- Runs of the resolver, its prober, the store of working addresses and the DoH exchange.
use mathlib.Core.Path.{subst}
use mathlib.Core.List.{Perm}
use hakimi_hub.Prelude.{◌&&◌}
use hakimi_hub.Prelude.{
  sym, ◌==◌, if◌then◌else◌, ltb, length, is_empty, any, ℕ, ◌+◌, ◌*◌, ◌≤◌, ◌<◌, ◌≡◌, refl, true,
  false, not, Option, none, some, List, [], ◌∷◌, ◌++◌, map, arith,
}
use hakimi_hub.Prelude.Str.{Text, codes}
use hakimi_hub.Prelude.Str
use native.Mathlib.Decide.{ℕ_discrete}
use mathlib.Core.List.{List-discrete}
use hakimi_hub.Prelude.Sort.{Sorted}
use hakimi_hub.Config.Sections.{DnsConfig, DohEndpoint}
use hakimi_hub.Config.Defaults.{default_doh_endpoints, default_app_config}
use hakimi_hub.Utils.Containers.{MapOps, LruOps}
use hakimi_hub.Utils.Containers.Lists.{list_map, list_index}
use hakimi_hub.Utils.Evictable.{Entry}
use hakimi_hub.Dns.Ip.{IpAddr, v4, v6}
use hakimi_hub.Dns.Exchange.{send_doh_request, Reads}
use hakimi_hub.Dns.Exchange
use hakimi_hub.Dns.Exchange.Chunks.{reads_of}
use hakimi_hub.Dns.Exchange.Whole.{send_doh_request-chunks}
use hakimi_hub.Dns.Prober.{
  IpProber, BestIpValue, Connect, Completion, Clock, IpProbeResult, IpSelectResult,
  select_ranked_ips,
}
use hakimi_hub.Dns.Prober
use hakimi_hub.Dns.Prober.Select.{pick_best}
use hakimi_hub.Dns.Prober.Best.{pick_best-IsFastest, StandsIn, IsFastest, reachable_of}
use hakimi_hub.Dns.Prober.Ranking.{reaches, results_of}
use hakimi_hub.Dns.Prober.Ranked.{select_ranked_ips-Sorted, select_ranked_ips-some}
use hakimi_hub.Dns.Working.{get, new}
use hakimi_hub.Dns.Working.Bounds.{Bounded, record_all, record_all-Bounded}
use hakimi_hub.Dns.Stream.{host_task}
use hakimi_hub.Dns.Stream.Attempts.{Fruitless, of_host, host_task-answer}
use hakimi_hub.Dns.Resolver.{CacheValue, DohResolveResult, Times, resolve}
use hakimi_hub.Dns.Resolver
use hakimi_hub.Dns.Resolver.NonEmpty.{panics}
use hakimi_hub.Dns.Resolver.Calls.{Call, run, run-no_panic}
use hakimi_hub.Dns.Queries.{HostAnswer, resolve_with_groups}
use hakimi_hub.Dns.Queries.Groups.{Once, resolve_with_groups-Once}

abbrev text_discrete : Discrete Text
text_discrete = List-discrete ℕ_discrete

abbrev dns_head : Text
dns_head = codes "HTTP/1.1 200 OK\r\nContent-Length: 3"

abbrev dns_chunks : List Text
dns_chunks = codes "HTTP/1.1 200 OK\r\nContent-Length: 3\r\n\r" ∷ (10 ∷ 7 ∷ []) ∷ (8 ∷ 9 ∷ []) ∷ []

abbrev next_read : Reads
next_read = some (1 ∷ []) ∷ []

head_ends :
    Exchange.find_header_end (dns_head ++ (Exchange.separator ++ 7 ∷ 8 ∷ 9 ∷ []))
    ≡ some (length dns_head)
unfolding Exchange.find_header_end
head_ends = refl

head_length : Exchange.length_in (Str.lines dns_head) ≡ some 3
unfolding Exchange.length_in Str.lines
head_length = refl

send_doh_request-chunks_example :
    send_doh_request (λ s. true) (reads_of dns_chunks ++ next_read)
    ≡ some (7 ∷ 8 ∷ 9 ∷ [], next_read)
send_doh_request-chunks_example =
    send_doh_request-chunks (λ s. true) dns_head (7 ∷ 8 ∷ 9 ∷ []) dns_chunks next_read head_ends
      refl head_length (refl, (refl, (refl, tt))) refl

abbrev values : MapOps text_discrete (Entry CacheValue)
values = list_map text_discrete

abbrev best : MapOps text_discrete (Entry BestIpValue)
best = list_map text_discrete

abbrev uses : LruOps text_discrete
uses = list_index text_discrete

abbrev clock : Clock
clock = record {
  asked = 1;
  started = 2;
  recorded = 300000000;
  looked_up = 0;
  inserted = 300000001;
  inserted_ns = 300000001;
}

abbrev settings : DnsConfig
settings = record default_app_config.dns { ipv6_enabled = true }

abbrev prober : IpProber text_discrete best uses
prober = Prober.new text_discrete best uses settings

abbrev reached : ℕ → ℕ → ℕ → Completion
reached n ms now = record {
  ip = v4 20 205 243 n;
  outcome = Connect.connected (ms * 1000000);
  now = now;
}

abbrev four_ips : List IpAddr
four_ips = v4 20 205 243 1 ∷ v4 20 205 243 2 ∷ v4 20 205 243 3 ∷ v6 10240 0 0 0 0 0 0 1 ∷ []

abbrev completions : List Completion
completions = reached 1 30 30000000 ∷ reached 2 20 40000000 ∷ reached 3 250 250000000 ∷ []

select_ranked_ips-some_example :
    is_empty
      (select_ranked_ips text_discrete best uses prober clock
        (codes "github.com")
        four_ips
        completions).0
    ≡ not (any (reaches prober.probe_timeout) completions)
select_ranked_ips-some_example =
    select_ranked_ips-some text_discrete best uses prober clock (codes "github.com") four_ips
      completions refl

select_ranked_ips-Sorted_example :
    (rs : List (IpAddr × ℕ)) × (seen : List Completion) × (left : List Completion)
    × ((select_ranked_ips text_discrete best uses prober clock
          (codes "github.com")
          four_ips
          completions).0
        ≡ map (λ r. r.0) rs)
    × Sorted (λ r. r.1) rs
    × (completions ≡ seen ++ left)
    × Perm rs (results_of prober.probe_timeout seen)
    × ((ltb (length rs) 3 && not (is_empty left)) ≡ false)
select_ranked_ips-Sorted_example =
    select_ranked_ips-Sorted text_discrete best uses prober clock (codes "github.com") four_ips
      completions refl

abbrev probes : List IpProbeResult
probes =
    record { ip = v4 20 205 243 1; latency = 30; reachable = true }
    ∷ record { ip = v4 20 205 243 2; latency = 20; reachable = true }
    ∷ record { ip = v4 20 205 243 3; latency = 10; reachable = false }
    ∷ []

pick_best-IsFastest_example :
    (s : IpProbeResult) × (pick_best probes ≡ some (IpSelectResult.best_ip s.ip))
    × StandsIn s (reachable_of probes)
    × IsFastest s (reachable_of probes)
pick_best-IsFastest_example = pick_best-IsFastest probes refl

abbrev lists : MapOps text_discrete (List IpAddr)
lists = list_map text_discrete

record_all-Bounded_example : Bounded (
    get text_discrete lists
      (record_all text_discrete lists (new text_discrete lists none 0) (
        (codes "github.com", v4 20 205 243 1, 1, 2)
        ∷ (codes "github.com", v4 20 205 243 2, 3, 4)
        ∷ (codes "github.com", v4 20 205 243 1, 5, 6)
        ∷ []))
      (codes "github.com"))
record_all-Bounded_example =
    record_all-Bounded text_discrete lists 0
      ((codes "github.com", v4 20 205 243 1, 1, 2)
        ∷ (codes "github.com", v4 20 205 243 2, 3, 4)
        ∷ (codes "github.com", v4 20 205 243 1, 5, 6)
        ∷ [])
      (codes "github.com")

-- The second answer has an address of each family.
abbrev second : ℕ → Option (List IpAddr)
second attempt = if attempt == 2 then some (v6 10240 0 0 0 0 0 0 1 ∷ v4 20 205 243 1 ∷ []) else none

first-Fruitless : (i : ℕ) → 1 ≤ i → i < 1 + 1 → Fruitless (second i)
first-Fruitless i l m =
    let e : i ≡ 1 = omega (arith, l, m) in subst (λ j. Fruitless (second j)) (sym e) tt

host_task-answer_example : host_task second (λ i. true) (codes "dns.alidns.com") ≡ record {
  sent = of_host (codes "dns.alidns.com") (v4 20 205 243 1) ∷ [];
  queries = 2;
  sleeps = 1;
}
host_task-answer_example =
    host_task-answer second (codes "dns.alidns.com") 1 (v6 10240 0 0 0 0 0 0 1)
      (v4 20 205 243 1 ∷ []) (omega arith) first-Fruitless refl

abbrev times : Times
times = record { looked_up = 1; elapsed_at = 2; stored = 3; stored_ns = 4; probing = clock }

abbrev answer : DohResolveResult
answer = record { ips = four_ips; doh_servers = codes "ali" ∷ [] }

abbrev resolver_calls : List Call
resolver_calls =
    Call.resolve_call (codes "github.com") times (some answer) completions
    ∷ Call.invalidate_call (codes "github.com")
    ∷ Call.candidates_call (codes "github.com") times (some answer) []
    ∷ []

run-no_panic_example :
    panics
      (resolve text_discrete values best uses
        (run text_discrete values best uses
          (Resolver.new text_discrete values best uses settings)
          resolver_calls)
        (codes "github.com")
        times
        none
        []).0
    ≡ false
run-no_panic_example =
    run-no_panic text_discrete values best uses settings resolver_calls (codes "github.com") times
      none []

abbrev ask : List DohEndpoint → HostAnswer
ask es = (v4 20 205 243 1 ∷ [], codes "ali" ∷ [])

asked :
    resolve_with_groups ask (default_doh_endpoints ∷ [])
    ≡ some (record { ips = v4 20 205 243 1 ∷ []; doh_servers = codes "ali" ∷ [] })
unfolding resolve_with_groups
asked = refl

resolve_with_groups-Once_example :
    (is_empty (v4 20 205 243 1 ∷ []) ≡ false) × Once (v4 20 205 243 1 ∷ [])
resolve_with_groups-Once_example =
    resolve_with_groups-Once ask (default_doh_endpoints ∷ [])
      (record { ips = v4 20 205 243 1 ∷ []; doh_servers = codes "ali" ∷ [] }) asked
