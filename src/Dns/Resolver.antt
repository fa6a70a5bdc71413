-- ===== src/Dns/Resolver.antt =====
-- src/dns/resolver.rs: names resolved by DoH, ranked by the prober and kept in a cache. What the
-- DoH client answers is an argument of each call, none for an error; the probes' completions and
-- the instants that a call reads are arguments as well.
use hakimi_hub.Prelude.{
  ltb, leb, ◌==◌, if◌then◌else◌, ltb→lt, lt→ltb, leb→le, le→leb, ==_iff, ==_refl, Bool-cases,
  Option-cases, &&-elim, &&-intro, ||-elim, is_some, present, length, get_elem?, take, drop,
  is_empty, any, all, select, All, length-append, take-append-drop, length-take, length-drop,
  take-length_append, drop-length_append, All-append, ℕ, zero, suc, ◌+◌, ◌-◌, ◌*◌, ◌/◌, ◌%◌, ◌^◌,
  ◌≤◌, ◌<◌, ◌≡◌, refl, sym, ap, ◌∙◌, ◌≢◌, ◌↔◌, ◌⊎◌, inl, inr, Bool, true, false, not, ◌&&◌, ◌||◌,
  Option, none, some, List, [], ◌∷◌, ◌++◌, map, arith,
}
use hakimi_hub.Prelude.Str.{Text, codes}
use hakimi_hub.Prelude.Str
use mathlib.Core.Option
use mathlib.Core.List
use hakimi_hub.Prelude.Sort.{sort_by_key}
use hakimi_hub.Config.Sections.{DnsConfig}
use hakimi_hub.Utils.Containers.{MapOps, LruOps}
use hakimi_hub.Utils.Evictable.{Entry, EvictableCache, with_ttl}
use hakimi_hub.Utils.Evictable
use hakimi_hub.Dns.Ip.{IpAddr, IpFilterLevel, filter_ips}
use hakimi_hub.Dns.Prober.{
  IpProber, BestIpValue, Clock, Completion, seconds, select_ranked_ips, force_reprobe_ranked,
}
use hakimi_hub.Dns.Prober
pub mod NonEmpty
pub mod Calls

pub record CacheValue : Type 0 where
  pub ips : List IpAddr

pub record DohResolveResult : Type 0 where
  pub ips : List IpAddr
  pub doh_servers : List Text

-- What a caller of `resolve` meets: an address, an error, or a panic of `ips[0]`.
pub data Outcome : Type 0 where
  address : IpAddr → Outcome
  error : Outcome
  panic : Outcome

-- `Ok(ips[0])`
abbrev pub first : List IpAddr → Outcome
first [] = Outcome.panic
first (ip ∷ ips) = Outcome.address ip

-- The instants of the cache's lookup and insertion, and those of the prober.
pub record Times : Type 0 where
  pub looked_up : ℕ
  pub elapsed_at : ℕ
  pub stored : ℕ
  pub stored_ns : ℕ
  pub probing : Clock

-- What the world gives to one task: its instants, the answer and the probes.
abbrev pub Inputs : Type 0
Inputs = Times × Option DohResolveResult × List Completion

-- `if ranked.is_empty() { ips } else { ranked }`
abbrev pub or_else : List IpAddr → List IpAddr → List IpAddr
or_else [] ips = ips
or_else (ip ∷ ranked) ips = ip ∷ ranked

module _ (dec : Discrete Text) (M : MapOps dec (Entry CacheValue))
    (B : MapOps dec (Entry BestIpValue)) (L : LruOps dec) where
  pub record DnsResolver : Type 0 where
    pub ip_prober : IpProber dec B L
    pub cache : EvictableCache dec M L
    pub probe_interval : ℕ

  unfoldable pub new : DnsConfig → DnsResolver
  unfolding Prober.new
  new config = record {
    ip_prober = Prober.new dec B L config;
    cache =
        with_ttl dec M L (elim config.max_cache_entries [ none ↦ 500 | some n ↦ n ])
          (seconds config.cache_ttl_secs);
    probe_interval = seconds config.probe_interval_secs;
  }

  abbrev pub keep : DnsResolver → Text → List IpAddr → Times → DnsResolver
  keep r domain ips t = record r {
    cache = Evictable.insert dec M L r.cache domain (record { ips = ips }) t.stored t.stored_ns;
  }

  unfoldable pub after_lookup : DnsResolver → Text → Times → DnsResolver
  unfolding Evictable.get
  after_lookup r domain t = record r {
    cache = (Evictable.get dec M L r.cache domain t.looked_up t.elapsed_at).1;
  }

  unfoldable pub looked_up : DnsResolver → Text → Times → Option CacheValue
  unfolding Evictable.get
  looked_up r domain t = (Evictable.get dec M L r.cache domain t.looked_up t.elapsed_at).0

  -- The filtered addresses, ranked: the list and the resolver with its prober after that.
  unfoldable pub rank :
      DnsResolver → Text → Times → List IpAddr → List Completion → List IpAddr × DnsResolver
  unfolding filter_ips select_ranked_ips
  rank r domain t ips events =
      let ranked =
        select_ranked_ips dec B L r.ip_prober t.probing domain
          (filter_ips ips IpFilterLevel.public_only) events in
      (ranked.0, record r { ip_prober = ranked.1 })

  -- The part of `resolve` behind a miss of the cache.
  unfoldable pub resolve_fresh :
      DnsResolver → Text → Times → Option DohResolveResult → List Completion → Outcome × DnsResolver
  unfolding rank
  resolve_fresh r domain t none events = (Outcome.error, r)
  resolve_fresh r domain t (some answer) events =
      let ranked = rank r domain t answer.ips events in
      if is_empty answer.ips then (Outcome.error, r) else (elim ranked.0 [
        | [] ↦ (first answer.ips, keep ranked.1 domain answer.ips t)
        | best ∷ others ↦ (Outcome.address best, keep ranked.1 domain (best ∷ others) t)
      ])

  unfoldable pub resolve :
      DnsResolver → Text → Times → Option DohResolveResult → List Completion → Outcome × DnsResolver
  unfolding resolve_fresh looked_up after_lookup
  resolve r domain t doh events = elim (looked_up r domain t) [
    | some entry ↦ (first entry.ips, after_lookup r domain t)
    | none ↦ resolve_fresh (after_lookup r domain t) domain t doh events
  ]

  unfoldable pub candidates_fresh :
      DnsResolver
      → Text
      → Times
      → Option DohResolveResult
      → List Completion
      → List IpAddr × DnsResolver
  unfolding rank
  candidates_fresh r domain t none events = ([], r)
  candidates_fresh r domain t (some answer) events =
      let ranked = rank r domain t answer.ips events in
      let cached = or_else ranked.0 answer.ips in
      if is_empty answer.ips then ([], r) else (cached, keep ranked.1 domain cached t)

  unfoldable pub get_candidates :
      DnsResolver
      → Text
      → Times
      → Option DohResolveResult
      → List Completion
      → List IpAddr × DnsResolver
  unfolding candidates_fresh looked_up after_lookup
  get_candidates r domain t doh events = elim (looked_up r domain t) [
    | some entry ↦ (entry.ips, after_lookup r domain t)
    | none ↦ candidates_fresh (after_lookup r domain t) domain t doh events
  ]

  -- `doh` is the answer of the international servers.
  unfoldable pub resolve_international :
      DnsResolver
      → Text
      → Times
      → Option DohResolveResult
      → List Completion
      → Option (List IpAddr) × DnsResolver
  unfolding rank
  resolve_international r domain t none events = (none, r)
  resolve_international r domain t (some answer) events =
      let ranked = rank r domain t answer.ips events in
      let cached = or_else ranked.0 answer.ips in
      if is_empty answer.ips then (none, r) else (some cached, keep ranked.1 domain cached t)

  -- `iter()`, with the time of the last use of each entry.
  unfoldable pub uses : M.Map → List Text → List (Text × ℕ)
  uses m [] = []
  uses m (k ∷ ks) =
      let rest = uses m ks in
      elim (M.get m k) [ none ↦ rest | some e ↦ (k, e.last_accessed) ∷ rest ]

  -- The domains that `reprobe_all` looks at: the fifty that were used last.
  unfoldable pub reprobed_domains : DnsResolver → List Text
  unfolding sort_by_key uses
  reprobed_domains r =
      let entries = uses r.cache.inner (M.keys r.cache.inner) in
      map (λ e. e.0) (take 50 (List.reverse (sort_by_key (λ e. e.1) entries)))

  -- One task of `reprobe_all`.
  unfoldable pub reprobe :
      DnsResolver → Text → Times → Option DohResolveResult → List Completion → DnsResolver
  unfolding force_reprobe_ranked filter_ips
  reprobe r domain t none events = r
  reprobe r domain t (some answer) events =
      let ranked =
        force_reprobe_ranked dec B L r.ip_prober t.probing domain
          (filter_ips answer.ips IpFilterLevel.public_only) events in
      let q = record r { ip_prober = ranked.1 } in
      if is_empty answer.ips
      then r
      else (elim ranked.0 [ [] ↦ q | best ∷ others ↦ keep q domain (best ∷ others) t ])

  unfoldable pub reprobe_each : DnsResolver → (Text → Inputs) → List Text → DnsResolver
  unfolding reprobe
  reprobe_each r inputs [] = r
  reprobe_each r inputs (domain ∷ domains) =
      let i = inputs domain in reprobe_each (reprobe r domain i.0 i.1 i.2) inputs domains

  -- The tasks run one after the other here; the source lets four of them run at a time.
  unfoldable pub reprobe_all : DnsResolver → (Text → Inputs) → DnsResolver
  unfolding reprobe_each reprobed_domains
  reprobe_all r inputs = reprobe_each r inputs (reprobed_domains r)

  unfoldable pub invalidate : DnsResolver → Text → DnsResolver
  unfolding Prober.invalidate
  invalidate r domain = record r {
    cache = (Evictable.remove dec M L r.cache domain).1;
    ip_prober = Prober.invalidate dec B L r.ip_prober domain;
  }

  unfoldable pub invalidate_all : DnsResolver → DnsResolver
  unfolding Prober.invalidate_all
  invalidate_all r = record r {
    cache = Evictable.clear dec M L r.cache;
    ip_prober = Prober.invalidate_all dec B L r.ip_prober;
  }
