-- ===== src/Dns/Working.antt =====
-- src/dns/working_ip_store.rs: the addresses that worked, for each domain, the last one first. The
-- file is read by `loaded`, none where it is missing or not readable as JSON; the thread that
-- writes it is returned as the snapshot that it writes. A lock is never poisoned: the release
-- profile aborts on a panic.
use hakimi_hub.Prelude.{
  ltb, leb, ◌==◌, if◌then◌else◌, ltb→lt, lt→ltb, leb→le, le→leb, ==_iff, ==_refl, Bool-cases,
  Option-cases, &&-elim, &&-intro, ||-elim, is_some, present, length, get_elem?, take, drop,
  is_empty, any, all, select, All, length-append, take-append-drop, length-take, length-drop,
  take-length_append, drop-length_append, All-append, ℕ, zero, suc, ◌+◌, ◌-◌, ◌*◌, ◌/◌, ◌%◌, ◌^◌,
  ◌≤◌, ◌<◌, ◌≡◌, refl, sym, ap, ◌∙◌, ◌≢◌, ◌↔◌, ◌⊎◌, inl, inr, Bool, true, false, not, ◌&&◌, ◌||◌,
  Option, none, some, List, [], ◌∷◌, ◌++◌, map, arith,
}
use hakimi_hub.Prelude.Str.{Text, codes}
use hakimi_hub.Prelude.Str
use mathlib.Core.Option
use mathlib.Core.List
use mathlib.Core.Logic.{ite}
use hakimi_hub.Utils.Containers.{MapOps, without, count}
use hakimi_hub.Dns.Ip.{IpAddr}
use hakimi_hub.Dns.Ip.Equality.{ip_discrete}
pub mod Bounds

abbrev pub max_ips_per_domain : ℕ
max_ips_per_domain = 10

-- Five seconds, in nanoseconds.
abbrev pub persist_interval : ℕ
persist_interval = 5000000000

-- `if let Some(pos) = position(|&x| x == ip) { remove(pos) }`: the first occurrence goes.
unfoldable pub remove_first : IpAddr → List IpAddr → List IpAddr
remove_first ip [] = []
remove_first ip (x ∷ xs) = let rest = remove_first ip xs in ite (ip_discrete x ip) xs (x ∷ rest)

-- `insert(0, ip)` and `truncate(MAX_IPS_PER_DOMAIN)` after that.
unfoldable pub promote : IpAddr → List IpAddr → List IpAddr
unfolding remove_first
promote ip ips = take max_ips_per_domain (ip ∷ remove_first ip ips)

module _ (dec : Discrete Text) (M : MapOps dec (List IpAddr)) where
  pub record WorkingIpStore : Type 0 where
    pub entries : M.Map
    pub last_persist : ℕ

  unfoldable pub new : Option M.Map → ℕ → WorkingIpStore
  new loaded now = record {
    entries = elim loaded [ none ↦ M.empty | some m ↦ m ];
    last_persist = now;
  }

  -- `unwrap_or_default`
  abbrev pub or_empty : Option (List IpAddr) → List IpAddr
  or_empty none = []
  or_empty (some ips) = ips

  unfoldable pub get : WorkingIpStore → Text → List IpAddr
  get s domain = or_empty (M.get s.entries domain)

  unfoldable pub persist : WorkingIpStore → ℕ → Option M.Map × WorkingIpStore
  persist s now = (some s.entries, record s { last_persist = now })

  -- `now` is read by `elapsed` and `later` by `persist`.
  unfoldable pub record_success :
      WorkingIpStore → Text → IpAddr → ℕ → ℕ → Option M.Map × WorkingIpStore
  unfolding promote persist
  record_success s domain ip now later =
      let t = record s {
        entries = M.insert s.entries domain (promote ip (or_empty (M.get s.entries domain)));
      } in
      if leb persist_interval (now - s.last_persist) then persist t later else (none, t)
