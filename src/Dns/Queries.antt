-- ===== src/Dns/Queries.antt =====
-- src/dns/doh_client.rs: a name is asked of groups of servers until one group has an answer. The
-- answers of hosts come in the order in which their queries complete, none for an error.
use hakimi_hub.Prelude.{
  ◌>>=◌, ltb, leb, ◌==◌, if◌then◌else◌, ltb→lt, lt→ltb, leb→le, le→leb, ==_iff, ==_refl, Bool-cases,
  Option-cases, &&-elim, &&-intro, ||-elim, is_some, present, length, get_elem?, take, drop,
  is_empty, any, all, select, All, length-append, take-append-drop, length-take, length-drop,
  take-length_append, drop-length_append, All-append, ℕ, zero, suc, ◌+◌, ◌-◌, ◌*◌, ◌/◌, ◌%◌, ◌^◌,
  ◌≤◌, ◌<◌, ◌≡◌, refl, sym, ap, ◌∙◌, ◌≢◌, ◌↔◌, ◌⊎◌, inl, inr, Bool, true, false, not, ◌&&◌, ◌||◌,
  Option, none, some, List, [], ◌∷◌, ◌++◌, map, arith,
}
use hakimi_hub.Prelude.Str.{Text, codes}
use hakimi_hub.Prelude.Str
use mathlib.Core.Option
use mathlib.Core.List
use mathlib.Core.Logic.{ite}
use hakimi_hub.Config.Sections.{DohEndpoint}
use hakimi_hub.Utils.Containers.{MapOps}
use hakimi_hub.Dns.Ip.{IpAddr}
use hakimi_hub.Dns.Ip.Equality.{ip_discrete}
use hakimi_hub.Dns.Endpoints.{sort_by_priority, select_endpoints, extract_host}
use hakimi_hub.Dns.Exchange.{Reads, send_doh_request}
use hakimi_hub.Dns.Message
use hakimi_hub.Dns.Message.{parse_dns_response}
use hakimi_hub.Dns.Resolver.{DohResolveResult}
pub mod Groups

-- `HashSet::contains`, for the set of the addresses in a list.
unfoldable pub seen : IpAddr → List IpAddr → Bool
seen ip [] = false
seen ip (x ∷ xs) = let rest = seen ip xs in ite (ip_discrete x ip) true rest

-- `if seen.insert(ip) { ips.push(ip) }` for each address.
unfoldable pub push_new : List IpAddr → List IpAddr → List IpAddr
unfolding seen
push_new ips [] = ips
push_new ips (x ∷ xs) = push_new (if seen x ips then ips else ips ++ x ∷ []) xs

abbrev pub HostAnswer : Type 0
HostAnswer = List IpAddr × List Text

-- The loop of `query_group` over the hosts as they answer.
unfoldable pub query_group : HostAnswer → List (Option HostAnswer) → HostAnswer
unfolding push_new
query_group acc [] = acc
query_group acc (none ∷ rs) = query_group acc rs
query_group acc (some r ∷ rs) = query_group (push_new acc.0 r.0, acc.1 ++ r.1) rs

-- The endpoints of each host, in the order in which the hosts first occur.
unfoldable pub add_to_host :
    Text → DohEndpoint → List (Text × List DohEndpoint) → List (Text × List DohEndpoint)
unfolding Str.text_eq
add_to_host host e [] = (host, e ∷ []) ∷ []
add_to_host host e ((h, es) ∷ m) =
    let rest = add_to_host host e m in
    if Str.text_eq h host then (h, es ++ e ∷ []) ∷ m else (h, es) ∷ rest

unfoldable pub host_to_endpoints :
    List (Text × List DohEndpoint) → List DohEndpoint → List (Text × List DohEndpoint)
unfolding add_to_host extract_host
host_to_endpoints m [] = m
host_to_endpoints m (e ∷ es) = elim (extract_host e.url) [
  | none ↦ host_to_endpoints m es
  | some host ↦ host_to_endpoints (add_to_host host e m) es
]

-- The loop of `query_host_grouped`: the endpoints of one host share a connection, and the first
-- error ends the loop. The flag is whether the connection is returned to the pool.
unfoldable pub query_endpoints :
    HostAnswer → List (DohEndpoint × Option (List IpAddr)) → HostAnswer × Bool
unfolding push_new
query_endpoints acc [] = (acc, true)
query_endpoints acc ((e, none) ∷ rs) = (acc, false)
query_endpoints acc ((e, some []) ∷ rs) = query_endpoints acc rs
query_endpoints acc ((e, some (ip ∷ ips)) ∷ rs) =
    query_endpoints (push_new acc.0 (ip ∷ ips), acc.1 ++ e.name ∷ []) rs

-- The loop of `resolve_with_groups`: `ask` is `query_group` for a group.
unfoldable pub ask_groups :
    (List DohEndpoint → HostAnswer) → HostAnswer → List (List DohEndpoint) → HostAnswer
unfolding push_new
ask_groups ask acc [] = acc
ask_groups ask acc ([] ∷ groups) = ask_groups ask acc groups
ask_groups ask acc ((e ∷ es) ∷ groups) =
    let answer = ask (e ∷ es) in
    let all_ips = push_new acc.0 answer.0 in
    let servers = acc.1 ++ answer.1 in
    let rest = ask_groups ask (all_ips, servers) groups in
    if not (is_empty all_ips) then (all_ips, servers) else rest

unfoldable pub resolve_with_groups :
    (List DohEndpoint → HostAnswer) → List (List DohEndpoint) → Option DohResolveResult
unfolding ask_groups
resolve_with_groups ask groups =
    let r = ask_groups ask ([], []) groups in
    if is_empty r.0 then none else some (record { ips = r.0; doh_servers = r.1 })

unfoldable pub resolve :
    (List DohEndpoint → HostAnswer)
    → List DohEndpoint
    → List (Text × Text)
    → Text
    → Option DohResolveResult
unfolding select_endpoints resolve_with_groups
resolve ask endpoints dns_mapping domain =
    resolve_with_groups ask (select_endpoints endpoints dns_mapping domain)

unfoldable pub resolve_international :
    (List DohEndpoint → HostAnswer) → List DohEndpoint → Option DohResolveResult
unfolding sort_by_priority resolve_with_groups
resolve_international ask endpoints =
    let trusted = select (λ e. e.trusted) endpoints in
    if is_empty trusted then none else resolve_with_groups ask (sort_by_priority trusted ∷ [])

-- `if let Ok(mut ips) = parse_dns_response(&body)`; a panic of the parser is passed on as none.
abbrev pub ips_of : Message.Outcome → Option (List IpAddr)
ips_of (Message.Outcome.ok ips) = some ips
ips_of Message.Outcome.too_short = some []
ips_of (Message.Outcome.dns_error rcode) = some []
ips_of Message.Outcome.panic = none

-- The addresses and the reads that are left, an error, or the end of the program by a panic.
pub data Queried : Type 0 where
  done : List IpAddr → Reads → Queried
  failed : Queried
  aborted : Queried

abbrev and_parsed : Option (Text × Reads) → (List IpAddr → Reads → Queried) → Queried
and_parsed none next = Queried.failed
and_parsed (some (body, rs)) next = elim (ips_of (parse_dns_response body)) [
  | none ↦ Queried.aborted
  | some ips ↦ next ips rs
]

-- The A and the AAAA query, one after the other on one connection.
unfoldable pub execute_queries : (Text → Bool) → Reads → Queried
unfolding send_doh_request
execute_queries is_utf8 rs = and_parsed (send_doh_request is_utf8 rs) (λ a_ips left.
    and_parsed (send_doh_request is_utf8 left) (λ b_ips rest. Queried.done (a_ips ++ b_ips) rest))

-- The preset address where there is one that parses, else what the system's resolver gives.
abbrev pub host_ips :
    (Text → Option IpAddr) → (Text → List IpAddr) → Option Text → Text → List IpAddr
host_ips parse_ip lookup_host preset_ip host = elim (Option.bind preset_ip parse_ip) [
  | some ip ↦ ip ∷ []
  | none ↦ lookup_host host
]

module _ (dec : Discrete Text) (M : MapOps dec (List IpAddr)) where
  -- A host without an address is left out.
  abbrev pub insert_ips : M.Map → Text → List IpAddr → M.Map
  insert_ips m host [] = m
  insert_ips m host (ip ∷ ips) = M.insert m host (ip ∷ ips)

  unfoldable pub preresolve_doh_hosts :
      (Text → Option IpAddr) → (Text → List IpAddr) → M.Map → List DohEndpoint → M.Map
  unfolding extract_host
  preresolve_doh_hosts parse_ip lookup_host m [] = m
  preresolve_doh_hosts parse_ip lookup_host m (e ∷ es) = elim (extract_host e.url) [
    | none ↦ preresolve_doh_hosts parse_ip lookup_host m es
    | some host ↦
        preresolve_doh_hosts parse_ip lookup_host
          (insert_ips m host (host_ips parse_ip lookup_host e.preset_ip host)) es
  ]

  abbrev pub head_of : Option (List IpAddr) → Option IpAddr
  head_of none = none
  head_of (some []) = none
  head_of (some (ip ∷ ips)) = some ip

  unfoldable pub get_doh_server_ip : M.Map → Text → Option IpAddr
  get_doh_server_ip m host = head_of (M.get m host)
