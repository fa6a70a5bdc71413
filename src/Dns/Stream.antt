-- ===== src/Dns/Stream.antt =====
-- src/dns/stream_resolver.rs: each DoH server is asked by a task of its own, which hands the
-- addresses on through a channel. `query` is what the DoH client answers to an attempt, none for
-- an error; `takes` is whether the channel takes the n-th address of a task, and no longer does
-- once the receiver is gone. A query that never answers, whose reads have no timeout, and a channel
-- that makes a task wait have no value here.
use hakimi_hub.Prelude.{
  ltb, leb, ◌==◌, if◌then◌else◌, ltb→lt, lt→ltb, leb→le, le→leb, ==_iff, ==_refl, Bool-cases,
  Option-cases, &&-elim, &&-intro, ||-elim, is_some, present, length, get_elem?, take, drop,
  is_empty, any, all, select, All, length-append, take-append-drop, length-take, length-drop,
  take-length_append, drop-length_append, All-append, ℕ, zero, suc, ◌+◌, ◌-◌, ◌*◌, ◌/◌, ◌%◌, ◌^◌,
  ◌≤◌, ◌<◌, ◌≡◌, refl, sym, ap, ◌∙◌, ◌≢◌, ◌↔◌, ◌⊎◌, inl, inr, Bool, true, false, not, ◌&&◌, ◌||◌,
  Option, none, some, List, [], ◌∷◌, ◌++◌, map, arith,
}
use hakimi_hub.Prelude.Str.{Text, codes}
use hakimi_hub.Prelude.Str
use mathlib.Core.Option
use mathlib.Core.List
use hakimi_hub.Config.Sections.{DohEndpoint}
use hakimi_hub.Dns.Ip.{IpAddr}
pub mod Attempts

pub record StreamResolveResult : Type 0 where
  pub ip : IpAddr
  pub source : Text

abbrev pub doh_max_retries : ℕ
doh_max_retries = 3

unfoldable pub extract_host : Text → Option Text
unfolding Str.strip_prefix Str.before
extract_host url = elim (Str.strip_prefix url (codes "https://")) [
  | some rest ↦ some (Str.before 58 (Str.before 47 rest))
  | none ↦
      Option.map (λ rest. Str.before 58 (Str.before 47 rest))
        (Str.strip_prefix url (codes "http://"))
]

abbrev pub is_v4 : IpAddr → Bool
is_v4 (IpAddr.v4 a b c d) = true
is_v4 (IpAddr.v6 a b c d e f g h) = false

-- The loop over the addresses of an answer, left at the first one that the channel does not take.
unfoldable pub send_all : (ℕ → Bool) → ℕ → Text → List IpAddr → List StreamResolveResult
send_all takes n host [] = []
send_all takes n host (ip ∷ ips) =
    let taken = send_all takes (suc n) host ips in
    let skipped = send_all takes n host ips in
    if is_v4 ip
    then (if takes n then record { ip = ip; source = host } ∷ taken else [])
    else skipped

-- What a task did: what it sent, how often it asked, and how often it slept.
pub record Attempted : Type 0 where
  pub sent : List StreamResolveResult
  pub queries : ℕ
  pub sleeps : ℕ

-- An attempt without an address: the sleep, but for the last attempt, and the rest.
abbrev pub again : ℕ → Attempted → Attempted
again attempt rest = record {
  sent = rest.sent;
  queries = suc rest.queries;
  sleeps = if ltb attempt doh_max_retries then suc rest.sleeps else rest.sleeps;
}

-- The match on the answer to an attempt.
unfoldable pub after_answer : (ℕ → Bool) → Text → ℕ → Attempted → Option (List IpAddr) → Attempted
unfolding send_all
after_answer takes host attempt rest none = again attempt rest
after_answer takes host attempt rest (some []) = again attempt rest
after_answer takes host attempt rest (some (ip ∷ ips)) = record {
  sent = send_all takes 0 host (ip ∷ ips);
  queries = 1;
  sleeps = 0;
}

-- The loop over the attempts; `left` of them are not made when `attempt` begins.
unfoldable pub attempts_from : (ℕ → Option (List IpAddr)) → (ℕ → Bool) → Text → ℕ → ℕ → Attempted
unfolding after_answer
attempts_from query takes host attempt zero = record { sent = []; queries = 0; sleeps = 0 }
attempts_from query takes host attempt (suc left) =
    after_answer takes host attempt (attempts_from query takes host (suc attempt) left)
      (query attempt)

-- The task of one server: the attempts 1 to `DOH_MAX_RETRIES`.
unfoldable pub host_task : (ℕ → Option (List IpAddr)) → (ℕ → Bool) → Text → Attempted
unfolding attempts_from
host_task query takes host = attempts_from query takes host 1 doh_max_retries

-- The servers that get a task: those whose URL names a host.
unfoldable pub task_hosts : List DohEndpoint → List Text
unfolding extract_host
task_hosts [] = []
task_hosts (e ∷ es) =
    let rest = task_hosts es in elim (extract_host e.url) [ none ↦ rest | some host ↦ host ∷ rest ]

-- What each task of `resolve_stream` sends; the channel takes what the tasks send in any order.
unfoldable pub resolve_stream :
    (Text → ℕ → Option (List IpAddr))
    → (Text → ℕ → Bool)
    → List DohEndpoint
    → List (List StreamResolveResult)
unfolding host_task task_hosts
resolve_stream query takes endpoints =
    map (λ host. (host_task (query host) (takes host) host).sent) (task_hosts endpoints)
