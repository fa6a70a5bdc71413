-- ===== src/Tests/Naming.antt =====
-- Runs of the address filter, Base64 and the messages of DNS.
use hakimi_hub.Prelude.{some, All, ℕ, select, All, ◌≡◌, some, List, [], ◌∷◌, arith}
use hakimi_hub.Prelude.Str.{Text, codes}
use hakimi_hub.Prelude.Str
use native.Mathlib.Decide.{ℕ_discrete}
use mathlib.Core.List.{List-discrete}
use hakimi_hub.Utils.Containers.{MapOps, LruOps}
use hakimi_hub.Utils.Containers.Sync.{InSync-empty, InSync-insert}
use hakimi_hub.Utils.Containers.Lists.{list_map, list_index}
use hakimi_hub.Dns.Pool.{PoolEntry, Pool, return_connection, pool_key}
use hakimi_hub.Dns.Pool.Reuse.{Sound, return_connection-Sound, kept_or}
use hakimi_hub.Dns.Ip.{IpAddr, v4, public_only, filter_ips}
use hakimi_hub.Dns.Ip.Filter.{admits, filter_ips-any}
use hakimi_hub.Prelude.{any, if◌then◌else◌}
use hakimi_hub.Dns.Base64.{base64_encode}
use hakimi_hub.Dns.Base64.RoundTrip.{base64_decode, decode-encode}
use hakimi_hub.Dns.Message.{parse_dns_response, ok}
use hakimi_hub.Dns.Message.Name.{IsLabel}
use hakimi_hub.Dns.Message.Answers.{Answer, response, parse_dns_response-response}

abbrev ips : List IpAddr
ips = v4 8 8 8 8 ∷ v4 127 0 0 1 ∷ v4 198 18 0 7 ∷ []

filter_ips-any_example :
    filter_ips ips public_only
    ≡ (if any (admits public_only) ips then select (admits public_only) ips else ips)
filter_ips-any_example = filter_ips-any ips public_only

decode-encode_example : base64_decode (base64_encode (7 ∷ 255 ∷ [])) ≡ some (7 ∷ 255 ∷ [])
decode-encode_example = decode-encode (7 ∷ 255 ∷ []) (omega arith, (omega arith, tt))

abbrev domain : Text
domain = codes "github.com"

labels-IsLabel : All IsLabel (Str.split b'.' domain)
unfolding Str.split Str.split_cons
labels-IsLabel = ((omega arith, omega arith), ((omega arith, omega arith), tt))

abbrev answer : Answer
answer = record { address = v4 140 82 112 3; pointer = 12; t0 = 0; t1 = 0; t2 = 1; t3 = 44 }

parse_dns_response-response_example :
    parse_dns_response (response 0 1 (codes "a" ∷ codes "org" ∷ []) 1 (answer ∷ []) (5 ∷ []))
    ≡ ok (v4 140 82 112 3 ∷ [])
parse_dns_response-response_example =
    parse_dns_response-response 0 1 1 (codes "a" ∷ codes "org" ∷ []) (answer ∷ []) (5 ∷ [])
      ((omega arith, omega arith), ((omega arith, omega arith), tt)) (tt, tt)

abbrev last_name : Text
last_name = 1 ∷ 2 ∷ 3 ∷ 4 ∷ 5 ∷ 6 ∷ 7 ∷ 8 ∷ 9 ∷ 10 ∷ 11 ∷ []

abbrev text_discrete : Discrete Text
text_discrete = List-discrete ℕ_discrete

abbrev connections : MapOps text_discrete (PoolEntry ℕ)
connections = list_map text_discrete

abbrev order : LruOps text_discrete
order = list_index text_discrete

abbrev no_connections : Pool text_discrete connections order
no_connections = record { connection_pool = connections.empty; lru_index = order.empty }

no_connections-Sound : Sound text_discrete connections order no_connections
no_connections-Sound = record {
  synced = InSync-empty text_discrete connections order;
  bounded = omega (arith, connections.len-empty);
}

return_connection-Sound_example :
    Sound text_discrete connections order
      (return_connection text_discrete connections order no_connections (codes "dns.google") 7 5)
    × (connections.get
          (return_connection text_discrete connections order no_connections
            (codes "dns.google")
            7
            5).connection_pool
          (pool_key (codes "dns.google"))
        ≡ some (
            kept_or text_discrete connections order
              (connections.get no_connections.connection_pool (pool_key (codes "dns.google")))
              7
              5))
return_connection-Sound_example =
    return_connection-Sound text_discrete connections order no_connections (codes "dns.google") 7 5
      no_connections-Sound

abbrev entry : PoolEntry ℕ
entry = record { stream = 7; last_used = 5 }

abbrev one_connection : Pool text_discrete connections order
one_connection = record {
  connection_pool = connections.insert connections.empty (pool_key (codes "dns.google")) entry;
  lru_index = order.put order.empty (pool_key (codes "dns.google"));
}

one_connection-Sound : Sound text_discrete connections order one_connection
one_connection-Sound = record {
  synced =
      InSync-insert text_discrete connections order connections.empty order.empty
        (pool_key (codes "dns.google")) entry (InSync-empty text_discrete connections order);
  bounded = omega (
    arith,
    connections.len-empty,
    connections.len-insert connections.empty (pool_key (codes "dns.google")) entry,
  );
}

is_there :
    connections.get one_connection.connection_pool (pool_key (codes "dns.google")) ≡ some entry
is_there = ground (
  arith,
  connections.get-insert connections.empty (pool_key (codes "dns.google")) entry
      (pool_key (codes "dns.google")),
)
