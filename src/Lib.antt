-- ===== src/Lib.antt =====
-- A verification library for hakimi-hub, a local proxy that speeds up GitHub and Steam: it
-- reads CONNECT and plain HTTP requests, classifies the host, and tunnels, intercepts, mirrors
-- or refuses the connection; it resolves hosts over DNS-over-HTTPS and keeps what it learns in
-- caches with a bounded size.
--
-- The files, the sources they model, and how state and operations correspond:
-- - Config (src/core/config.rs, src/cli/commands.rs): Config/Intercept has the interception
--   rules, Config/Sections the sections of the configuration, Config/Defaults every default
--   value and the built-in rules and endpoints, Config/Load `validate`, `load_from_file`,
--   `load_or_default` with what `run` makes of them for `start` in Load/Start, over parameters
--   for the file system and the TOML reader.
-- - Rules (src/rules/builtin.rs): domain patterns, the three lists, `classify`; Rules/Classify
--   says which hosts a pattern covers.
-- - Intercepts (src/intercepts): Pattern is `SimplePattern`, with Regex and Parse for what it
--   means; Matcher is `InterceptMatcher` with its three indexes, a `HashMap` being an
--   association list, and Matcher/Order the specification by the order of the rules; Defaults
--   runs the built-in rules; Mirrors is `MirrorHealthTracker`, and Mirrors/Recovery the life of
--   a mirror.
-- - Cache (src/cache/resource_cache.rs): Cacheable says what is kept, Files is the interface of
--   the file system (a path is a list of components), Store has the state with `new`, `get`,
--   `put` and `remove`, Cleanup `clear`, `clear_expired`, `stats`, `flush` and the eviction,
--   and Calls any sequence of them; a task that the source spawns is a value, which `run_task`
--   runs later. The other children hold what the operations do: Paths, Effect, RoundTrip,
--   Expiry, Sizes, Victims, Evict, Limit, Budget, Removal, Clear, WellFormed.
-- - Dns (src/dns): Ip is the address filter of mod.rs; of doh_client.rs, Base64 and Message are
--   the encoders and the parser, Endpoints the choice of servers, Queries the groups that are
--   asked, Exchange `send_doh_request` over a sequence of reads, and Pool the connection pool,
--   over a parameter for the connections; Prober is ip_prober.rs (Select has the variants that
--   wait for all probes), Working is working_ip_store.rs, Stream is stream_resolver.rs, and
--   Resolver is resolver.rs, with Calls for any sequence of calls.
-- - Mitm (src/mitm/sni_spoof.rs): Race is the loop of `run_sni_happy_eyeballs`, a turn of it
--   for each event that `select!` can take, and Streaming the loop of `connect_stream`
--   likewise; the channel of DoH is a sequence of events.
-- - Utils (src/utils/evictable_cache.rs): Containers has the interfaces of `DashMap` and
--   `LruCache`, which the cache takes as parameters and which lists fill (Containers/Lists);
--   Evictable has the cache, one function for an operation, and its children what the
--   operations keep, evict and expire.
-- - Proxy (src/proxy/handler.rs): Request reads request lines, Rewrite writes the requests to
--   the origin and to a mirror (Rewrite/Fields has header fields as HTTP defines them),
--   Response the responses from the cache, Decision is `handle_connect` and `resolve_upstream`,
--   Fallback the mirror branch of `perform_mitm`.
-- - Prelude: shared tests on numbers, lists, the stable sort (Sort), and Rust's string
--   operations on texts, which are lists of bytes; Str/Alike compares letters of any case one
--   by one, apart from the case folding of the program. Tests: concrete runs.
--
-- The parts meet as in the program: Decision calls Rules and Matcher, and Rewrite for the
-- request to a mirror; Fallback drives the health of the mirrors; the evictable cache, the
-- connection pool, the health tracker and the resource cache are clients of the container
-- interfaces. Resolver calls the filter, Prober and the evictable cache; Queries calls
-- Endpoints and Exchange, and Exchange the message parser.
--
-- Conventions, fuel and bounds. Numbers are natural numbers; machine integers wrap where the
-- source can reach their bound (`% 2 ^ 32`, `% 2 ^ 64`), and a subtraction that saturates is
-- one on natural numbers. Texts are bytes; case folding and white space are those of ASCII,
-- which is what host names, methods and header names are, and a text from `from_utf8_lossy` is
-- taken as it came, which holds of valid UTF-8; in `rewrite_request_for_mirror`, whose result
-- goes out to a mirror, the replacement is carried out (Prelude/Str/Utf8). The loop of
-- `parse_segment_prefix` has fuel above the length of the text and drops five bytes in a round;
-- `replace` and `decimal` have fuel above the length and above the number; the scan of a DNS
-- name has the length of the message; the loop that makes room in the connection pool has the
-- 51 attempts of the source. Time is an argument of the operations, once for each reading of
-- the clock. Operations on shared state are sequential, and locks are not poisoned.
--
-- Time, the outcomes of connections and the answers of servers are arguments of the operations,
-- in the order in which the program meets them; where tasks run at the same time, the order of
-- their completions is a list.
--
-- Not modelled: sockets, TLS, certificates, the operating system, terminal output, the tunnels
-- and the life cycle of the program. Those parts mostly call other crates and the operating
-- system.
mod Prelude
pub mod Cache
pub mod Config
pub mod Intercepts
pub mod Rules
pub mod Dns
pub mod Utils
pub mod Mitm
pub mod Proxy
mod Tests
