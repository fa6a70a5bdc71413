-- ===== src/Dns/Stream/Attempts.antt =====
-- src/dns/stream_resolver.rs: how often a server is asked, and what is handed on.
use hakimi_hub.Prelude.{
  lt→ltb, ◌+◌, ◌<◌, select, ℕ, zero, suc, ◌≤◌, ◌≡◌, refl, ap, Bool, true, Option, none, some, List,
  [], ◌∷◌, map, arith,
}
use hakimi_hub.Prelude.Str.{Text}
use hakimi_hub.Dns.Ip.{IpAddr}
use hakimi_hub.Dns.Stream.{
  StreamResolveResult, Attempted, is_v4, send_all, after_answer, attempts_from, host_task,
}

-- The first answer with an address among the attempts from one on.
abbrev pub or_later : List IpAddr → Option (List IpAddr) → List IpAddr
or_later later none = later
or_later later (some []) = later
or_later later (some (ip ∷ ips)) = ip ∷ ips

unfoldable pub first_answer : (ℕ → Option (List IpAddr)) → ℕ → ℕ → List IpAddr
first_answer query attempt zero = []
first_answer query attempt (suc left) =
    or_later (first_answer query (suc attempt) left) (query attempt)

abbrev pub of_host : Text → IpAddr → StreamResolveResult
of_host host ip = record { ip = ip; source = host }

-- A channel that stays open takes the IPv4 addresses in their order.
send_all-open :
    (n : ℕ) (host : Text) (ips : List IpAddr)
    → send_all (λ i. true) n host ips ≡ map (of_host host) (select is_v4 ips)
unfolding send_all
send_all-open n host [] = refl
send_all-open n host (IpAddr.v4 a b c d ∷ ips) =
    ap (λ l. of_host host (IpAddr.v4 a b c d) ∷ l) (send_all-open (suc n) host ips)
send_all-open n host (IpAddr.v6 a b c d e f g h ∷ ips) = send_all-open n host ips

answer-sent :
    (host : Text) (attempt : ℕ) (rest : Attempted) (later : List IpAddr) (o : Option (List IpAddr))
    → rest.sent ≡ map (of_host host) (select is_v4 later)
    → (after_answer (λ i. true) host attempt rest o).sent
      ≡ map (of_host host) (select is_v4 (or_later later o))
unfolding after_answer
answer-sent host attempt rest later none e = e
answer-sent host attempt rest later (some []) e = e
answer-sent host attempt rest later (some (ip ∷ ips)) e = send_all-open 0 host (ip ∷ ips)

attempts_from-first :
    (query : ℕ → Option (List IpAddr)) (host : Text) (attempt left : ℕ)
    → (attempts_from query (λ i. true) host attempt left).sent
      ≡ map (of_host host) (select is_v4 (first_answer query attempt left))
unfolding attempts_from first_answer
attempts_from-first query host attempt zero = refl
attempts_from-first query host attempt (suc left) =
    answer-sent host attempt _ _ (query attempt) (attempts_from-first query host (suc attempt) left)

-- What a task did stays in bounds: it slept less often than it asked.
abbrev Within : ℕ → Attempted → Type 0
Within left a = (a.queries ≤ left) × (a.sleeps ≤ a.queries)

answer-Within :
    (takes : ℕ → Bool) (host : Text) (attempt left : ℕ) (rest : Attempted)
    (o : Option (List IpAddr))
    → Within left rest
    → Within (suc left) (after_answer takes host attempt rest o)
unfolding after_answer
answer-Within takes host attempt left rest none (h, g) = (omega (arith, h), ground (arith, g))
answer-Within takes host attempt left rest (some []) (h, g) = (omega (arith, h), ground (arith, g))
answer-Within takes host attempt left rest (some (ip ∷ ips)) h = (omega arith, omega arith)

attempts_from-Within :
    (query : ℕ → Option (List IpAddr)) (takes : ℕ → Bool) (host : Text) (attempt left : ℕ)
    → Within left (attempts_from query takes host attempt left)
unfolding attempts_from
attempts_from-Within query takes host attempt zero = (omega arith, omega arith)
attempts_from-Within query takes host attempt (suc left) =
    answer-Within takes host attempt left _ (query attempt)
      (attempts_from-Within query takes host (suc attempt) left)

-- A task makes at most three queries, and sleeps less often than it asks.
pub host_task-Within :
    (query : ℕ → Option (List IpAddr)) (takes : ℕ → Bool) (host : Text)
    → Within 3 (host_task query takes host)
unfolding host_task
host_task-Within query takes host = attempts_from-Within query takes host 1 3

-- While the receiver listens, what a task sends is the IPv4 addresses of the first answer with an
-- address among its three attempts, in the order of that answer.
pub host_task-sent :
    (query : ℕ → Option (List IpAddr)) (host : Text)
    → (host_task query (λ i. true) host).sent
      ≡ map (of_host host) (select is_v4 (first_answer query 1 3))
unfolding host_task
host_task-sent query host = attempts_from-first query host 1 3

-- The answer is an error or an empty list.
abbrev pub Fruitless : Option (List IpAddr) → Type 0
Fruitless none = Unit
Fruitless (some []) = Unit
Fruitless (some (ip ∷ ips)) = ⊥

abbrev answered : Text → ℕ → List IpAddr → Attempted
answered host k ips = record {
  sent = map (of_host host) (select is_v4 ips);
  queries = suc k;
  sleeps = k;
}

after-Fruitless :
    (host : Text) (attempt k : ℕ) (o : Option (List IpAddr)) (ips : List IpAddr) (rest : Attempted)
    → attempt < 3
    → Fruitless o
    → rest ≡ answered host k ips
    → after_answer (λ i. true) host attempt rest o ≡ answered host (suc k) ips
unfolding after_answer
after-Fruitless host attempt k none ips rest b f e = rw (lt→ltb _ _ b, e) refl
after-Fruitless host attempt k (some []) ips rest b f e = rw (lt→ltb _ _ b, e) refl
after-Fruitless host attempt k (some (ip ∷ others)) ips rest b f e = absurd f

abbrev at_once : List StreamResolveResult → Attempted
at_once l = record { sent = l; queries = 1; sleeps = 0 }

after-answer :
    (host : Text) (attempt : ℕ) (ip : IpAddr) (ips : List IpAddr) (rest : Attempted)
    → after_answer (λ i. true) host attempt rest (some (ip ∷ ips)) ≡ answered host 0 (ip ∷ ips)
unfolding after_answer
after-answer host attempt ip ips rest = ap at_once (send_all-open 0 host (ip ∷ ips))

attempts_from-answer :
    (query : ℕ → Option (List IpAddr)) (host : Text) (k attempt left : ℕ) (ip : IpAddr)
    (ips : List IpAddr)
    → k < left
    → attempt + left ≡ 4
    → ((i : ℕ) → attempt ≤ i → i < attempt + k → Fruitless (query i))
    → query (attempt + k) ≡ some (ip ∷ ips)
    → attempts_from query (λ i. true) host attempt left ≡ answered host k (ip ∷ ips)
unfolding attempts_from
attempts_from-answer query host k attempt zero ip ips b s f e = absurd (omega (arith, b))
attempts_from-answer query host zero attempt (suc left) ip ips b s f e =
    let n : attempt + 0 ≡ attempt = omega arith in
    let g : query attempt ≡ some (ip ∷ ips) = rw n at e in
    rw g
      (after-answer host attempt ip ips (attempts_from query (λ i. true) host (suc attempt) left))
attempts_from-answer query host (suc k) attempt (suc left) ip ips b s f e =
    let n : attempt + suc k ≡ suc attempt + k = omega arith in
    let g : query (suc attempt + k) ≡ some (ip ∷ ips) = rw n at e in
    after-Fruitless host attempt k (query attempt) (ip ∷ ips) _ (omega (arith, b, s))
      (f attempt (omega arith) (omega arith))
      (attempts_from-answer query host k (suc attempt) left ip ips (omega (arith, b))
        (omega (arith, s)) (λ i l m. f i (omega (arith, l)) (omega (arith, m))) g)

-- If the first answers of a server, fewer than three, are errors or empty, and the next one names
-- addresses, its task asks no more: it sends on the IPv4 addresses of that answer in their order,
-- while the receiver listens, and has slept once after each answer without an address.
pub host_task-answer :
    (query : ℕ → Option (List IpAddr)) (host : Text) (k : ℕ) (ip : IpAddr) (ips : List IpAddr)
    → k < 3
    → ((i : ℕ) → 1 ≤ i → i < 1 + k → Fruitless (query i))
    → query (1 + k) ≡ some (ip ∷ ips)
    → host_task query (λ i. true) host
      ≡ record { sent = map (of_host host) (select is_v4 (ip ∷ ips)); queries = suc k; sleeps = k }
unfolding host_task
host_task-answer query host k ip ips b f e =
    attempts_from-answer query host k 1 3 ip ips b (omega arith) f e
