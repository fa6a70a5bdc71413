-- ===== src/Dns/Queries/Groups.antt =====
-- src/dns/doh_client.rs: the answer of the first group that has one, each address once.
use hakimi_hub.Prelude.{
  ltb, if◌then◌else◌, Bool-cases, is_empty, ℕ, ◌≤◌, ◌≡◌, refl, sym, ap, ◌∙◌, inl, inr, Bool, true,
  false, not, Option, none, some, List, [], ◌∷◌, ◌++◌, arith,
}
use mathlib.Core.Logic.{ite}
use mathlib.Core.Path.{subst}
use hakimi_hub.Config.Sections.{DohEndpoint}
use hakimi_hub.Utils.Containers.{count}
use hakimi_hub.Utils.Containers.Sync.{count-append, count_one}
use hakimi_hub.Dns.Ip.{IpAddr}
use hakimi_hub.Dns.Ip.Equality.{ip_discrete}
use hakimi_hub.Dns.Resolver.{DohResolveResult}
use hakimi_hub.Dns.Queries.{seen, push_new, HostAnswer, ask_groups, resolve_with_groups}

-- No address stands twice.
abbrev pub Once : List IpAddr → Type 0
Once ips = (ip : IpAddr) → count ip_discrete ip ips ≤ 1

seen-count : (ip : IpAddr) (ips : List IpAddr) → seen ip ips ≡ ltb 0 (count ip_discrete ip ips)
unfolding seen count
seen-count ip [] = ground arith
seen-count ip (x ∷ ips) = ground (arith, seen-count ip ips)

if_Once :
    (b : Bool) (xs ys : List IpAddr)
    → (b ≡ true → Once xs)
    → (b ≡ false → Once ys)
    → Once (if b then xs else ys)
if_Once true xs ys h g = h refl
if_Once false xs ys h g = g refl

ite_one : {P : Type 0} (d : Dec P) → ite d 1 0 ≤ 1
ite_one (yes p) = omega arith
ite_one (no n) = omega arith

ite_none : {P : Type 0} (d : Dec P) → (¬ P) → ite {C = ℕ} d 1 0 ≡ 0
ite_none (yes p) n = absurd (n p)
ite_none (no m) n = refl

unseen : (n : ℕ) → ltb 0 n ≡ false → n ≡ 0
unseen n h = ground (arith, h)

pushed-Once :
    (x : IpAddr) (ips : List IpAddr) → seen x ips ≡ false → Once ips → Once (ips ++ x ∷ [])
pushed-Once x ips e h ip = elim (ip_discrete x ip) [
  | yes q ↦ omega (
    arith,
    count-append ip_discrete ip ips (x ∷ []),
    count_one ip_discrete ip x,
    ite_one (ip_discrete x ip),
    ap (λ y. count ip_discrete y ips) q,
    unseen (count ip_discrete x ips) (sym (seen-count x ips) ∙ e),
  )
  | no n ↦ omega (
    arith,
    count-append ip_discrete ip ips (x ∷ []),
    count_one ip_discrete ip x,
    ite_none (ip_discrete x ip) n,
    h ip,
  )
]

push_new-Once : (xs ips : List IpAddr) → Once ips → Once (push_new ips xs)
unfolding push_new
push_new-Once [] ips h = h
push_new-Once (x ∷ xs) ips h =
    push_new-Once xs (if seen x ips then ips else ips ++ x ∷ [])
      (if_Once (seen x ips) ips (ips ++ x ∷ []) (λ e. h) (λ e. pushed-Once x ips e h))

if_answer : (b : Bool) (x y : HostAnswer) → Once x.0 → Once y.0 → Once (if b then x else y).0
if_answer true x y h g = h
if_answer false x y h g = g

ask_groups-Once :
    (ask : List DohEndpoint → HostAnswer) (groups : List (List DohEndpoint)) (acc : HostAnswer)
    → Once acc.0
    → Once (ask_groups ask acc groups).0
unfolding ask_groups
ask_groups-Once ask [] acc h = h
ask_groups-Once ask ([] ∷ groups) acc h = ask_groups-Once ask groups acc h
ask_groups-Once ask ((e ∷ es) ∷ groups) acc h =
    let answer = ask (e ∷ es) in
    let p = push_new-Once answer.0 acc.0 h in
    if_answer (not (is_empty (push_new acc.0 answer.0)))
      (push_new acc.0 answer.0, acc.1 ++ answer.1) _ p
      (ask_groups-Once ask groups (push_new acc.0 answer.0, acc.1 ++ answer.1) p)

-- An answer of the client is never empty and names no address twice, whatever the servers answer.
pub resolve_with_groups-Once :
    (ask : List DohEndpoint → HostAnswer) (groups : List (List DohEndpoint)) (r : DohResolveResult)
    → resolve_with_groups ask groups ≡ some r
    → (is_empty r.ips ≡ false) × Once r.ips
resolve_with_groups-Once ask groups r e =
    let a = ask_groups ask ([], []) groups in
    elim (Bool-cases (is_empty a.0)) [
      | inl h ↦ absurd (cc (sym (nothing ask groups h) ∙ e))
      | inr h ↦
          let q = ap ips_or_nil (sym (something ask groups h) ∙ e) in
          (ap is_empty (sym q) ∙ h, subst Once q (ask_groups-Once ask groups ([], []) none_twice))
    ]
  where
    ips_or_nil : Option DohResolveResult → List IpAddr
    ips_or_nil none = []
    ips_or_nil (some r) = r.ips

    none_twice : Once []
    none_twice ip = unfold count in omega arith

    nothing :
        (ask : List DohEndpoint → HostAnswer) (groups : List (List DohEndpoint))
        → is_empty (ask_groups ask ([], []) groups).0 ≡ true
        → resolve_with_groups ask groups ≡ none
    nothing ask groups h = unfold resolve_with_groups in rw h refl

    something :
        (ask : List DohEndpoint → HostAnswer) (groups : List (List DohEndpoint))
        → is_empty (ask_groups ask ([], []) groups).0 ≡ false
        → resolve_with_groups ask groups
          ≡ some (record {
            ips = (ask_groups ask ([], []) groups).0;
            doh_servers = (ask_groups ask ([], []) groups).1;
          })
    something ask groups h = unfold resolve_with_groups in rw h refl

-- The groups behind the first one with an answer are not asked.
pub resolve_with_groups-first :
    (ask : List DohEndpoint → HostAnswer) (e : DohEndpoint) (es : List DohEndpoint)
    (later : List (List DohEndpoint))
    → is_empty (push_new [] (ask (e ∷ es)).0) ≡ false
    → resolve_with_groups ask ((e ∷ es) ∷ later) ≡ resolve_with_groups ask ((e ∷ es) ∷ [])
unfolding resolve_with_groups
resolve_with_groups-first ask e es later h = ap result (first later h ∙ sym (first [] h))
  where
    result : HostAnswer → Option DohResolveResult
    result r = if is_empty r.0 then none else some (record { ips = r.0; doh_servers = r.1 })

    first :
        (later : List (List DohEndpoint))
        → is_empty (push_new [] (ask (e ∷ es)).0) ≡ false
        → ask_groups ask ([], []) ((e ∷ es) ∷ later)
          ≡ (push_new [] (ask (e ∷ es)).0, [] ++ (ask (e ∷ es)).1)
    first later h = unfold ask_groups in rw h refl
