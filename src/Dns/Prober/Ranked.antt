-- ===== src/Dns/Prober/Ranked.antt =====
-- src/dns/ip_prober.rs: the ranked list of `select_ranked_ips`.
use hakimi_hub.Prelude.{
  ltb, leb, if◌then◌else◌, Bool-cases, length, is_empty, any, ℕ, ◌+◌, ◌≡◌, refl, ap, ◌∙◌, inl, inr,
  true, false, not, ◌&&◌, List, [], ◌∷◌, ◌++◌, map,
}
use hakimi_hub.Prelude.Str.{Text}
use mathlib.Core.Path.{subst}
use mathlib.Core.List.{Perm}
use hakimi_hub.Prelude.Sort.{
  Sorted, sort_by_key, sort-Sorted, sort-Perm, length-sort, insert_by_key,
}
use hakimi_hub.Utils.Containers.{MapOps, LruOps}
use hakimi_hub.Utils.Evictable.{Entry}
use hakimi_hub.Dns.Ip.{IpAddr}
use hakimi_hub.Dns.Prober.{
  IpProber, BestIpValue, Completion, Clock, collect, gather, ips_to_probe, should_probe_ipv6,
  select_ranked_ips,
}
use hakimi_hub.Dns.Prober.Ranking.{reaches, results_of, collect-all, collect-Split, gather-collect}

-- The results at hand when the waiting ends are those of the probes that completed first, and
-- nothing reachable is left out unless there are three results: the second loop never runs.
pub gather_prefix :
    (t started total : ℕ) (es : List Completion)
    → (left : List Completion) × (gather t started total es ++ results_of t left ≡ results_of t es)
      × ((ltb (length (gather t started total es)) 3 && not (is_empty left)) ≡ false)
gather_prefix t started total es =
    let r = collect-all (ltb 3 total) (started + 200000000) t es [] in
    let g = gather-collect t started total es in
    let left = (collect (ltb 3 total) (started + 200000000) t [] es).1 in
    (
      left,
      ap (λ l. l ++ results_of t left) g ∙ r.0,
      ap (λ l. ltb (length l) 3 && not (is_empty left)) g ∙ r.1,
    )

-- The completions fall into those whose results were gathered and those that were left, and none
-- is left unless there are three results.
gather_seen :
    (t started total : ℕ) (es : List Completion)
    → (seen : List Completion) × (left : List Completion) × (es ≡ seen ++ left)
      × (gather t started total es ≡ results_of t seen)
      × ((ltb (length (gather t started total es)) 3 && not (is_empty left)) ≡ false)
gather_seen t started total es =
    let fast = ltb 3 total in
    let r = collect-all fast (started + 200000000) t es [] in
    let g = gather-collect t started total es in
    let left = (collect fast (started + 200000000) t [] es).1 in
    let (seen, p, q) = collect-Split fast (started + 200000000) t es [] in
    (seen, left, p, g ∙ q, ap (λ l. ltb (length l) 3 && not (is_empty left)) g ∙ r.1)

results_of-any :
    (t : ℕ) (es : List Completion) → is_empty (results_of t es) ≡ not (any (reaches t) es)
results_of-any t [] = refl
results_of-any t (e ∷ es) = elim (Bool-cases (reaches t e)) [
  | inl h ↦ rw h refl
  | inr h ↦ rw h (results_of-any t es)
]

prefix_empty :
    (t : ℕ) (xs zs : List (IpAddr × ℕ)) (left : List Completion)
    → xs ++ results_of t left ≡ zs
    → (ltb (length xs) 3 && not (is_empty left)) ≡ false
    → is_empty xs ≡ is_empty zs
prefix_empty t [] zs [] e h = ap is_empty e
prefix_empty t [] zs (l ∷ left) e h = absurd (cc h)
prefix_empty t (x ∷ xs) zs left e h = ap is_empty e

gather_empty :
    (t started total : ℕ) (es : List Completion)
    → is_empty (gather t started total es) ≡ not (any (reaches t) es)
gather_empty t started total es =
    let g = gather_prefix t started total es in
    prefix_empty t (gather t started total es) (results_of t es) g.0 g.1 g.2 ∙ results_of-any t es

insert-empty :
    {A : Type 0} (key : A → ℕ) (x : A) (ys : List A) → is_empty (insert_by_key key x ys) ≡ false
unfolding insert_by_key
insert-empty key x [] = refl
insert-empty key x (y ∷ ys) =
    elim (leb (key x) (key y))
      as (λ b. is_empty (if b then x ∷ (y ∷ ys) else y ∷ insert_by_key key x ys) ≡ false) [
        | true ↦ refl
        | false ↦ refl
      ]

sort-empty : {A : Type 0} (key : A → ℕ) (xs : List A) → is_empty (sort_by_key key xs) ≡ is_empty xs
unfolding sort_by_key
sort-empty key [] = refl
sort-empty key (x ∷ xs) = insert-empty key x (sort_by_key key xs)

module _ (dec : Discrete Text) (M : MapOps dec (Entry BestIpValue)) (L : LruOps dec) where
  -- The results of the probes that a call starts.
  abbrev pub gathered : IpProber dec M L → Clock → List IpAddr → List Completion → List (IpAddr × ℕ)
  gathered p clock ips es =
      gather p.probe_timeout clock.started
        (length (ips_to_probe (should_probe_ipv6 dec M L p clock.asked) ips)) es

  abbrev ranked : IpProber dec M L → Clock → List IpAddr → List Completion → List (IpAddr × ℕ)
  ranked p clock ips es = sort_by_key (λ r. r.1) (gathered p clock ips es)

  split_answer :
      {A : Type 0} {B : Type 0} (l : List A) (q : B) (f : A → B)
      → (elim l as (λ x. List A × B) [ [] ↦ ([], q) | x ∷ xs ↦ (x ∷ xs, f x) ]).0 ≡ l
  split_answer [] q f = refl
  split_answer (x ∷ xs) q f = refl

  select_ranked_ips-ranked :
      (p : IpProber dec M L) (clock : Clock) (domain : Text) (ips : List IpAddr)
      (es : List Completion)
      → is_empty ips ≡ false
      → (select_ranked_ips dec M L p clock domain ips es).0 ≡ map (λ r. r.0) (ranked p clock ips es)
  unfolding select_ranked_ips
  select_ranked_ips-ranked p clock domain ips es h =
      rw h (split_answer (map (λ r. r.0) (ranked p clock ips es)) _ _)

  -- The list that is returned ranks the probes that completed first and got a connection within the
  -- timeout, each of them once and the one with the shortest time first. The others are left only
  -- if it has three addresses.
  pub select_ranked_ips-Sorted :
      (p : IpProber dec M L) (clock : Clock) (domain : Text) (ips : List IpAddr)
      (es : List Completion)
      → is_empty ips ≡ false
      → (rs : List (IpAddr × ℕ)) × (seen : List Completion) × (left : List Completion)
        × ((select_ranked_ips dec M L p clock domain ips es).0 ≡ map (λ r. r.0) rs)
        × Sorted (λ r. r.1) rs
        × (es ≡ seen ++ left)
        × Perm rs (results_of p.probe_timeout seen)
        × ((ltb (length rs) 3 && not (is_empty left)) ≡ false)
  select_ranked_ips-Sorted p clock domain ips es h =
      let total = length (ips_to_probe (should_probe_ipv6 dec M L p clock.asked) ips) in
      let g = gather_seen p.probe_timeout clock.started total es in
      (
        ranked p clock ips es,
        g.0,
        g.1,
        select_ranked_ips-ranked p clock domain ips es h,
        sort-Sorted (λ r. r.1) (gathered p clock ips es),
        g.2,
        subst (λ l. Perm (ranked p clock ips es) l) g.3
            (sort-Perm (λ r. r.1) (gathered p clock ips es)),
        ap (λ n. ltb n 3 && not (is_empty g.1)) (length-sort (λ r. r.1) (gathered p clock ips es))
            ∙ g.4,
      )

  map_empty :
      {A : Type 0} {B : Type 0} (f : A → B) (xs : List A) → is_empty (map f xs) ≡ is_empty xs
  map_empty f [] = refl
  map_empty f (x ∷ xs) = refl

  -- An address is returned exactly if some probe gets a connection within the timeout, however late
  -- it completes and whatever completes before it.
  pub select_ranked_ips-some :
      (p : IpProber dec M L) (clock : Clock) (domain : Text) (ips : List IpAddr)
      (es : List Completion)
      → is_empty ips ≡ false
      → is_empty (select_ranked_ips dec M L p clock domain ips es).0
        ≡ not (any (reaches p.probe_timeout) es)
  select_ranked_ips-some p clock domain ips es h =
      ap is_empty (select_ranked_ips-ranked p clock domain ips es h)
      ∙ map_empty (λ r. r.0) (ranked p clock ips es)
      ∙ sort-empty (λ r. r.1) (gathered p clock ips es)
      ∙ gather_empty p.probe_timeout clock.started _ es
