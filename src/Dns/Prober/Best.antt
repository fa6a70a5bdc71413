-- ===== src/Dns/Prober/Best.antt =====
-- src/dns/ip_prober.rs: which address is picked.
use hakimi_hub.Prelude.{
  leb, if◌then◌else◌, leb→le, Bool-cases, Option-cases, get_elem?, is_empty, select, All, ℕ, suc,
  ◌≤◌, ◌≡◌, refl, sym, ap, ◌∙◌, inl, inr, true, false, none, some, List, [], ◌∷◌, map, arith,
}
use mathlib.Core.Path.{subst}
use hakimi_hub.Prelude.Sort.{All-map}
use hakimi_hub.Dns.Prober.{IpProbeResult, IpSelectResult}
use hakimi_hub.Dns.Prober.Select.{pick_best, min_by_latency}

-- None of the results is faster.
abbrev pub IsFastest : IpProbeResult → List IpProbeResult → Type 0
IsFastest s rs = All (λ r. s.latency ≤ r.latency) rs

abbrev pub StandsIn : IpProbeResult → List IpProbeResult → Type 0
StandsIn s rs = (i : ℕ) × (get_elem? rs i ≡ some s)

abbrev faster : IpProbeResult → IpProbeResult → IpProbeResult
faster r s = if leb r.latency s.latency then r else s

min_by_latency_nil : min_by_latency [] ≡ none
unfolding min_by_latency
min_by_latency_nil = refl

min_by_latency_last :
    (r : IpProbeResult) (rs : List IpProbeResult)
    → min_by_latency rs ≡ none
    → min_by_latency (r ∷ rs) ≡ some r
unfolding min_by_latency
min_by_latency_last r rs e = rw e refl

min_by_latency_cons :
    (r s : IpProbeResult) (rs : List IpProbeResult)
    → min_by_latency rs ≡ some s
    → min_by_latency (r ∷ rs) ≡ some (faster r s)
unfolding min_by_latency
min_by_latency_cons r s rs e = rw e refl

empty_of_none : (rs : List IpProbeResult) → min_by_latency rs ≡ none → rs ≡ []
empty_of_none [] e = refl
empty_of_none (r ∷ rs) e = elim (Option-cases (min_by_latency rs)) [
  | inl f ↦ absurd (cc (sym (min_by_latency_last r rs f) ∙ e))
  | inr (s, f) ↦ absurd (cc (sym (min_by_latency_cons r s rs f) ∙ e))
]

slower_le : (r s : IpProbeResult) → leb r.latency s.latency ≡ false → s.latency ≤ r.latency
slower_le r s e = ground (arith, e)

faster-first : (r s : IpProbeResult) → leb r.latency s.latency ≡ true → faster r s ≡ r
faster-first r s e = rw e refl

faster-second : (r s : IpProbeResult) → leb r.latency s.latency ≡ false → faster r s ≡ s
faster-second r s e = rw e refl

min_by_latency_lem :
    (rs : List IpProbeResult) (s : IpProbeResult)
    → min_by_latency rs ≡ some s
    → StandsIn s rs × IsFastest s rs
min_by_latency_lem [] s e = absurd (cc (sym min_by_latency_nil ∙ e))
min_by_latency_lem (r ∷ rs) s e = elim (Option-cases (min_by_latency rs)) [
  | inl f ↦
      let g : r ≡ s = cc (sym (min_by_latency_last r rs f) ∙ e) in
      subst (λ q. StandsIn q (r ∷ rs) × IsFastest q (r ∷ rs)) g
        ((0, refl), (self r, subst (λ l. IsFastest r l) (sym (empty_of_none rs f)) tt))
  | inr (m, f) ↦
      let g : faster r m ≡ s = cc (sym (min_by_latency_cons r m rs f) ∙ e) in
      let h = min_by_latency_lem rs m f in
      elim (Bool-cases (leb r.latency m.latency)) [
        | inl l ↦
            subst (λ q. StandsIn q (r ∷ rs) × IsFastest q (r ∷ rs)) (sym (faster-first r m l) ∙ g)
              ((0, refl), (self r, All-map (λ q k. omega (arith, leb→le _ _ l, k)) rs h.1))
        | inr l ↦
            subst (λ q. StandsIn q (r ∷ rs) × IsFastest q (r ∷ rs)) (sym (faster-second r m l) ∙ g)
              ((suc h.0.0, h.0.1), (slower_le r m l, h.1))
      ]
]
  where
    self : (r : IpProbeResult) → r.latency ≤ r.latency
    self r = omega arith

abbrev pub reachable_of : List IpProbeResult → List IpProbeResult
reachable_of rs = select (λ r. r.reachable) rs

pick_best-some :
    (rs : List IpProbeResult) (s : IpProbeResult)
    → is_empty (reachable_of rs) ≡ false
    → min_by_latency (reachable_of rs) ≡ some s
    → pick_best rs ≡ some (IpSelectResult.best_ip s.ip)
unfolding pick_best
pick_best-some rs s e f = rw e (rw f refl)

-- If a probe reached its address, the address picked is one of those that were reached, and none
-- of them was reached in less time.
pub pick_best-IsFastest :
    (rs : List IpProbeResult)
    → is_empty (reachable_of rs) ≡ false
    → (s : IpProbeResult) × (pick_best rs ≡ some (IpSelectResult.best_ip s.ip))
      × StandsIn s (reachable_of rs)
      × IsFastest s (reachable_of rs)
pick_best-IsFastest rs e = elim (Option-cases (min_by_latency (reachable_of rs))) [
  | inl f ↦ absurd (cc (sym (ap is_empty (empty_of_none (reachable_of rs) f)) ∙ e))
  | inr (s, f) ↦
      let h = min_by_latency_lem (reachable_of rs) s f in (s, pick_best-some rs s e f, h.0, h.1)
]

-- If no probe reached its address, all that were probed are handed on, and none is picked.
pub pick_best-unreachable :
    (rs : List IpProbeResult)
    → is_empty (reachable_of rs) ≡ true
    → pick_best rs ≡ some (IpSelectResult.all_unreachable (map (λ r. r.ip) rs))
unfolding pick_best
pick_best-unreachable rs e = rw e refl
