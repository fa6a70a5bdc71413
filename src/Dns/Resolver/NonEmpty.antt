-- ===== src/Dns/Resolver/NonEmpty.antt =====
-- src/dns/resolver.rs: no list in the cache is empty, so that `ips[0]` is never out of range.
use hakimi_hub.Prelude.{
  if◌then◌else◌, Option-cases, is_empty, ◌≡◌, refl, sym, ap, inl, inr, Bool, true, false, not,
  Option, none, some, List, [], ◌∷◌,
}
use hakimi_hub.Prelude.Str.{Text}
use mathlib.Core.Path.{subst}
use hakimi_hub.Utils.Containers.{MapOps, LruOps}
use hakimi_hub.Utils.Evictable.{Entry}
use hakimi_hub.Utils.Evictable.Values.{AllIn, AllIn-store, get-Holds}
use hakimi_hub.Dns.Ip.{IpAddr}
use hakimi_hub.Dns.Prober.{BestIpValue, Completion}
use hakimi_hub.Dns.Resolver.{
  CacheValue, DohResolveResult, Outcome, first, Times, DnsResolver, keep, after_lookup, looked_up,
  rank, resolve_fresh, resolve,
}

abbrev pub has_ips : CacheValue → Bool
has_ips v = not (is_empty v.ips)

abbrev pub panics : Outcome → Bool
panics (Outcome.address ip) = false
panics Outcome.error = false
panics Outcome.panic = true

module _ (dec : Discrete Text) (M : MapOps dec (Entry CacheValue))
    (B : MapOps dec (Entry BestIpValue)) (L : LruOps dec) where
  abbrev pub Resolver : Type 0
  Resolver = DnsResolver dec M B L

  -- Each domain in the cache has an address.
  abbrev pub Full : Resolver → Type 0
  Full r = AllIn dec M L has_ips r.cache.inner

  pub Full-keep :
      (r : Resolver) (domain : Text) (ips : List IpAddr) (t : Times)
      → is_empty ips ≡ false
      → Full r
      → Full (keep dec M B L r domain ips t)
  Full-keep r domain ips t e h =
      AllIn-store dec M L has_ips r.cache domain (record { ips = ips }) t.stored t.stored_ns
        (ap not e) h

  pub Full-lookup :
      (r : Resolver) (domain : Text) (t : Times) → Full r → Full (after_lookup dec M B L r domain t)
  unfolding after_lookup
  Full-lookup r domain t h = (get-Holds dec M L has_ips r.cache domain t.looked_up t.elapsed_at h).1

  pub found_ips :
      (r : Resolver) (domain : Text) (t : Times) (v : CacheValue)
      → Full r
      → looked_up dec M B L r domain t ≡ some v
      → not (is_empty v.ips) ≡ true
  unfolding looked_up
  found_ips r domain t v h e =
      (get-Holds dec M L has_ips r.cache domain t.looked_up t.elapsed_at h).0 v e

  pub Full-rank :
      (r : Resolver) (domain : Text) (t : Times) (ips : List IpAddr) (es : List Completion)
      → Full r
      → Full (rank dec M B L r domain t ips es).1
  unfolding rank
  Full-rank r domain t ips es h = h

  first-no_panic : (ips : List IpAddr) → not (is_empty ips) ≡ true → panics (first ips) ≡ false
  first-no_panic [] e = absurd (cc e)
  first-no_panic (ip ∷ ips) e = refl

  -- An outcome that is no panic, and a cache that is full.
  abbrev pub Safe : Outcome × Resolver → Type 0
  Safe r = (panics r.0 ≡ false) × Full r.1

  if_Safe :
      (b : Bool) (x y : Outcome × Resolver)
      → Safe x
      → (b ≡ false → Safe y)
      → Safe (if b then x else y)
  if_Safe true x y h g = h
  if_Safe false x y h g = g refl

  resolve_ranked :
      (ranked ips : List IpAddr) (r : Resolver) (domain : Text) (t : Times)
      → is_empty ips ≡ false
      → Full r
      → Safe (elim ranked as (λ x. Outcome × Resolver) [
        | [] ↦ (first ips, keep dec M B L r domain ips t)
        | best ∷ others ↦ (Outcome.address best, keep dec M B L r domain (best ∷ others) t)
      ])
  resolve_ranked [] ips r domain t e h =
      (first-no_panic ips (ap not e), Full-keep r domain ips t e h)
  resolve_ranked (best ∷ others) ips r domain t e h =
      (refl, Full-keep r domain (best ∷ others) t refl h)

  resolve_fresh-Safe :
      (r : Resolver) (domain : Text) (t : Times) (doh : Option DohResolveResult)
      (es : List Completion)
      → Full r
      → Safe (resolve_fresh dec M B L r domain t doh es)
  unfolding resolve_fresh
  resolve_fresh-Safe r domain t none es h = (refl, h)
  resolve_fresh-Safe r domain t (some a) es h =
      if_Safe (is_empty a.ips) (Outcome.error, r) _ (refl, h)
        (λ e.
          resolve_ranked (rank dec M B L r domain t a.ips es).0 a.ips _ domain t e
            (Full-rank r domain t a.ips es h))

  resolve-found :
      (r : Resolver) (domain : Text) (t : Times) (doh : Option DohResolveResult)
      (es : List Completion) (v : CacheValue)
      → looked_up dec M B L r domain t ≡ some v
      → resolve dec M B L r domain t doh es ≡ (first v.ips, after_lookup dec M B L r domain t)
  unfolding resolve
  resolve-found r domain t doh es v e = rw (e, resolve) refl

  resolve-missed :
      (r : Resolver) (domain : Text) (t : Times) (doh : Option DohResolveResult)
      (es : List Completion)
      → looked_up dec M B L r domain t ≡ none
      → resolve dec M B L r domain t doh es
        ≡ resolve_fresh dec M B L (after_lookup dec M B L r domain t) domain t doh es
  unfolding resolve
  resolve-missed r domain t doh es e = rw (e, resolve) refl

  -- A lookup in a cache of lists that are not empty does not panic, and leaves such a cache.
  pub resolve-Safe :
      (r : Resolver) (domain : Text) (t : Times) (doh : Option DohResolveResult)
      (es : List Completion)
      → Full r
      → Safe (resolve dec M B L r domain t doh es)
  resolve-Safe r domain t doh es h = elim (Option-cases (looked_up dec M B L r domain t)) [
    | inl e ↦
        subst Safe (sym (resolve-missed r domain t doh es e))
          (resolve_fresh-Safe _ domain t doh es (Full-lookup r domain t h))
    | inr (v, e) ↦
        subst Safe (sym (resolve-found r domain t doh es v e))
          (first-no_panic v.ips (found_ips r domain t v h e), Full-lookup r domain t h)
  ]
