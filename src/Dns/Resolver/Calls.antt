-- ===== src/Dns/Resolver/Calls.antt =====
-- src/dns/resolver.rs: any sequence of calls of the resolver.
use hakimi_hub.Prelude.{
  if◌then◌else◌, is_empty, ◌≡◌, refl, Bool, true, false, Option, none, some, List, [], ◌∷◌,
}
use hakimi_hub.Prelude.Str.{Text}
use hakimi_hub.Config.Sections.{DnsConfig}
use hakimi_hub.Utils.Containers.{MapOps, LruOps}
use hakimi_hub.Utils.Evictable.{Entry, with_ttl}
use hakimi_hub.Utils.Evictable.Values.{AllIn-empty, AllIn-discard, AllIn-clear}
use hakimi_hub.Dns.Ip.{IpAddr}
use hakimi_hub.Dns.Prober.{BestIpValue, Completion}
use hakimi_hub.Dns.Resolver.{
  CacheValue, DohResolveResult, Times, new, keep, after_lookup, looked_up, rank, resolve, or_else,
  candidates_fresh, get_candidates, resolve_international, reprobe, reprobe_each, reprobe_all,
  reprobed_domains, Inputs, invalidate, invalidate_all,
}
use hakimi_hub.Dns.Resolver.NonEmpty.{
  Resolver, Full, Full-keep, Full-lookup, Full-rank, has_ips, panics, resolve-Safe,
}

pub data Call : Type 0 where
  resolve_call : Text → Times → Option DohResolveResult → List Completion → Call
  candidates_call : Text → Times → Option DohResolveResult → List Completion → Call
  international_call : Text → Times → Option DohResolveResult → List Completion → Call
  reprobe_call : (Text → Inputs) → Call
  invalidate_call : Text → Call
  invalidate_all_call : Call

module _ (dec : Discrete Text) (M : MapOps dec (Entry CacheValue))
    (B : MapOps dec (Entry BestIpValue)) (L : LruOps dec) where
  abbrev R : Type 0
  R = Resolver dec M B L

  unfoldable pub step : R → Call → R
  unfolding resolve get_candidates resolve_international reprobe_all invalidate invalidate_all
  step r (Call.resolve_call domain t doh es) = (resolve dec M B L r domain t doh es).1
  step r (Call.candidates_call domain t doh es) = (get_candidates dec M B L r domain t doh es).1
  step r (Call.international_call domain t doh es) =
      (resolve_international dec M B L r domain t doh es).1
  step r (Call.reprobe_call inputs) = reprobe_all dec M B L r inputs
  step r (Call.invalidate_call domain) = invalidate dec M B L r domain
  step r Call.invalidate_all_call = invalidate_all dec M B L r

  unfoldable pub run : R → List Call → R
  unfolding step
  run r [] = r
  run r (x ∷ xs) = run (step r x) xs

  abbrev Fl : R → Type 0
  Fl r = Full dec M B L r

  if_full :
      {A : Type 0} (b : Bool) (x y : A × R)
      → Fl x.1
      → (b ≡ false → Fl y.1)
      → Fl (if b then x else y).1
  if_full true x y h g = h
  if_full false x y h g = g refl

  or_else-full : (xs ips : List IpAddr) → is_empty ips ≡ false → is_empty (or_else xs ips) ≡ false
  or_else-full [] ips e = e
  or_else-full (x ∷ xs) ips e = refl

  candidates_fresh-Full :
      (r : R) (domain : Text) (t : Times) (doh : Option DohResolveResult) (es : List Completion)
      → Fl r
      → Fl (candidates_fresh dec M B L r domain t doh es).1
  unfolding candidates_fresh
  candidates_fresh-Full r domain t none es h = h
  candidates_fresh-Full r domain t (some a) es h =
      if_full (is_empty a.ips) ([], r) _ h
        (λ e.
          Full-keep dec M B L (rank dec M B L r domain t a.ips es).1 domain
            (or_else (rank dec M B L r domain t a.ips es).0 a.ips) t
            (or_else-full (rank dec M B L r domain t a.ips es).0 a.ips e)
            (Full-rank dec M B L r domain t a.ips es h))

  get_candidates-Full :
      (r : R) (domain : Text) (t : Times) (doh : Option DohResolveResult) (es : List Completion)
      → Fl r
      → Fl (get_candidates dec M B L r domain t doh es).1
  unfolding get_candidates
  get_candidates-Full r domain t doh es h =
      elim (looked_up dec M B L r domain t)
        as (λ o.
          Fl
            (elim o as (λ x. List IpAddr × R) [
              | some entry ↦ (entry.ips, after_lookup dec M B L r domain t)
              | none ↦
                  candidates_fresh dec M B L (after_lookup dec M B L r domain t) domain t doh es
            ]).1) [
              | none ↦ candidates_fresh-Full _ domain t doh es (Full-lookup dec M B L r domain t h)
              | some v ↦ Full-lookup dec M B L r domain t h
            ]

  international-Full :
      (r : R) (domain : Text) (t : Times) (doh : Option DohResolveResult) (es : List Completion)
      → Fl r
      → Fl (resolve_international dec M B L r domain t doh es).1
  unfolding resolve_international
  international-Full r domain t none es h = h
  international-Full r domain t (some a) es h =
      if_full (is_empty a.ips) (none, r) _ h
        (λ e.
          Full-keep dec M B L (rank dec M B L r domain t a.ips es).1 domain
            (or_else (rank dec M B L r domain t a.ips es).0 a.ips) t
            (or_else-full (rank dec M B L r domain t a.ips es).0 a.ips e)
            (Full-rank dec M B L r domain t a.ips es h))

  kept_full :
      (ranked : List IpAddr) (q : R) (domain : Text) (t : Times)
      → Fl q
      → Fl (elim ranked as (λ x. R) [
        | [] ↦ q
        | best ∷ others ↦ keep dec M B L q domain (best ∷ others) t
      ])
  kept_full [] q domain t h = h
  kept_full (best ∷ others) q domain t h = Full-keep dec M B L q domain (best ∷ others) t refl h

  if_kept : (b : Bool) (x y : R) → Fl x → Fl y → Fl (if b then x else y)
  if_kept true x y h g = h
  if_kept false x y h g = g

  reprobe-Full :
      (r : R) (domain : Text) (t : Times) (doh : Option DohResolveResult) (es : List Completion)
      → Fl r
      → Fl (reprobe dec M B L r domain t doh es)
  unfolding reprobe
  reprobe-Full r domain t none es h = h
  reprobe-Full r domain t (some a) es h =
      if_kept (is_empty a.ips) r _ h (kept_full _ (record r { ip_prober = _ }) domain t h)

  reprobe_each-Full :
      (inputs : Text → Inputs) (domains : List Text) (r : R)
      → Fl r
      → Fl (reprobe_each dec M B L r inputs domains)
  unfolding reprobe_each
  reprobe_each-Full inputs [] r h = h
  reprobe_each-Full inputs (d ∷ ds) r h =
      reprobe_each-Full inputs ds (reprobe dec M B L r d (inputs d).0 (inputs d).1 (inputs d).2)
        (reprobe-Full r d (inputs d).0 (inputs d).1 (inputs d).2 h)

  step-Full : (r : R) (x : Call) → Fl r → Fl (step r x)
  unfolding step reprobe_all invalidate invalidate_all
  step-Full r (Call.resolve_call domain t doh es) h = (resolve-Safe dec M B L r domain t doh es h).1
  step-Full r (Call.candidates_call domain t doh es) h = get_candidates-Full r domain t doh es h
  step-Full r (Call.international_call domain t doh es) h = international-Full r domain t doh es h
  step-Full r (Call.reprobe_call inputs) h =
      reprobe_each-Full inputs (reprobed_domains dec M B L r) r h
  step-Full r (Call.invalidate_call domain) h = AllIn-discard dec M L has_ips r.cache domain h
  step-Full r Call.invalidate_all_call h = AllIn-clear dec M L has_ips r.cache

  run-Full : (xs : List Call) (r : R) → Fl r → Fl (run r xs)
  unfolding run
  run-Full [] r h = h
  run-Full (x ∷ xs) r h = run-Full xs (step r x) (step-Full r x h)

  new-Full : (config : DnsConfig) → Fl (new dec M B L config)
  unfolding new with_ttl
  new-Full config = AllIn-empty dec M L has_ips

  -- After any sequence of calls on a new resolver, whatever the DoH servers answer and the probes
  -- find, `resolve` does not index an empty list: it returns an address or an error.
  pub run-no_panic :
      (config : DnsConfig) (xs : List Call) (domain : Text) (t : Times)
      (doh : Option DohResolveResult) (es : List Completion)
      → panics (resolve dec M B L (run (new dec M B L config) xs) domain t doh es).0 ≡ false
  run-no_panic config xs domain t doh es =
      (resolve-Safe dec M B L (run (new dec M B L config) xs) domain t doh es
        (run-Full xs (new dec M B L config) (new-Full config))).0
