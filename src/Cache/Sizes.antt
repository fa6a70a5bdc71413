-- ===== src/Cache/Sizes.antt =====
-- src/cache/resource_cache.rs: the sizes that the cache adds up, over any order of its entries.
use hakimi_hub.Prelude.{
  Option-cases, ℕ, ◌+◌, ◌<◌, ◌≡◌, refl, ap, ◌∙◌, inl, inr, none, some, List, [], ◌∷◌, arith,
}
use hakimi_hub.Prelude.Str.{Text}
use hakimi_hub.Prelude.Sort.{sum_by}
use hakimi_hub.Utils.Containers.Sums.{size_or, total}
use hakimi_hub.Cache.Store.{CacheMetadata, Platform, ResourceCache, wrap, entries, entries_at}
use hakimi_hub.Cache.Cleanup.{current_size}

module _ (E : Platform) where
  -- The size of all entries.
  abbrev pub stored_size : ResourceCache E → ℕ
  stored_size c = total E.dec E.M (λ m. m.file_size) c.metadata

  abbrev pub size_at : ResourceCache E → Text → ℕ
  size_at c k = size_or E.dec E.M (λ m. m.file_size) (E.M.get c.metadata k)

  pub entries_at-none :
      (m : E.M.Map) (k : Text) (ks : List Text)
      → E.M.get m k ≡ none
      → entries_at E m (k ∷ ks) ≡ entries_at E m ks
  unfolding entries_at
  entries_at-none m k ks e = rw (e, entries_at) refl

  pub entries_at-some :
      (m : E.M.Map) (k : Text) (ks : List Text) {v : CacheMetadata}
      → E.M.get m k ≡ some v
      → entries_at E m (k ∷ ks) ≡ (k, v) ∷ entries_at E m ks
  unfolding entries_at
  entries_at-some m k ks e = rw (e, entries_at) refl

  pub entries_at_nil : (m : E.M.Map) → entries_at E m [] ≡ []
  unfolding entries_at
  entries_at_nil m = refl

  abbrev size_sum : List (Text × CacheMetadata) → ℕ
  size_sum es = sum_by (λ e. (e.1).file_size) es

  entries_at-sum :
      (m : E.M.Map) (ks : List Text)
      → sum_by (λ e. (e.1).file_size) (entries_at E m ks)
        ≡ sum_by (λ k. size_or E.dec E.M (λ v. v.file_size) (E.M.get m k)) ks
  entries_at-sum m [] = ap size_sum (entries_at_nil m)
  entries_at-sum m (k ∷ ks) = elim (Option-cases (E.M.get m k)) [
    | inl e ↦ ap size_sum (entries_at-none m k ks e) ∙ rw e (omega (arith, entries_at-sum m ks))
    | inr (v, e) ↦
        ap size_sum (entries_at-some m k ks e)
        ∙ rw e (ap (λ n. v.file_size + n) (entries_at-sum m ks))
  ]

  pub entries-sum :
      (c : ResourceCache E) → sum_by (λ e. (e.1).file_size) (entries E c.metadata) ≡ stored_size c
  unfolding entries total
  entries-sum c = entries_at-sum c.metadata (E.M.keys c.metadata)

  pub current_size-stored :
      (c : ResourceCache E)
      → stored_size c < 18446744073709551616
      → current_size E c ≡ stored_size c
  unfolding current_size
  current_size-stored c h = ap wrap (entries-sum c) ∙ small (stored_size c) h
    where
      small : (n : ℕ) → n < 18446744073709551616 → wrap n ≡ n
      small n h = omega (arith, h)
