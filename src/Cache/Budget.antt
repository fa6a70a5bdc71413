-- ===== src/Cache/Budget.antt =====
-- src/cache/resource_cache.rs: a `put` and the eviction that it spawns.
use hakimi_hub.Prelude.{
  is_some, ℕ, ◌≤◌, ◌<◌, ◌≡◌, sym, ap, ◌∙◌, ◌≢◌, ◌⊎◌, inl, inr, true, some, arith,
}
use hakimi_hub.Prelude.Str.{Text}
use hakimi_hub.Proxy.Response.{CachedResource}
use hakimi_hub.Cache.Store.{
  CacheMetadata, Platform, ResourceCache, Task, put, url_to_key, get_file_path, metadata_of,
  mebibytes,
}
use hakimi_hub.Cache.Cleanup.{run_task}
use hakimi_hub.Cache.Effect.{Stores, put-Stores}
use hakimi_hub.Cache.Paths.{get_file_path-ne}
use hakimi_hub.Cache.RoundTrip.{same_path}
use hakimi_hub.Cache.Sizes.{stored_size}
use hakimi_hub.Cache.Victims.{Stored}
use hakimi_hub.Cache.Evict.{Unlinks}
use hakimi_hub.Cache.Limit.{evict_if_needed-fits}

module _ (E : Platform) where
  entry_before :
      (m : E.M.Map) (k j : Text) (w v : CacheMetadata)
      → E.M.get (E.M.insert m k w) j ≡ some v
      → (k ≡ j) ⊎ ((k ≢ j) × (E.M.get m j ≡ some v))
  entry_before m k j w v e = ground (arith, E.M.get-insert m k w j, e)

  Stores-Stored :
      (c d : ResourceCache E) (now : ℕ) (url : Text) (r : CachedResource)
      → Stores E c now url r d
      → Stored E c
      → Stored E d
  Stores-Stored c d now url r s h k m e =
      elim (entry_before c.metadata (url_to_key E url) k (metadata_of E c now url r) m
        (ap (λ x. E.M.get x k) (sym s.entry) ∙ e)) [
          | inl a ↦
              ap (λ p. is_some (E.F.read d.disk p)) (same_path E c d k s.dir)
              ∙ ap (λ x. is_some (E.F.read d.disk (get_file_path E c x))) (sym a)
              ∙ ap (λ o. is_some o) s.file
          | inr (n, a) ↦
              ap (λ p. is_some (E.F.read d.disk p)) (same_path E c d k s.dir)
              ∙ ap (λ o. is_some o)
                  (s.other_files (get_file_path E c k)
                    (get_file_path-ne E c (url_to_key E url) k n))
              ∙ h k m a
        ]

  -- Once the eviction that a storing `put` spawned has run, the sizes of the entries add up to no
  -- more than the configured limit, if before the `put` every entry had its file, a file that
  -- stands on the disk can be removed, and the sizes add up to less than 2^64 after the `put`.
  pub put-evict-fits :
      Unlinks E
      → (c : ResourceCache E) (now : ℕ) (url : Text) (r : CachedResource) → Stored E c
      → (put E c now url r).0 ≡ (true, some Task.evict_if_needed)
      → stored_size E (put E c now url r).1 < 18446744073709551616
      → stored_size E (run_task E (put E c now url r).1 Task.evict_if_needed)
        ≤ mebibytes c.config.max_size_mb
  unfolding run_task
  put-evict-fits unlinks c now url r h p b =
      let s = put-Stores E c now url r p in
      omega (
        arith,
        evict_if_needed-fits E unlinks (put E c now url r).1 (Stores-Stored c _ now url r s h) b,
        ap (λ x. mebibytes x.max_size_mb) s.settings,
      )
