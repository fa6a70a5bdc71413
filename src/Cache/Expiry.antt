-- ===== src/Cache/Expiry.antt =====
-- src/cache/resource_cache.rs: entries past their lifetime, and entries that are removed.
use hakimi_hub.Prelude.{lt→ltb, ℕ, ◌+◌, ◌-◌, ◌*◌, ◌<◌, ◌≡◌, true, none, some, arith}
use hakimi_hub.Prelude.Str.{Text}
use hakimi_hub.Cache.Store.{
  CacheMetadata, Platform, ResourceCache, Task, wrap, wrapping_sub, url_to_key, get, is_expired,
  remove_async_static,
}
use hakimi_hub.Cache.Cleanup.{run_task}
use hakimi_hub.Cache.RoundTrip.{get-stale, get-missing}

module _ (E : Platform) where
  removed_entry :
      (c : ResourceCache E) (k : Text) → E.M.get (remove_async_static E c k).metadata k ≡ none
  unfolding remove_async_static
  removed_entry c k = ground (arith, E.M.get-remove c.metadata k k)

  -- A lookup past the lifetime returns nothing and spawns the removal of the entry; once that has
  -- run, a later lookup of the URL finds nothing and spawns nothing.
  pub get-expired :
      (c : ResourceCache E) (now later : ℕ) (url : Text) (m : CacheMetadata)
      → c.config.enabled ≡ true
      → E.M.get c.metadata (url_to_key E url) ≡ some m
      → wrap (c.config.ttl_days * 24 * 3600) < wrapping_sub now m.created_at
      → (get E c now url ≡ (none, some (Task.remove_async (url_to_key E url))))
        × (get E (run_task E c (Task.remove_async (url_to_key E url))) later url ≡ (none, none))
  unfolding is_expired run_task
  get-expired c now later url m e f h = (
    get-stale E c now url m e f (lt→ltb _ _ h),
    get-missing E (remove_async_static E c (url_to_key E url)) later url
        (removed_entry c (url_to_key E url)),
  )

  -- A clock that was set back makes an entry expire at once: the subtraction wraps around.
  pub get-clock_back :
      (c : ResourceCache E) (now : ℕ) (url : Text) (m : CacheMetadata)
      → c.config.enabled ≡ true
      → E.M.get c.metadata (url_to_key E url) ≡ some m
      → m.created_at < 18446744073709551616
      → now < m.created_at
      → c.config.ttl_days * 24 * 3600 + (m.created_at - now) < 18446744073709551616
      → get E c now url ≡ (none, some (Task.remove_async (url_to_key E url)))
  unfolding is_expired
  get-clock_back c now url m e f a b h =
      get-stale E c now url m e f (lt→ltb _ _ (behind _ _ _ a b h))
    where
      behind :
          (now created ttl : ℕ)
          → created < 18446744073709551616
          → now < created
          → ttl + (created - now) < 18446744073709551616
          → wrap ttl < wrapping_sub now created
      behind now created ttl a b h = omega (arith, a, b, h)
