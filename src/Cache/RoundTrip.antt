-- ===== src/Cache/RoundTrip.antt =====
-- src/cache/resource_cache.rs: what `get` returns after a `put`, and what it leaves to a task.
use hakimi_hub.Prelude.{
  if◌then◌else◌, Bool-cases, ℕ, ◌*◌, ◌≤◌, ◌≡◌, refl, sym, ap, ◌∙◌, ◌≢◌, inl, inr, true, false, not,
  Option, none, some, ◌++◌, arith,
}
use hakimi_hub.Prelude.Str.{Text}
use mathlib.Core.Path.{subst}
use hakimi_hub.Config.Sections.{CacheConfig}
use hakimi_hub.Proxy.Response.{CachedResource}
use hakimi_hub.Cache.Store.{
  CacheMetadata, Platform, ResourceCache, Task, wrap, wrapping_sub, rel_path, get_file_path,
  url_to_key, put, get, metadata_of, is_expired,
}
use hakimi_hub.Cache.Effect.{Stores, put-Stores}
use hakimi_hub.Cache.Paths.{get_file_path-ne}

module _ (E : Platform) where
  -- The entry of a metadata record and the bytes of a file.
  abbrev pub resource_of : CacheMetadata → Text → CachedResource
  resource_of m bytes = record {
    content_type = m.content_type;
    data_bytes = bytes;
    etag = m.etag;
    last_modified = m.last_modified;
  }

  -- The lookup behind the test of `enabled`.
  get-hit :
      (c : ResourceCache E) (now : ℕ) (url : Text) (m : CacheMetadata) (bytes : Text)
      → c.config.enabled ≡ true
      → E.M.get c.metadata (url_to_key E url) ≡ some m
      → is_expired E c.config now m ≡ false
      → E.F.read c.disk (get_file_path E c (url_to_key E url)) ≡ some bytes
      → get E c now url ≡ (some (resource_of m bytes), none)
  unfolding get
  get-hit c now url m bytes e f g h = rw e (rw f (rw g (rw h refl)))

  pub get-stale :
      (c : ResourceCache E) (now : ℕ) (url : Text) (m : CacheMetadata)
      → c.config.enabled ≡ true
      → E.M.get c.metadata (url_to_key E url) ≡ some m
      → is_expired E c.config now m ≡ true
      → get E c now url ≡ (none, some (Task.remove_async (url_to_key E url)))
  unfolding get
  get-stale c now url m e f g = rw e (rw f (rw g refl))

  pub get-missing :
      (c : ResourceCache E) (now : ℕ) (url : Text)
      → E.M.get c.metadata (url_to_key E url) ≡ none
      → get E c now url ≡ (none, none)
  unfolding get
  get-missing c now url f = elim (Bool-cases c.config.enabled) [
    | inl e ↦ rw e (rw f refl)
    | inr e ↦ rw e refl
  ]

  fresh :
      (config : CacheConfig) (now : ℕ) (m : CacheMetadata)
      → wrapping_sub now m.created_at ≤ wrap (config.ttl_days * 24 * 3600)
      → is_expired E config now m ≡ false
  unfolding is_expired
  fresh config now m h = ground (arith, h)

  resource_of-metadata_of :
      (c : ResourceCache E) (now : ℕ) (url : Text) (r : CachedResource)
      → resource_of (metadata_of E c now url r) r.data_bytes ≡ r
  unfolding metadata_of
  resource_of-metadata_of c now url r = refl

  created-metadata_of :
      (c : ResourceCache E) (now : ℕ) (url : Text) (r : CachedResource)
      → (metadata_of E c now url r).created_at ≡ now
  unfolding metadata_of
  created-metadata_of c now url r = refl

  pub same_path :
      (c d : ResourceCache E) (k : Text)
      → d.cache_dir ≡ c.cache_dir
      → get_file_path E d k ≡ get_file_path E c k
  unfolding get_file_path
  same_path c d k e = ap (λ p. p ++ rel_path k) e

  Stores-lookup :
      (c d : ResourceCache E) (now : ℕ) (url : Text) (r : CachedResource)
      → Stores E c now url r d
      → E.M.get d.metadata (url_to_key E url) ≡ some (metadata_of E c now url r)
  Stores-lookup c d now url r s =
      ap (λ m. E.M.get m (url_to_key E url)) s.entry
      ∙ found (url_to_key E url) (metadata_of E c now url r)
    where
      found : (k : Text) (v : CacheMetadata) → E.M.get (E.M.insert c.metadata k v) k ≡ some v
      found k v = ground (arith, E.M.get-insert c.metadata k v k)

  Stores-get :
      (c d : ResourceCache E) (now later : ℕ) (url : Text) (r : CachedResource)
      → Stores E c now url r d
      → c.config.enabled ≡ true
      → wrapping_sub later now ≤ wrap (c.config.ttl_days * 24 * 3600)
      → get E d later url ≡ (some r, none)
  Stores-get c d now later url r s e h =
      let m = metadata_of E c now url r in
      get-hit d later url m r.data_bytes (ap (λ x. x.enabled) s.settings ∙ e)
        (Stores-lookup c d now url r s)
        (ap (λ x. is_expired E x later m) s.settings
          ∙ fresh c.config later m (
              subst (λ t. wrapping_sub later t ≤ wrap (c.config.ttl_days * 24 * 3600))
                (sym (created-metadata_of c now url r)) h))
        (ap (λ p. E.F.read d.disk p) (same_path c d (url_to_key E url) s.dir) ∙ s.file)
      ∙ ap (λ x. (some x, none)) (resource_of-metadata_of c now url r)

  -- A resource that `put` stored is what `get` returns for its URL, byte by byte and with the same
  -- headers, as long as the lifetime has not passed since.
  pub put-get :
      (c : ResourceCache E) (now later : ℕ) (url : Text) (r : CachedResource)
      → c.config.enabled ≡ true
      → (put E c now url r).0 ≡ (true, some Task.evict_if_needed)
      → wrapping_sub later now ≤ wrap (c.config.ttl_days * 24 * 3600)
      → get E (put E c now url r).1 later url ≡ (some r, none)
  put-get c now later url r e p h =
      Stores-get c (put E c now url r).1 now later url r (put-Stores E c now url r p) e h

  -- `get` as a function of the entry and of the file.
  abbrev outcome :
      CacheConfig
      → ℕ
      → Text
      → Option CacheMetadata
      → Option Text
      → Option CachedResource × Option Task
  outcome config now key o bytes = if not config.enabled then (none, none) else (elim o [
    | none ↦ (none, none)
    | some m ↦
        if is_expired E config now m then (none, some (Task.remove_async key)) else (elim bytes [
          | none ↦ (none, some (Task.remove_async key))
          | some b ↦ (some (resource_of m b), none)
        ])
  ])

  get-outcome :
      (c : ResourceCache E) (now : ℕ) (url : Text)
      → get E c now url
        ≡ outcome c.config now
            (E.digest url)
            (E.M.get c.metadata (E.digest url))
            (E.F.read c.disk (get_file_path E c (E.digest url)))
  unfolding get url_to_key
  get-outcome c now url = refl

  missed :
      (m : E.M.Map) (j k : Text) (v : CacheMetadata)
      → j ≢ k
      → E.M.get (E.M.insert m j v) k ≡ E.M.get m k
  missed m j k v h = ground (arith, E.M.get-insert m j v k, h)

  outcome-eq :
      {a b : CacheConfig} {o p : Option CacheMetadata} {s t : Option Text} (now : ℕ) (k : Text)
      → a ≡ b
      → o ≡ p
      → s ≡ t
      → outcome a now k o s ≡ outcome b now k p t
  outcome-eq {a = a} {p = p} {s = s} {t = t} now k e f g =
      ap (λ x. outcome a now k x s) f
      ∙ ap (λ x. outcome a now k p x) g
      ∙ ap (λ x. outcome x now k p t) e

  Stores-other :
      (c d : ResourceCache E) (now later : ℕ) (url other : Text) (r : CachedResource)
      → Stores E c now url r d
      → E.digest url ≢ E.digest other
      → get E d later other ≡ get E c later other
  unfolding url_to_key
  Stores-other c d now later url other r s n =
      let key = E.digest other in
      get-outcome d later other
      ∙ outcome-eq later key s.settings
          (ap (λ m. E.M.get m key) s.entry
            ∙ missed c.metadata (E.digest url) key (metadata_of E c now url r) n)
          (ap (λ p. E.F.read d.disk p) (same_path c d key s.dir)
            ∙ s.other_files (get_file_path E c key) (get_file_path-ne E c (E.digest url) key n))
      ∙ sym (get-outcome c later other)

  -- A `put` that stores leaves what `get` returns for any other URL as it was, if the two URLs
  -- have different digests.
  pub put-get_other :
      (c : ResourceCache E) (now later : ℕ) (url other : Text) (r : CachedResource)
      → (put E c now url r).0 ≡ (true, some Task.evict_if_needed)
      → E.digest url ≢ E.digest other
      → get E (put E c now url r).1 later other ≡ get E c later other
  put-get_other c now later url other r p n =
      Stores-other c (put E c now url r).1 now later url other r (put-Stores E c now url r p) n
