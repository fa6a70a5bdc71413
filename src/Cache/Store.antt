-- ===== src/Cache/Store.antt =====
-- src/cache/resource_cache.rs: the cache, with the file system it writes to. `digest` is the
-- SHA-256 in hexadecimal of the `sha2` crate, `to_json` is `serde_json::to_string_pretty`, and
-- `now` is what `current_timestamp` reads. A task that the source spawns is returned as a value
-- and run by `run_task`; the flag of a result is whether the call returns `Ok`.
use hakimi_hub.Prelude.{
  ltb, leb, if◌then◌else◌, length, take, drop, ℕ, ◌+◌, ◌-◌, ◌*◌, ◌%◌, Bool, true, false, not, ◌&&◌,
  Option, none, some, List, [], ◌∷◌, ◌++◌,
}
use hakimi_hub.Prelude.Str.{Text, codes}
use hakimi_hub.Config.Sections.{CacheConfig}
use hakimi_hub.Utils.Containers.{MapOps}
use hakimi_hub.Proxy.Response.{CachedResource}
use hakimi_hub.Cache.Cacheable.{is_cacheable}
use hakimi_hub.Cache.Files.{FilePath, FileOps, parent}

pub record CacheMetadata : Type 0 where
  pub url : Text
  pub content_type : Text
  pub etag : Option Text
  pub last_modified : Option Text
  pub created_at : ℕ
  pub last_accessed : ℕ
  pub file_size : ℕ
  pub file_path : FilePath

pub record CacheStats : Type 0 where
  pub cache_dir : FilePath
  pub total_size : ℕ
  pub file_count : ℕ
  pub oldest : Option ℕ
  pub newest : Option ℕ

pub data Task : Type 0 where
  remove_async : Text → Task
  evict_if_needed : Task

-- `a - b` on `u64` in the release profile, which does not test for overflow.
abbrev pub wrapping_sub : ℕ → ℕ → ℕ
wrapping_sub a b = (a + 18446744073709551616 - b) % 18446744073709551616

abbrev pub wrap : ℕ → ℕ
wrap a = a % 18446744073709551616

abbrev pub mebibytes : ℕ → ℕ
mebibytes n = wrap (n * 1024 * 1024)

unfoldable pub rel_path : Text → FilePath
rel_path key = if leb 2 (length key) then take 2 key ∷ (drop 2 key ∷ []) else key ∷ []

-- `iter().min()` and `iter().max()`
abbrev pub smallest : List ℕ → Option ℕ
smallest [] = none
smallest (x ∷ xs) = elim (smallest xs) [ none ↦ some x | some y ↦ some (if leb x y then x else y) ]

abbrev pub largest : List ℕ → Option ℕ
largest [] = none
largest (x ∷ xs) = elim (largest xs) [ none ↦ some x | some y ↦ some (if ltb y x then x else y) ]

-- The containers, the file system and the functions of other crates that the cache uses.
pub record Platform : Type 1 where
  pub dec : Discrete Text
  pub M : MapOps dec CacheMetadata
  pub F : FileOps
  pub digest : Text → Text
  pub to_json : List (Text × CacheMetadata) → Option Text

module _ (E : Platform) where
  pub record ResourceCache : Type 0 where
    pub cache_dir : FilePath
    pub metadata_path : FilePath
    pub metadata : E.M.Map
    pub config : CacheConfig
    pub metadata_dirty : Bool
    pub disk : E.F.Disk

  -- `loaded` is the index that `load_metadata` returns, empty in case of an error.
  unfoldable pub new : E.F.Disk → FilePath → CacheConfig → Option E.M.Map → ResourceCache
  new disk cache_dir config loaded = record {
    cache_dir = cache_dir;
    metadata_path = cache_dir ++ (codes "metadata.json" ∷ []);
    metadata = elim loaded [ none ↦ E.M.empty | some m ↦ m ];
    config = config;
    metadata_dirty = false;
    disk = disk;
  }

  -- `iter()` with the key and the value of each entry.
  unfoldable pub entries_at : E.M.Map → List Text → List (Text × CacheMetadata)
  entries_at m [] = []
  entries_at m (k ∷ ks) =
      let rest = entries_at m ks in elim (E.M.get m k) [ none ↦ rest | some v ↦ (k, v) ∷ rest ]

  unfoldable pub entries : E.M.Map → List (Text × CacheMetadata)
  unfolding entries_at
  entries m = entries_at m (E.M.keys m)

  unfoldable pub save_metadata_async : ResourceCache → Bool × ResourceCache
  unfolding entries
  save_metadata_async c = elim (E.to_json (entries c.metadata)) [
    | none ↦ (false, c)
    | some content ↦
        let r = E.F.write c.disk c.metadata_path content in (r.0, record c { disk = r.1 })
  ]

  unfoldable pub url_to_key : Text → Text
  url_to_key url = E.digest url

  unfoldable pub get_file_path : ResourceCache → Text → FilePath
  unfolding rel_path
  get_file_path c key = c.cache_dir ++ rel_path key

  -- `now - created_at > ttl_seconds`
  unfoldable pub is_expired : CacheConfig → ℕ → CacheMetadata → Bool
  is_expired config now m = ltb (wrap (config.ttl_days * 24 * 3600)) (wrapping_sub now m.created_at)

  unfoldable pub get : ResourceCache → ℕ → Text → Option CachedResource × Option Task
  unfolding url_to_key get_file_path is_expired
  get c now url =
      if not c.config.enabled then (none, none) else (elim (E.M.get c.metadata (url_to_key url)) [
        | none ↦ (none, none)
        | some m ↦
            if is_expired c.config now m
            then (none, some (Task.remove_async (url_to_key url)))
            else (elim (E.F.read c.disk (get_file_path c (url_to_key url))) [
              | none ↦ (none, some (Task.remove_async (url_to_key url)))
              | some bytes ↦ (
                some (record {
                  content_type = m.content_type;
                  data_bytes = bytes;
                  etag = m.etag;
                  last_modified = m.last_modified;
                }),
                none,
              )
            ])
      ])

  -- The metadata that `put` writes. `strip_prefix` gives back what `join` put behind the directory.
  unfoldable pub metadata_of : ResourceCache → ℕ → Text → CachedResource → CacheMetadata
  unfolding url_to_key get_file_path
  metadata_of c now url resource = record {
    url = url;
    content_type = resource.content_type;
    etag = resource.etag;
    last_modified = resource.last_modified;
    created_at = now;
    last_accessed = now;
    file_size = length resource.data_bytes;
    file_path = drop (length c.cache_dir) (get_file_path c (url_to_key url));
  }

  -- `if let Some(parent) = file_path.parent() { create_dir_all(parent)? }`
  unfoldable pub create_parent : E.F.Disk → Option FilePath → Bool × E.F.Disk
  create_parent disk none = (true, disk)
  create_parent disk (some dir) = E.F.create_dir_all disk dir

  unfoldable pub ensure_parent : ResourceCache → FilePath → Bool × ResourceCache
  unfolding create_parent
  ensure_parent c path =
      let r = create_parent c.disk (parent path) in (r.0, record c { disk = r.1 })

  -- The file and then the index are written.
  unfoldable pub write_entry :
      ResourceCache → ℕ → Text → CachedResource → (Bool × Option Task) × ResourceCache
  unfolding url_to_key get_file_path metadata_of
  write_entry c now url resource =
      let w = E.F.write c.disk (get_file_path c (url_to_key url)) resource.data_bytes in
      let d = record c { disk = w.1 } in
      if w.0
      then (
        (true, some Task.evict_if_needed),
        record d {
          metadata = E.M.insert c.metadata (url_to_key url) (metadata_of c now url resource);
          metadata_dirty = true;
        },
      )
      else ((false, none), d)

  -- The early returns of `put`.
  unfoldable pub accepts : ResourceCache → Text → CachedResource → Bool
  unfolding is_cacheable
  accepts c url resource =
      c.config.enabled
      && is_cacheable url resource.content_type none
      && leb (length resource.data_bytes) (mebibytes c.config.max_file_size_mb)

  unfoldable pub put :
      ResourceCache → ℕ → Text → CachedResource → (Bool × Option Task) × ResourceCache
  unfolding accepts ensure_parent write_entry get_file_path url_to_key
  put c now url resource =
      if accepts c url resource
      then (let r = ensure_parent c (get_file_path c (url_to_key url)) in
          if r.0 then write_entry r.1 now url resource else ((false, none), r.1))
      else ((true, none), c)

  -- The removal of a file, whose error is ignored, and of its entry.
  unfoldable pub remove_async_static : ResourceCache → Text → ResourceCache
  unfolding get_file_path
  remove_async_static c key = record c {
    disk = (E.F.remove_file c.disk (get_file_path c key)).1;
    metadata = E.M.remove c.metadata key;
  }

  unfoldable pub remove : ResourceCache → Text → ResourceCache
  unfolding remove_async_static url_to_key
  remove c url = remove_async_static c (url_to_key url)
