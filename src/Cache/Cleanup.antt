-- ===== src/Cache/Cleanup.antt =====
-- src/cache/resource_cache.rs: what removes entries, and what reads all of them.
use hakimi_hub.Prelude.{
  ltb, leb, if◌then◌else◌, select, ℕ, suc, ◌+◌, ◌-◌, Bool, true, false, Option, none, some, List,
  [], ◌∷◌, ◌++◌, map,
}
use hakimi_hub.Prelude.Str.{Text}
use hakimi_hub.Prelude.Sort.{sum_by, sort_by_key}
use hakimi_hub.Cache.Files.{FilePath}
use hakimi_hub.Cache.Store.{
  Platform, CacheStats, Task, wrap, mebibytes, smallest, largest, ResourceCache, entries,
  save_metadata_async, get_file_path, is_expired, remove_async_static,
}

module _ (E : Platform) where
  abbrev Store : Type 0
  Store = ResourceCache E

  -- The loop of `clear` and of `clear_expired` over a list of keys and files.
  unfoldable pub remove_all : Store → List (Text × FilePath) → ℕ × Store
  remove_all c [] = (0, c)
  remove_all c ((key, path) ∷ es) =
      let r = E.F.remove_file c.disk path in
      let rest = remove_all (record c { disk = r.1; metadata = E.M.remove c.metadata key }) es in
      (if r.0 then suc rest.0 else rest.0, rest.1)

  -- `clear` takes each file's path from its entry. The result is the count, none in case of an error.
  unfoldable pub clear : Store → Option ℕ × Store
  unfolding entries remove_all save_metadata_async
  clear c =
      let r =
        remove_all c (map (λ e. (e.0, c.cache_dir ++ (e.1).file_path)) (entries E c.metadata)) in
      let s = save_metadata_async E r.1 in (if s.0 then some r.0 else none, s.1)

  -- `clear_expired` computes each file's path from its key.
  unfoldable pub clear_expired : Store → ℕ → Option ℕ × Store
  unfolding entries remove_all save_metadata_async get_file_path is_expired
  clear_expired c now =
      let expired = select (λ e. is_expired E c.config now e.1) (entries E c.metadata) in
      let r = remove_all c (map (λ e. (e.0, get_file_path E c e.0)) expired) in
      let s = save_metadata_async E r.1 in
      if ltb 0 r.0 then (if s.0 then some r.0 else none, s.1) else (some r.0, r.1)

  unfoldable pub current_size : Store → ℕ
  unfolding entries
  current_size c = wrap (sum_by (λ e. (e.1).file_size) (entries E c.metadata))

  unfoldable pub stats : Store → CacheStats
  unfolding entries current_size
  stats c = record {
    cache_dir = c.cache_dir;
    total_size = current_size c;
    file_count = E.M.len c.metadata;
    oldest = smallest (map (λ e. (e.1).created_at) (entries E c.metadata));
    newest = largest (map (λ e. (e.1).created_at) (entries E c.metadata));
  }

  unfoldable pub flush : Store → Bool × Store
  unfolding save_metadata_async
  flush c =
      let r = save_metadata_async E c in
      if c.metadata_dirty
      then (r.0, if r.0 then record r.1 { metadata_dirty = false } else r.1)
      else (true, c)

  -- The key, the time of the last access and the size.
  abbrev pub Victim : Type 0
  Victim = Text × ℕ × ℕ

  -- The loop of `evict_if_needed_static`: how many files were removed, and what is left.
  unfoldable pub evict_loop : Store → ℕ → ℕ → List Victim → ℕ × Store
  unfolding get_file_path
  evict_loop c freed target [] = (0, c)
  evict_loop c freed target ((key, accessed, size) ∷ es) =
      let r = E.F.remove_file c.disk (get_file_path E c key) in
      let rest =
        evict_loop (record c { disk = r.1; metadata = E.M.remove c.metadata key })
          (if r.0 then wrap (freed + size) else freed) target es in
      if leb target freed then (0, c) else (if r.0 then suc rest.0 else rest.0, rest.1)

  unfoldable pub victims : Store → List Victim
  unfolding entries sort_by_key
  victims c =
      sort_by_key (λ v. v.1)
        (map (λ e. (e.0, (e.1).last_accessed, (e.1).file_size)) (entries E c.metadata))

  unfoldable pub evict_if_needed_static : Store → Bool × Store
  unfolding current_size evict_loop victims save_metadata_async
  evict_if_needed_static c =
      let max_bytes = mebibytes c.config.max_size_mb in
      let r = evict_loop c 0 (current_size c - max_bytes) (victims c) in
      let s = save_metadata_async E r.1 in
      if leb (current_size c) max_bytes then (true, c) else (if ltb 0 r.0 then s else (true, r.1))

  unfoldable pub run_task : Store → Task → Store
  unfolding remove_async_static evict_if_needed_static
  run_task c (Task.remove_async key) = remove_async_static E c key
  run_task c Task.evict_if_needed = (evict_if_needed_static c).1
