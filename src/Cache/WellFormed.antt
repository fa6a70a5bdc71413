-- ===== src/Cache/WellFormed.antt =====
-- src/cache/resource_cache.rs: what every operation keeps true of the index.
use hakimi_hub.Prelude.{
  leb, if◌then◌else◌, Bool-cases, drop-length_append, ℕ, ◌+◌, ◌≡◌, refl, sym, ap, ◌∙◌, ◌⊎◌, inl,
  inr, Bool, true, false, Option, none, some, List, [], ◌∷◌, arith,
}
use hakimi_hub.Prelude.Str.{Text}
use mathlib.Core.Path.{subst}
use hakimi_hub.Config.Sections.{CacheConfig}
use hakimi_hub.Proxy.Response.{CachedResource}
use hakimi_hub.Cache.Store.{
  CacheMetadata, Platform, ResourceCache, put, save_metadata_async, is_expired, get_file_path,
  url_to_key, rel_path, metadata_of, remove_async_static, write_entry, ensure_parent, accepts, wrap,
}
use hakimi_hub.Cache.Cleanup.{
  clear, clear_expired, flush, evict_loop, Victim, victims, evict_if_needed_static, current_size,
}
use hakimi_hub.Cache.Clear.{save-metadata, clear-entries, clear_expired-entries, unless_expired}

module _ (E : Platform) where
  -- What the index promises of an entry: it stands under the digest of its URL, and its path is
  -- the one that the key gives.
  pub record WellFormed (m : E.M.Map) : Type 0 where
    pub keyed : (k : Text) (v : CacheMetadata) → E.M.get m k ≡ some v → E.digest v.url ≡ k
    pub placed : (k : Text) (v : CacheMetadata) → E.M.get m k ≡ some v → v.file_path ≡ rel_path k

  pub WellFormed-empty : WellFormed E.M.empty
  WellFormed-empty = record {
    keyed = λ k v e. absurd (nothing k v e);
    placed = λ k v e. absurd (nothing k v e);
  }
    where
      nothing : (k : Text) (v : CacheMetadata) → E.M.get E.M.empty k ≡ some v → ⊥
      nothing k v e = cc (sym (E.M.get-empty k) ∙ e)

  removed_before :
      (m : E.M.Map) (k j : Text) (v : CacheMetadata)
      → E.M.get (E.M.remove m k) j ≡ some v
      → E.M.get m j ≡ some v
  removed_before m k j v e = ground (arith, E.M.get-remove m k j, e)

  WellFormed-remove : (m : E.M.Map) (k : Text) → WellFormed m → WellFormed (E.M.remove m k)
  WellFormed-remove m k h = record {
    keyed = λ j v e. h.keyed j v (removed_before m k j v e);
    placed = λ j v e. h.placed j v (removed_before m k j v e);
  }

  inserted_before :
      (m : E.M.Map) (k j : Text) (v w : CacheMetadata)
      → E.M.get (E.M.insert m k w) j ≡ some v
      → ((k ≡ j) × (w ≡ v)) ⊎ (E.M.get m j ≡ some v)
  inserted_before m k j v w e = ground (arith, E.M.get-insert m k w j, e)

  new_entry_keyed :
      (c : ResourceCache E) (now : ℕ) (url : Text) (r : CachedResource) (j : Text)
      (v : CacheMetadata)
      → url_to_key E url ≡ j
      → metadata_of E c now url r ≡ v
      → E.digest v.url ≡ j
  unfolding url_to_key metadata_of
  new_entry_keyed c now url r j v e f = ap (λ x. E.digest x.url) (sym f) ∙ e

  new_entry_placed :
      (c : ResourceCache E) (now : ℕ) (url : Text) (r : CachedResource) (j : Text)
      (v : CacheMetadata)
      → url_to_key E url ≡ j
      → metadata_of E c now url r ≡ v
      → v.file_path ≡ rel_path j
  unfolding metadata_of get_file_path
  new_entry_placed c now url r j v e f =
      ap (λ x. x.file_path) (sym f)
      ∙ drop-length_append c.cache_dir (rel_path (url_to_key E url))
      ∙ ap rel_path e

  WellFormed-insert :
      (c : ResourceCache E) (now : ℕ) (url : Text) (r : CachedResource) (m : E.M.Map)
      → WellFormed m
      → WellFormed (E.M.insert m (url_to_key E url) (metadata_of E c now url r))
  WellFormed-insert c now url r m h = record {
    keyed = λ j v e. elim (inserted_before m (url_to_key E url) j v (metadata_of E c now url r) e) [
      | inl (a, b) ↦ new_entry_keyed c now url r j v a b
      | inr a ↦ h.keyed j v a
    ];
    placed = λ j v e.
        elim (inserted_before m (url_to_key E url) j v (metadata_of E c now url r) e) [
          | inl (a, b) ↦ new_entry_placed c now url r j v a b
          | inr a ↦ h.placed j v a
        ];
  }

  abbrev pub Good : ResourceCache E → Type 0
  Good c = WellFormed c.metadata

  save-Good : (c : ResourceCache E) → Good c → Good (save_metadata_async E c).1
  save-Good c h = subst (λ m. WellFormed m) (sym (save-metadata E c)) h

  if-Good :
      {A : Type 0} (b : Bool) (s t : A × ResourceCache E)
      → Good s.1
      → Good t.1
      → Good (if b then s else t).1
  if-Good true s t h g = h
  if-Good false s t h g = g

  evict_loop-Good :
      (target : ℕ) (es : List (Victim E)) (c : ResourceCache E) (freed : ℕ)
      → Good c
      → Good (evict_loop E c freed target es).1
  unfolding evict_loop
  evict_loop-Good target [] c freed h = h
  evict_loop-Good target ((k, a, n) ∷ es) c freed h =
      let r = E.F.remove_file c.disk (get_file_path E c k) in
      if-Good (leb target freed) (0, c) _ h
        (evict_loop-Good target es (record c { disk = r.1; metadata = E.M.remove c.metadata k })
          (if r.0 then wrap (freed + n) else freed) (WellFormed-remove c.metadata k h))

  write_entry-Good :
      (c : ResourceCache E) (now : ℕ) (url : Text) (r : CachedResource)
      → Good c
      → Good (write_entry E c now url r).1
  unfolding write_entry
  write_entry-Good c now url r h =
      if-Good (E.F.write c.disk (get_file_path E c (url_to_key E url)) r.data_bytes).0 _ _
        (WellFormed-insert c now url r c.metadata h) h

  pub put-Good :
      (c : ResourceCache E) (now : ℕ) (url : Text) (r : CachedResource)
      → Good c
      → Good (put E c now url r).1
  unfolding put ensure_parent
  put-Good c now url r h =
      if-Good (accepts E c url r) _ _
        (if-Good (ensure_parent E c (get_file_path E c (url_to_key E url))).0 _ _
          (write_entry-Good (ensure_parent E c (get_file_path E c (url_to_key E url))).1 now url r
            h)
          h)
        h

  pub evict-Good : (c : ResourceCache E) → Good c → Good (evict_if_needed_static E c).1
  unfolding evict_if_needed_static
  evict-Good c h =
      let n = evict_loop-Good _ (victims E c) c 0 h in
      if-Good (leb (current_size E c) _) (true, c) _ h
        (if-Good _ (save_metadata_async E _) _ (save-Good _ n) n)

  kept_before :
      (config : CacheConfig) (now : ℕ) (o : Option CacheMetadata) (v : CacheMetadata)
      → unless_expired E config now o ≡ some v
      → o ≡ some v
  kept_before config now none v e = e
  kept_before config now (some m) v e = elim (Bool-cases (is_expired E config now m)) [
    | inl h ↦ absurd (cc (sym (dropped h) ∙ e))
    | inr h ↦ sym (kept h) ∙ e
  ]
    where
      dropped :
          is_expired E config now m ≡ true
          → (if is_expired E config now m then none else some m) ≡ none
      dropped h = rw h refl

      kept :
          is_expired E config now m ≡ false
          → (if is_expired E config now m then none else some m) ≡ some m
      kept h = rw h refl

  pub clear_expired-Good : (c : ResourceCache E) (now : ℕ) → Good c → Good (clear_expired E c now).1
  clear_expired-Good c now h = record {
    keyed = λ k v e.
        h.keyed k v (kept_before c.config now _ v (sym (clear_expired-entries E c now k) ∙ e));
    placed = λ k v e.
        h.placed k v (kept_before c.config now _ v (sym (clear_expired-entries E c now k) ∙ e));
  }

  pub clear-Good : (c : ResourceCache E) → Good (clear E c).1
  clear-Good c = record {
    keyed = λ k v e. absurd (cc (sym (clear-entries E c k) ∙ e));
    placed = λ k v e. absurd (cc (sym (clear-entries E c k) ∙ e));
  }

  pub flush-Good : (c : ResourceCache E) → Good c → Good (flush E c).1
  unfolding flush
  flush-Good c h =
      let r = save_metadata_async E c in
      if-Good c.metadata_dirty (r.0, if r.0 then record r.1 { metadata_dirty = false } else r.1)
        (true, c)
        (elim r.0 as (λ b. Good (if b then record r.1 { metadata_dirty = false } else r.1)) [
          | true ↦ save-Good c h
          | false ↦ save-Good c h
        ])
        h

  pub remove-Good : (c : ResourceCache E) (k : Text) → Good c → Good (remove_async_static E c k)
  unfolding remove_async_static
  remove-Good c k h = WellFormed-remove c.metadata k h
