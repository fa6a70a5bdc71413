-- ===== src/Cache/Effect.antt =====
-- src/cache/resource_cache.rs: what a `put` that stores does to the cache and to the files.
use hakimi_hub.Prelude.{
  Bool-cases, ℕ, ◌≡◌, refl, sym, ap, ◌∙◌, ◌≢◌, inl, inr, true, false, Option, none, some,
}
use hakimi_hub.Prelude.Str.{Text}
use mathlib.Core.Path.{subst}
use hakimi_hub.Proxy.Response.{CachedResource}
use hakimi_hub.Cache.Files.{FilePath, parent}
use hakimi_hub.Cache.Store.{
  Platform, ResourceCache, Task, get_file_path, url_to_key, put, accepts, write_entry,
  create_parent, ensure_parent, metadata_of,
}

module _ (E : Platform) where
  put-accepted :
      (c : ResourceCache E) (now : ℕ) (url : Text) (r : CachedResource)
      → accepts E c url r ≡ true
      → (ensure_parent E c (get_file_path E c (url_to_key E url))).0 ≡ true
      → put E c now url r
        ≡ write_entry E (ensure_parent E c (get_file_path E c (url_to_key E url))).1 now url r
  unfolding put
  put-accepted c now url r a e = rw a (rw e refl)

  put-refused :
      (c : ResourceCache E) (now : ℕ) (url : Text) (r : CachedResource)
      → accepts E c url r ≡ false
      → put E c now url r ≡ ((true, none), c)
  unfolding put
  put-refused c now url r a = rw a refl

  put-no_parent :
      (c : ResourceCache E) (now : ℕ) (url : Text) (r : CachedResource)
      → accepts E c url r ≡ true
      → (ensure_parent E c (get_file_path E c (url_to_key E url))).0 ≡ false
      → (put E c now url r).0 ≡ (false, none)
  unfolding put
  put-no_parent c now url r a e = rw a (rw e refl)

  write_entry-ok :
      (c : ResourceCache E) (now : ℕ) (url : Text) (r : CachedResource)
      → (E.F.write c.disk (get_file_path E c (url_to_key E url)) r.data_bytes).0 ≡ true
      → (write_entry E c now url r).1 ≡ record c {
        disk = (E.F.write c.disk (get_file_path E c (url_to_key E url)) r.data_bytes).1;
        metadata = E.M.insert c.metadata (url_to_key E url) (metadata_of E c now url r);
        metadata_dirty = true;
      }
  unfolding write_entry
  write_entry-ok c now url r e = rw e refl

  pub write_entry-failed :
      (c : ResourceCache E) (now : ℕ) (url : Text) (r : CachedResource)
      → (E.F.write c.disk (get_file_path E c (url_to_key E url)) r.data_bytes).0 ≡ false
      → (write_entry E c now url r).0 ≡ (false, none)
  unfolding write_entry
  write_entry-failed c now url r e = rw e refl

  -- What a `put` that stores does: one file and one entry are new, all else is as it was.
  pub record Stores (c : ResourceCache E) (now : ℕ) (url : Text) (r : CachedResource)
      (d : ResourceCache E) : Type 0 where
    pub file : E.F.read d.disk (get_file_path E c (url_to_key E url)) ≡ some r.data_bytes
    pub other_files :
        (q : FilePath)
        → get_file_path E c (url_to_key E url) ≢ q
        → E.F.read d.disk q ≡ E.F.read c.disk q
    pub entry : d.metadata ≡ E.M.insert c.metadata (url_to_key E url) (metadata_of E c now url r)
    pub dir : d.cache_dir ≡ c.cache_dir
    pub index : d.metadata_path ≡ c.metadata_path
    pub settings : d.config ≡ c.config
    pub dirty : d.metadata_dirty ≡ true

  -- `ensure_parent` changes no file.
  pub create_parent-read :
      (d : E.F.Disk) (o : Option FilePath) (q : FilePath)
      → E.F.read (create_parent E d o).1 q ≡ E.F.read d q
  unfolding create_parent
  create_parent-read d none q = refl
  create_parent-read d (some dir) q = E.F.read-create d dir q

  pub ensure_parent-read :
      (c : ResourceCache E) (p q : FilePath)
      → E.F.read (ensure_parent E c p).1.disk q ≡ E.F.read c.disk q
  unfolding ensure_parent
  ensure_parent-read c p q = create_parent-read c.disk (parent p) q

  pub ensure_parent-record :
      (c : ResourceCache E) (p : FilePath)
      → (ensure_parent E c p).1 ≡ record c { disk = (ensure_parent E c p).1.disk }
  unfolding ensure_parent
  ensure_parent-record c p = refl

  Stores-ensure_parent :
      (c : ResourceCache E) (now : ℕ) (url : Text) (r : CachedResource) (p : FilePath)
      (d : ResourceCache E)
      → Stores (ensure_parent E c p).1 now url r d
      → Stores c now url r d
  unfolding ensure_parent get_file_path metadata_of
  Stores-ensure_parent c now url r p d h = record {
    file = h.file;
    other_files = λ q g. h.other_files q g ∙ create_parent-read c.disk (parent p) q;
    entry = h.entry;
    dir = h.dir;
    index = h.index;
    settings = h.settings;
    dirty = h.dirty;
  }

  write_entry-Stores :
      (c : ResourceCache E) (now : ℕ) (url : Text) (r : CachedResource)
      → (E.F.write c.disk (get_file_path E c (url_to_key E url)) r.data_bytes).0 ≡ true
      → Stores c now url r (write_entry E c now url r).1
  write_entry-Stores c now url r e =
      subst (λ d. Stores c now url r d) (sym (write_entry-ok c now url r e))
        (record {
          file = E.F.read-write c.disk _ r.data_bytes e;
          other_files = λ q h. E.F.read-write_other c.disk _ q r.data_bytes h;
          entry = refl;
          dir = refl;
          index = refl;
          settings = refl;
          dirty = refl;
        })

  write_entry-succeeds :
      (c : ResourceCache E) (now : ℕ) (url : Text) (r : CachedResource)
      → (write_entry E c now url r).0 ≡ (true, some Task.evict_if_needed)
      → Stores c now url r (write_entry E c now url r).1
  write_entry-succeeds c now url r e =
      elim (Bool-cases (E.F.write c.disk (get_file_path E c (url_to_key E url)) r.data_bytes).0) [
        | inl w ↦ write_entry-Stores c now url r w
        | inr w ↦ absurd (cc (sym (write_entry-failed c now url r w) ∙ e))
      ]

  pub put-Stores :
      (c : ResourceCache E) (now : ℕ) (url : Text) (r : CachedResource)
      → (put E c now url r).0 ≡ (true, some Task.evict_if_needed)
      → Stores c now url r (put E c now url r).1
  put-Stores c now url r e = elim (Bool-cases (accepts E c url r)) [
    | inr a ↦ absurd (cc (sym (ap (λ x. x.0) (put-refused c now url r a)) ∙ e))
    | inl a ↦ elim (Bool-cases (ensure_parent E c (get_file_path E c (url_to_key E url))).0) [
      | inr b ↦ absurd (cc (sym (put-no_parent c now url r a b) ∙ e))
      | inl b ↦
          subst (λ x. Stores c now url r x.1) (sym (put-accepted c now url r a b))
            (Stores-ensure_parent c now url r _ _ (
              write_entry-succeeds _ now url r
                (sym (ap (λ x. x.0) (put-accepted c now url r a b)) ∙ e)))
    ]
  ]
