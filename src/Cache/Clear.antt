-- ===== src/Cache/Clear.antt =====
-- src/cache/resource_cache.rs: which entries `clear` and `clear_expired` leave.
use hakimi_hub.Prelude.{
  ◌+◌, ◌-◌, ◌*◌, ◌≤◌, ◌<◌, arith, ltb, if◌then◌else◌, Bool-cases, Option-cases, select, ℕ, ◌≡◌,
  refl, sym, ap, ◌∙◌, inl, inr, true, Option, none, some, List, [], ◌∷◌, ◌++◌, map,
}
use hakimi_hub.Prelude.Str.{Text}
use hakimi_hub.Config.Sections.{CacheConfig}
use hakimi_hub.Cache.Files.{FilePath}
use hakimi_hub.Cache.Store.{
  CacheMetadata, Platform, ResourceCache, entries, save_metadata_async, is_expired, get_file_path,
  get, url_to_key, wrap, wrapping_sub,
}
use hakimi_hub.Cache.Cleanup.{remove_all, clear, clear_expired}
use hakimi_hub.Cache.Removal.{chosen, meets, removed-chosen}
use hakimi_hub.Cache.RoundTrip.{get-missing}

module _ (E : Platform) where
  pub save-metadata : (c : ResourceCache E) → (save_metadata_async E c).1.metadata ≡ c.metadata
  unfolding save_metadata_async
  save-metadata c = elim (Option-cases (E.to_json (entries E c.metadata))) [
    | inl e ↦ rw (e, save_metadata_async) refl
    | inr (t, e) ↦ rw (e, save_metadata_async) refl
  ]

  -- What an entry becomes: it is dropped if it is past its lifetime.
  abbrev pub unless_expired : CacheConfig → ℕ → Option CacheMetadata → Option CacheMetadata
  unless_expired config now none = none
  unless_expired config now (some m) = if is_expired E config now m then none else some m

  unless-eq :
      (config : CacheConfig) (now : ℕ) (o : Option CacheMetadata)
      → (if meets E (is_expired E config now) (λ k m. []) o then none else o)
        ≡ unless_expired config now o
  unless-eq config now none = refl
  unless-eq config now (some m) = refl

  abbrev expired_files : ResourceCache E → ℕ → List (Text × FilePath)
  expired_files c now =
      chosen E (is_expired E c.config now) (λ k m. get_file_path E c k) (entries E c.metadata)

  clear_expired-metadata :
      (c : ResourceCache E) (now : ℕ)
      → (clear_expired E c now).1.metadata ≡ (remove_all E c (expired_files c now)).1.metadata
  unfolding clear_expired
  clear_expired-metadata c now =
      elim (Bool-cases (ltb 0 (remove_all E c (expired_files c now)).0)) [
        | inl e ↦ rw e (save-metadata (remove_all E c (expired_files c now)).1)
        | inr e ↦ rw e refl
      ]

  -- After `clear_expired` the index has the entries that do not count as expired.
  pub clear_expired-entries :
      (c : ResourceCache E) (now : ℕ) (k : Text)
      → E.M.get (clear_expired E c now).1.metadata k
        ≡ unless_expired c.config now (E.M.get c.metadata k)
  clear_expired-entries c now k =
      ap (λ m. E.M.get m k) (clear_expired-metadata c now)
      ∙ removed-chosen E (is_expired E c.config now) (λ j m. get_file_path E c j) c k
      ∙ unless-eq c.config now (E.M.get c.metadata k)

  -- What an entry becomes, with its lifetime of so many days of 86400 seconds.
  abbrev pub within_lifetime : ℕ → ℕ → Option CacheMetadata → Option CacheMetadata
  within_lifetime days now none = none
  within_lifetime days now (some m) = if ltb (m.created_at + days * 86400) now then none else some m

  is_expired-days :
      (config : CacheConfig) (now : ℕ) (m : CacheMetadata)
      → m.created_at ≤ now
      → now < 18446744073709551616
      → config.ttl_days * 86400 < 18446744073709551616
      → is_expired E config now m ≡ ltb (m.created_at + config.ttl_days * 86400) now
  unfolding is_expired
  is_expired-days config now m a b d = no_wrap config.ttl_days now m.created_at a b d
    where
      shifted : (t now created : ℕ) → created ≤ now → ltb t (now - created) ≡ ltb (created + t) now
      shifted t now created a = ground (arith, a)

      no_wrap :
          (days now created : ℕ)
          → created ≤ now
          → now < 18446744073709551616
          → days * 86400 < 18446744073709551616
          → ltb (wrap (days * 24 * 3600)) (wrapping_sub now created)
            ≡ ltb (created + days * 86400) now
      no_wrap days now created a b d =
          let e : wrap (days * 24 * 3600) ≡ days * 86400 = omega (arith, d) in
          let f : wrapping_sub now created ≡ now - created = omega (arith, a, b) in
          rw (e, f) (shifted (days * 86400) now created a)

  unless-within :
      (config : CacheConfig) (now : ℕ) (o : Option CacheMetadata)
      → ((m : CacheMetadata) → o ≡ some m → m.created_at ≤ now)
      → now < 18446744073709551616
      → config.ttl_days * 86400 < 18446744073709551616
      → unless_expired config now o ≡ within_lifetime config.ttl_days now o
  unless-within config now none a b d = refl
  unless-within config now (some m) a b d =
      ap (λ x. if x then none else some m) (is_expired-days config now m (a m refl) b d)

  -- If no entry was created after the time that the clock shows, `clear_expired` leaves the index
  -- with exactly the entries for which no more than `ttl_days` days of 86400 seconds have passed
  -- since their creation, as they were, whether or not the files could be removed and the index
  -- saved. The clock and the lifetime in seconds are 64-bit numbers.
  pub clear_expired-lifetime :
      (c : ResourceCache E) (now : ℕ) (k : Text)
      → ((m : CacheMetadata) → E.M.get c.metadata k ≡ some m → m.created_at ≤ now)
      → now < 18446744073709551616
      → c.config.ttl_days * 86400 < 18446744073709551616
      → E.M.get (clear_expired E c now).1.metadata k
        ≡ within_lifetime c.config.ttl_days now (E.M.get c.metadata k)
  clear_expired-lifetime c now k a b d =
      clear_expired-entries c now k ∙ unless-within c.config now (E.M.get c.metadata k) a b d

  abbrev all_files : ResourceCache E → List (Text × FilePath)
  all_files c = map (λ e. (e.0, c.cache_dir ++ (e.1).file_path)) (entries E c.metadata)

  select_all : {A : Type 0} (l : List A) → select (λ x. true) l ≡ l
  select_all [] = refl
  select_all (x ∷ l) = ap (λ t. x ∷ t) (select_all l)

  none_left :
      (o : Option CacheMetadata) → (if meets E (λ m. true) (λ k m. []) o then none else o) ≡ none
  none_left none = refl
  none_left (some m) = refl

  clear-metadata :
      (c : ResourceCache E) → (clear E c).1.metadata ≡ (remove_all E c (all_files c)).1.metadata
  unfolding clear
  clear-metadata c = save-metadata (remove_all E c (all_files c)).1

  pub clear-entries : (c : ResourceCache E) (k : Text) → E.M.get (clear E c).1.metadata k ≡ none
  clear-entries c k =
      ap (λ m. E.M.get m k) (clear-metadata c)
      ∙ ap
          (λ l.
            E.M.get (remove_all E c (map (λ e. (e.0, c.cache_dir ++ (e.1).file_path)) l)).1.metadata
              k)
          (sym (select_all (entries E c.metadata)))
      ∙ removed-chosen E (λ m. true) (λ j m. c.cache_dir ++ m.file_path) c k
      ∙ none_left (E.M.get c.metadata k)

  -- After `clear` no lookup finds anything, whether or not the files could be removed and the
  -- index saved.
  pub clear-get :
      (c : ResourceCache E) (later : ℕ) (url : Text) → get E (clear E c).1 later url ≡ (none, none)
  clear-get c later url = get-missing E (clear E c).1 later url (clear-entries c (url_to_key E url))
