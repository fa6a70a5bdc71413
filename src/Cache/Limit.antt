-- ===== src/Cache/Limit.antt =====
-- src/cache/resource_cache.rs: an eviction brings the cache under its limit.
use hakimi_hub.Prelude.{
  ltb, leb, leb→le, Bool-cases, Option-cases, All, ℕ, ◌-◌, ◌≤◌, ◌<◌, ◌≡◌, refl, sym, ap, ◌∙◌, inl,
  inr, true, false, none, some, List, [], ◌∷◌, map, arith,
}
use hakimi_hub.Prelude.Str.{Text}
use mathlib.Core.Logic.{ite}
use mathlib.Core.Path.{subst}
use hakimi_hub.Prelude.Sort.{sum_by, sort-sum, sort-All}
use hakimi_hub.Utils.Containers.{count}
use hakimi_hub.Utils.Containers.Sync.{count_cons}
use hakimi_hub.Utils.Containers.Sums.{size_or}
use hakimi_hub.Cache.Store.{
  CacheMetadata, Platform, mebibytes, entries, entries_at, save_metadata_async,
}
use hakimi_hub.Cache.Cleanup.{current_size, Victim, victims, evict_loop, evict_if_needed_static}
use hakimi_hub.Cache.Sizes.{
  stored_size, size_at, current_size-stored, entries-sum, entries_at-none, entries_at-some,
  entries_at_nil,
}
use hakimi_hub.Cache.Victims.{Store, Stored, occurs, sizes, Evictable}
use hakimi_hub.Cache.Evict.{Unlinks, evict_loop-fits}

module _ (E : Platform) where
  abbrev victim : Text × CacheMetadata → Victim E
  victim e = (e.0, (e.1).last_accessed, (e.1).file_size)

  abbrev candidates : E.M.Map → List Text → List (Victim E)
  candidates m ks = map victim (entries_at E m ks)

  candidates-none :
      (m : E.M.Map) (k : Text) (ks : List Text)
      → E.M.get m k ≡ none
      → candidates m (k ∷ ks) ≡ candidates m ks
  candidates-none m k ks e = ap (map victim) (entries_at-none E m k ks e)

  candidates-some :
      (m : E.M.Map) (k : Text) (ks : List Text) {v : CacheMetadata}
      → E.M.get m k ≡ some v
      → candidates m (k ∷ ks) ≡ victim (k, v) ∷ candidates m ks
  candidates-some m k ks e = ap (map victim) (entries_at-some E m k ks e)

  candidates_nil : (m : E.M.Map) → candidates m [] ≡ []
  candidates_nil m = ap (map victim) (entries_at_nil E m)

  candidates-counted :
      (m : E.M.Map) (k : Text) (ks : List Text) → occurs E k (candidates m ks) ≤ count E.dec k ks
  candidates-counted m k [] = omega (arith, ap (occurs E k) (candidates_nil m))
  candidates-counted m k (j ∷ ks) = elim (Option-cases (E.M.get m j)) [
    | inl e ↦ omega (
      arith,
      ap (occurs E k) (candidates-none m j ks e),
      candidates-counted m k ks,
      count_cons E.dec k j ks,
    )
    | inr (v, e) ↦ omega (
      arith,
      ap (occurs E k) (candidates-some m j ks e),
      candidates-counted m k ks,
      count_cons E.dec k j ks,
    )
  ]

  candidates-sized :
      (m : E.M.Map) (ks : List Text)
      → All (λ v. size_or E.dec E.M (λ x. x.file_size) (E.M.get m v.0) ≡ v.2) (candidates m ks)
  candidates-sized m [] =
      subst (λ l. All (λ v. size_or E.dec E.M (λ x. x.file_size) (E.M.get m v.0) ≡ v.2) l)
        (sym (candidates_nil m)) tt
  candidates-sized m (k ∷ ks) = elim (Option-cases (E.M.get m k)) [
    | inl e ↦
        subst (λ l. All (λ v. size_or E.dec E.M (λ x. x.file_size) (E.M.get m v.0) ≡ v.2) l)
          (sym (candidates-none m k ks e)) (candidates-sized m ks)
    | inr (v, e) ↦
        subst (λ l. All (λ v. size_or E.dec E.M (λ x. x.file_size) (E.M.get m v.0) ≡ v.2) l)
          (sym (candidates-some m k ks e))
          (ap (size_or E.dec E.M (λ x. x.file_size)) e, candidates-sized m ks)
  ]

  candidates-sum :
      (m : E.M.Map) (es : List (Text × CacheMetadata))
      → sizes E (map victim es) ≡ sum_by (λ e. (e.1).file_size) es
  candidates-sum m [] = refl
  candidates-sum m (e ∷ es) = omega (arith, candidates-sum m es)

  victims-Evictable : (c : Store E) → Stored E c → Evictable E c (victims E c)
  unfolding victims entries
  victims-Evictable c s = record {
    counted = λ k.
        counted_at (sort-sum (λ v. v.1) (λ v. ite (E.dec v.0 k) 1 0) (candidates c.metadata keys))
          (candidates-counted c.metadata k keys) (E.M.count-keys c.metadata k);
    sized =
        sort-All (λ v. v.1) (λ v. size_at E c v.0 ≡ v.2) (candidates c.metadata keys)
          (candidates-sized c.metadata keys);
    stored = s;
  }
    where
      keys : List Text
      keys = E.M.keys c.metadata

      counted_at : {a b d n : ℕ} → a ≡ b → b ≤ d → d ≡ n → a ≤ n
      counted_at e l f = omega (arith, e, l, f)

  victims-sum : (c : Store E) → sizes E (victims E c) ≡ stored_size E c
  unfolding victims
  victims-sum c =
      sort-sum (λ v. v.1) (λ v. v.2) (map victim (entries E c.metadata))
      ∙ candidates-sum c.metadata (entries E c.metadata)
      ∙ entries-sum E c

  save-stored_size : (c : Store E) → stored_size E (save_metadata_async E c).1 ≡ stored_size E c
  unfolding save_metadata_async
  save-stored_size c = elim (Option-cases (E.to_json (entries E c.metadata))) [
    | inl e ↦ rw (e, save_metadata_async) refl
    | inr (t, e) ↦ rw (e, save_metadata_async) refl
  ]

  evict_under :
      (c : Store E)
      → leb (current_size E c) (mebibytes c.config.max_size_mb) ≡ true
      → (evict_if_needed_static E c).1 ≡ c
  unfolding evict_if_needed_static
  evict_under c h = rw h refl

  evict_over :
      (c : Store E)
      → leb (current_size E c) (mebibytes c.config.max_size_mb) ≡ false
      → stored_size E (evict_if_needed_static E c).1
        ≡ stored_size E
            (evict_loop E c 0 (current_size E c - mebibytes c.config.max_size_mb) (victims E c)).1
  unfolding evict_if_needed_static
  evict_over c h =
      elim (Bool-cases (
        ltb 0
          (evict_loop E c 0 (current_size E c - mebibytes c.config.max_size_mb) (victims E c)).0)) [
            | inl l ↦ rw h (
                rw l (
                  save-stored_size
                    (evict_loop E c 0 (current_size E c - mebibytes c.config.max_size_mb)
                      (victims E c)).1))
            | inr l ↦ rw h (rw l refl)
          ]

  -- After an eviction the sizes of the entries add up to no more than the configured limit, if
  -- every entry has its file, a file that stands on the disk can be removed, and the sizes add up
  -- to less than 2^64 before.
  pub evict_if_needed-fits :
      Unlinks E
      → (c : Store E) → Stored E c
      → stored_size E c < 18446744073709551616
      → stored_size E (evict_if_needed_static E c).1 ≤ mebibytes c.config.max_size_mb
  evict_if_needed-fits unlinks c s b =
      let size = current_size-stored E c b in
      elim (Bool-cases (leb (current_size E c) (mebibytes c.config.max_size_mb))) [
        | inl l ↦ omega (arith, ap (stored_size E) (evict_under c l), size, leb→le _ _ l)
        | inr l ↦ omega (
          arith,
          evict_over c l,
          evict_loop-fits E unlinks c 0 (current_size E c - mebibytes c.config.max_size_mb)
              (victims E c) (victims-Evictable c s) (omega (arith, victims-sum c, size))
              (omega (arith, b)),
          size,
          over _ _ l,
        )
      ]
    where
      over : (a m : ℕ) → leb a m ≡ false → m < a
      over a m l = ground (arith, l)
