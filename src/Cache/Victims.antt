-- ===== src/Cache/Victims.antt =====
-- src/cache/resource_cache.rs: what the loop of an eviction keeps true of the entries left to it.
use hakimi_hub.Prelude.{
  is_some, present, All, ℕ, ◌≤◌, ◌≡◌, refl, ap, ◌∙◌, ◌≢◌, true, Option, none, some, List, [], ◌∷◌,
  arith,
}
use hakimi_hub.Prelude.Str.{Text}
use mathlib.Core.Logic.{ite}
use hakimi_hub.Prelude.Sort.{sum_by}
use hakimi_hub.Utils.Containers.Sums.{size_or}
use hakimi_hub.Cache.Store.{
  CacheMetadata, Platform, ResourceCache, get_file_path, remove_async_static,
}
use hakimi_hub.Cache.Cleanup.{Victim}
use hakimi_hub.Cache.Paths.{get_file_path-ne}
use hakimi_hub.Cache.Sizes.{size_at}

module _ (E : Platform) where
  abbrev pub Store : Type 0
  Store = ResourceCache E

  -- Every entry has its file.
  abbrev pub Stored : Store → Type 0
  Stored c =
      (k : Text) (m : CacheMetadata)
      → E.M.get c.metadata k ≡ some m
      → is_some (E.F.read c.disk (get_file_path E c k)) ≡ true

  abbrev pub occurs : Text → List (Victim E) → ℕ
  occurs k es = sum_by (λ v. ite (E.dec v.0 k) 1 0) es

  abbrev pub sizes : List (Victim E) → ℕ
  sizes es = sum_by (λ v. v.2) es

  -- The list names each entry at most once, with its size, and every entry has its file.
  pub record Evictable (c : Store) (es : List (Victim E)) : Type 0 where
    pub counted : (k : Text) → occurs k es ≤ present (E.M.get c.metadata k)
    pub sized : All (λ v. size_at E c v.0 ≡ v.2) es
    pub stored : Stored c

  removed_files :
      (c : Store) (k j : Text)
      → k ≢ j
      → E.F.read (remove_async_static E c k).disk (get_file_path E c j)
        ≡ E.F.read c.disk (get_file_path E c j)
  unfolding remove_async_static
  removed_files c k j h =
      E.F.read-remove_other c.disk (get_file_path E c k) (get_file_path E c j)
        (get_file_path-ne E c k j h)

  removed_path :
      (c : Store) (k j : Text) → get_file_path E (remove_async_static E c k) j ≡ get_file_path E c j
  unfolding remove_async_static get_file_path
  removed_path c k j = refl

  pub removed_get :
      (c : Store) (k j : Text)
      → E.M.get (remove_async_static E c k).metadata j ≡ ite (E.dec k j) none (E.M.get c.metadata j)
  unfolding remove_async_static
  removed_get c k j = E.M.get-remove c.metadata k j

  kept_key :
      (c : Store) (k j : Text) (m : CacheMetadata)
      → E.M.get (remove_async_static E c k).metadata j ≡ some m
      → (k ≢ j) × (E.M.get c.metadata j ≡ some m)
  kept_key c k j m e = ground (arith, removed_get c k j, e)

  pub Stored-remove : (c : Store) (k : Text) → Stored c → Stored (remove_async_static E c k)
  Stored-remove c k s j m e =
      let h = kept_key c k j m e in
      ap (λ o. is_some o)
        (ap (λ p. E.F.read (remove_async_static E c k).disk p) (removed_path c k j)
          ∙ removed_files c k j h.0)
      ∙ s j m h.1

  pub present_le : {A : Type 0} (o : Option A) → present o ≤ 1
  present_le none = omega arith
  present_le (some a) = omega arith

  counted-tail :
      (c : Store) (v : Victim E) (es : List (Victim E)) (k : Text)
      → occurs k (v ∷ es) ≤ present (E.M.get c.metadata k)
      → occurs k es ≤ present (E.M.get (remove_async_static E c v.0).metadata k)
  counted-tail c v es k h =
      ground (arith, h, removed_get c v.0 k, present_le (E.M.get c.metadata k))

  absent_tail :
      (c : Store) (v : Victim E) (es : List (Victim E))
      → occurs v.0 (v ∷ es) ≤ present (E.M.get c.metadata v.0)
      → occurs v.0 es ≡ 0
  absent_tail c v es h = ground (arith, h, present_le (E.M.get c.metadata v.0))

  sized-tail :
      (c : Store) (k : Text) (es : List (Victim E))
      → occurs k es ≡ 0
      → All (λ v. size_at E c v.0 ≡ v.2) es
      → All (λ v. size_at E (remove_async_static E c k) v.0 ≡ v.2) es
  sized-tail c k [] z h = tt
  sized-tail c k (v ∷ es) z (e, h) = (
    ap (size_or E.dec E.M (λ m. m.file_size)) (other k v es z) ∙ e,
    sized-tail c k es (omega (arith, z)) h,
  )
    where
      other :
          (k : Text) (v : Victim E) (es : List (Victim E))
          → occurs k (v ∷ es) ≡ 0
          → E.M.get (remove_async_static E c k).metadata v.0 ≡ E.M.get c.metadata v.0
      other k v es z = ground (arith, z, removed_get c k v.0)

  pub Evictable-tail :
      (c : Store) (v : Victim E) (es : List (Victim E))
      → Evictable c (v ∷ es)
      → Evictable (remove_async_static E c v.0) es
  Evictable-tail c v es h = record {
    counted = λ k. counted-tail c v es k (h.counted k);
    sized = sized-tail c v.0 es (absent_tail c v es (h.counted v.0)) h.sized.1;
    stored = Stored-remove c v.0 h.stored;
  }
