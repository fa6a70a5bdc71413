-- ===== src/Cache/Removal.antt =====
-- src/cache/resource_cache.rs: what the loop of `clear` and `clear_expired` removes.
use hakimi_hub.Prelude.{
  ltb, if◌then◌else◌, Bool-cases, Option-cases, present, select, ℕ, ◌≡◌, refl, sym, ap, ◌∙◌, inl,
  inr, Bool, true, false, ◌&&◌, Option, none, some, List, [], ◌∷◌, map, arith,
}
use hakimi_hub.Prelude.Str.{Text}
use mathlib.Core.Logic.{ite}
use hakimi_hub.Utils.Containers.{count}
use hakimi_hub.Utils.Containers.Sync.{count_cons}
use hakimi_hub.Cache.Files.{FilePath}
use hakimi_hub.Cache.Store.{CacheMetadata, Platform, ResourceCache, entries, entries_at}
use hakimi_hub.Cache.Cleanup.{remove_all}
use hakimi_hub.Cache.Sizes.{entries_at-none, entries_at-some, entries_at_nil}

module _ (E : Platform) where
  -- Whether a list of keys and files names a key.
  unfoldable listed : Text → List (Text × FilePath) → Bool
  listed k [] = false
  listed k ((j, p) ∷ es) = let rest = listed k es in ite (E.dec j k) true rest

  remove_all-get :
      (c : ResourceCache E) (k : Text) (es : List (Text × FilePath))
      → E.M.get (remove_all E c es).1.metadata k
        ≡ (if listed k es then none else E.M.get c.metadata k)
  unfolding remove_all listed
  remove_all-get c k [] = refl
  remove_all-get c k ((j, p) ∷ es) = ground (
    arith,
    remove_all-get
        (record c { disk = (E.F.remove_file c.disk p).1; metadata = E.M.remove c.metadata j }) k es,
    E.M.get-remove c.metadata j k,
  )

  module _ (p : CacheMetadata → Bool) (path : Text → CacheMetadata → FilePath) where
    -- What is removed: the entries that meet a test, with the path of each.
    abbrev pub chosen : List (Text × CacheMetadata) → List (Text × FilePath)
    chosen es = map (λ e. (e.0, path e.0 e.1)) (select (λ e. p e.1) es)

    abbrev pub meets : Option CacheMetadata → Bool
    meets none = false
    meets (some m) = p m

    chosen_cons_yes :
        (k : Text) (m : CacheMetadata) (es : List (Text × CacheMetadata))
        → p m ≡ true
        → chosen ((k, m) ∷ es) ≡ (k, path k m) ∷ chosen es
    chosen_cons_yes k m es e = rw e refl

    chosen_cons_no :
        (k : Text) (m : CacheMetadata) (es : List (Text × CacheMetadata))
        → p m ≡ false
        → chosen ((k, m) ∷ es) ≡ chosen es
    chosen_cons_no k m es e = rw e refl

    listed_cons :
        (k j : Text) (q : FilePath) (es : List (Text × FilePath))
        → listed k ((j, q) ∷ es) ≡ ite (E.dec j k) true (listed k es)
    unfolding listed
    listed_cons k j q es = refl

    listed_nil : (k : Text) → listed k [] ≡ false
    unfolding listed
    listed_nil k = refl

    abbrev wanted : E.M.Map → Text → List Text → Bool
    wanted m k ks = ltb 0 (count E.dec k ks) && meets (E.M.get m k)

    wanted-skip :
        (m : E.M.Map) (k j : Text) (ks : List Text)
        → meets (E.M.get m j) ≡ false
        → wanted m k ks ≡ wanted m k (j ∷ ks)
    wanted-skip m k j ks e = elim (E.dec j k) [
      | yes h ↦
          let none_met = ap (λ x. meets (E.M.get m x)) (sym h) ∙ e in
          and_false (ltb 0 (count E.dec k ks)) none_met
          ∙ sym (and_false (ltb 0 (count E.dec k (j ∷ ks))) none_met)
      | no h ↦ ap (λ n. ltb 0 n && meets (E.M.get m k)) (same_count k j ks h)
    ]
      where
        and_false : {b : Bool} (a : Bool) → b ≡ false → (a && b) ≡ false
        and_false a e = ground (arith, e)

        same_count :
            (k j : Text) (ks : List Text) → (¬ (j ≡ k)) → count E.dec k ks ≡ count E.dec k (j ∷ ks)
        same_count k j ks h = ground (arith, h, count_cons E.dec k j ks)

    wanted-take :
        (m : E.M.Map) (k j : Text) (ks : List Text)
        → meets (E.M.get m j) ≡ true
        → ite (E.dec j k) true (wanted m k ks) ≡ wanted m k (j ∷ ks)
    wanted-take m k j ks e = ground (arith, e, count_cons E.dec k j ks)

    listed-chosen :
        (m : E.M.Map) (k : Text) (ks : List Text)
        → listed k (chosen (entries_at E m ks)) ≡ wanted m k ks
    unfolding count
    listed-chosen m k [] = ap (λ l. listed k (chosen l)) (entries_at_nil E m) ∙ listed_nil k
    listed-chosen m k (j ∷ ks) = elim (Option-cases (E.M.get m j)) [
      | inl e ↦
          ap (λ l. listed k (chosen l)) (entries_at-none E m j ks e)
          ∙ listed-chosen m k ks
          ∙ wanted-skip m k j ks (ap meets e)
      | inr (v, e) ↦
          ap (λ l. listed k (chosen l)) (entries_at-some E m j ks e) ∙ (elim (Bool-cases (p v)) [
            | inl y ↦
                ap (listed k) (chosen_cons_yes j v (entries_at E m ks) y)
                ∙ listed_cons k j (path j v) (chosen (entries_at E m ks))
                ∙ ap (λ b. ite (E.dec j k) true b) (listed-chosen m k ks)
                ∙ wanted-take m k j ks (ap meets e ∙ y)
            | inr n ↦
                ap (listed k) (chosen_cons_no j v (entries_at E m ks) n)
                ∙ listed-chosen m k ks
                ∙ wanted-skip m k j ks (ap meets e ∙ n)
          ])
    ]

    pub removed-chosen :
        (c : ResourceCache E) (k : Text)
        → E.M.get (remove_all E c (chosen (entries E c.metadata))).1.metadata k
          ≡ (if meets (E.M.get c.metadata k) then none else E.M.get c.metadata k)
    unfolding entries
    removed-chosen c k =
        remove_all-get c k (chosen (entries E c.metadata))
        ∙ ap (λ b. if b then none else E.M.get c.metadata k)
            (listed-chosen c.metadata k (E.M.keys c.metadata))
        ∙ in_map (E.M.get c.metadata k) (E.M.count-keys c.metadata k)
      where
        in_map :
            {n : ℕ} (o : Option CacheMetadata)
            → n ≡ present o
            → (if ltb 0 n && meets o then none else o) ≡ (if meets o then none else o)
        in_map none e = ground (arith, e)
        in_map (some m) e = ground (arith, e)
