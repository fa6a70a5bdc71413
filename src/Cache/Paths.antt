-- ===== src/Cache/Paths.antt =====
-- src/cache/resource_cache.rs: no two keys share a file, and none has the file of the index.
use hakimi_hub.Prelude.{
  leb, Bool-cases, length, take, drop, take-append-drop, ◌≡◌, sym, ap, ◌∙◌, ◌≢◌, inl, inr, true,
  false, [], ◌∷◌, ◌++◌, arith,
}
use hakimi_hub.Prelude.Str.{Text, codes}
use hakimi_hub.Cache.Files.{FilePath}
use hakimi_hub.Cache.Store.{Platform, ResourceCache, rel_path, get_file_path}

append_cancel : (p q r : FilePath) → p ++ q ≡ p ++ r → q ≡ r
append_cancel [] q r e = e
append_cancel (x ∷ p) q r e = append_cancel p q r (cc e)

take-drop_two : (j k : Text) → take 2 j ≡ take 2 k → drop 2 j ≡ drop 2 k → j ≡ k
take-drop_two j k e f =
    sym (take-append-drop 2 j)
    ∙ ap (λ t. t ++ drop 2 j) e
    ∙ ap (λ t. take 2 k ++ t) f
    ∙ take-append-drop 2 k

rel_path_long : (k : Text) → leb 2 (length k) ≡ true → rel_path k ≡ take 2 k ∷ (drop 2 k ∷ [])
unfolding rel_path
rel_path_long k e = ground (arith, e)

rel_path_short : (k : Text) → leb 2 (length k) ≡ false → rel_path k ≡ k ∷ []
unfolding rel_path
rel_path_short k e = ground (arith, e)

pub rel_path-injective : (j k : Text) → rel_path j ≡ rel_path k → j ≡ k
rel_path-injective j k e = elim (Bool-cases (leb 2 (length j))) [
  | inl f ↦ elim (Bool-cases (leb 2 (length k))) [
    | inl g ↦
        let h = sym (rel_path_long j f) ∙ e ∙ rel_path_long k g in take-drop_two j k (cc h) (cc h)
    | inr g ↦ absurd (cc (sym (rel_path_long j f) ∙ e ∙ rel_path_short k g))
  ]
  | inr f ↦ elim (Bool-cases (leb 2 (length k))) [
    | inl g ↦ absurd (cc (sym (rel_path_short j f) ∙ e ∙ rel_path_long k g))
    | inr g ↦ let h = sym (rel_path_short j f) ∙ e ∙ rel_path_short k g in cc h
  ]
]

abbrev pub index_name : Text
index_name = codes "metadata.json"

rel_path-ne-index : (k : Text) → rel_path k ≢ index_name ∷ []
rel_path-ne-index k e = elim (Bool-cases (leb 2 (length k))) [
  | inl f ↦ cc (sym (rel_path_long k f) ∙ e)
  | inr f ↦ index_long k (cc (sym (rel_path_short k f) ∙ e)) f
]
  where
    index_long : (s : Text) → s ≡ index_name → leb 2 (length s) ≡ false → ⊥
    index_long s h g = cc (sym (ap (λ t. leb 2 (length t)) h) ∙ g)

module _ (E : Platform) where
  pub get_file_path-injective :
      (c : ResourceCache E) (j k : Text) → get_file_path E c j ≡ get_file_path E c k → j ≡ k
  unfolding get_file_path
  get_file_path-injective c j k e =
      rel_path-injective j k (append_cancel c.cache_dir (rel_path j) (rel_path k) e)

  pub get_file_path-ne :
      (c : ResourceCache E) (j k : Text) → j ≢ k → get_file_path E c j ≢ get_file_path E c k
  get_file_path-ne c j k h e = h (get_file_path-injective c j k e)

  pub get_file_path-ne-index :
      (c : ResourceCache E) (k : Text) → c.cache_dir ++ (index_name ∷ []) ≢ get_file_path E c k
  unfolding get_file_path
  get_file_path-ne-index c k e =
      rel_path-ne-index k (sym (append_cancel c.cache_dir (index_name ∷ []) (rel_path k) e))
