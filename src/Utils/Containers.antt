-- ===== src/Utils/Containers.antt =====
-- The containers of other crates that the program keeps side by side: `dashmap::DashMap` and
-- `lru::LruCache` (with `()` as its values), each an interface with the documented behaviour.
use hakimi_hub.Prelude.{
  ltb, leb, ◌==◌, if◌then◌else◌, ltb→lt, lt→ltb, leb→le, le→leb, ==_iff, ==_refl, Bool-cases,
  Option-cases, &&-elim, &&-intro, ||-elim, is_some, present, length, get_elem?, take, drop,
  is_empty, any, all, select, All, length-append, take-append-drop, length-take, length-drop,
  take-length_append, drop-length_append, All-append, ℕ, zero, suc, ◌+◌, ◌-◌, ◌*◌, ◌/◌, ◌%◌, ◌^◌,
  ◌≤◌, ◌<◌, ◌≡◌, refl, sym, ap, ◌∙◌, ◌≢◌, ◌↔◌, ◌⊎◌, inl, inr, Bool, true, false, not, ◌&&◌, ◌||◌,
  Option, none, some, List, [], ◌∷◌, ◌++◌, map, arith,
}
use hakimi_hub.Prelude.Str.{Text, codes}
use hakimi_hub.Prelude.Str
use mathlib.Core.Option
use mathlib.Core.List
pub mod Sync
pub mod Lists
pub mod Sums
use mathlib.Core.Logic.{ite}

module _ {K : Type 0} (dec : Discrete K) where
  -- The list without a key, wherever it stands.
  unfoldable pub without : K → List K → List K
  without k [] = []
  without k (j ∷ l) = let rest = without k l in ite (dec j k) rest (j ∷ rest)

  -- How often a key stands in a list.
  unfoldable pub count : K → List K → ℕ
  count k [] = 0
  count k (j ∷ l) = let n = count k l in ite (dec j k) (suc n) n

  -- `DashMap<K, V>`: one value at most for a key; `keys` is the order in which an iteration meets
  -- the entries, each once.
  pub record MapOps (V : Type 0) : Type 1 where
    pub Map : Type 0
    pub empty : Map
    pub get : Map → K → Option V
    pub insert : Map → K → V → Map
    pub remove : Map → K → Map
    pub len : Map → ℕ
    pub keys : Map → List K
    pub get-empty : (k : K) → get empty k ≡ none
    pub get-insert :
        (m : Map) (k : K) (v : V) (j : K) → get (insert m k v) j ≡ ite (dec k j) (some v) (get m j)
    pub get-remove : (m : Map) (k j : K) → get (remove m k) j ≡ ite (dec k j) none (get m j)
    pub len-empty : len empty ≡ 0
    pub len-insert : (m : Map) (k : K) (v : V) → len (insert m k v) + present (get m k) ≡ len m + 1
    pub len-remove : (m : Map) (k : K) → len (remove m k) + present (get m k) ≡ len m
    pub count-keys : (m : Map) (k : K) → count k (keys m) ≡ present (get m k)

  -- `LruCache<K, ()>` without a bound: `order` lists the keys, the one used last in front.
  pub record LruOps : Type 1 where
    pub Index : Type 0
    pub empty : Index
    pub put : Index → K → Index
    pub pop : Index → K → Index
    pub pop_lru : Index → Option (K × Index)
    pub order : Index → List K
    pub order-empty : order empty ≡ []
    pub order-put : (i : Index) (k : K) → order (put i k) ≡ k ∷ without k (order i)
    pub order-pop : (i : Index) (k : K) → order (pop i k) ≡ without k (order i)
    pub pop_lru-nil : (i : Index) → order i ≡ [] → pop_lru i ≡ none
    pub pop_lru-last :
        (i : Index) (ks : List K) (k : K)
        → order i ≡ ks ++ k ∷ []
        → (j : Index) × (pop_lru i ≡ some (k, j)) × (order j ≡ ks)
