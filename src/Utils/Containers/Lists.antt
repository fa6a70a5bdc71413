-- ===== src/Utils/Containers/Lists.antt =====
-- Lists as both containers: the interfaces can be met.
use hakimi_hub.Prelude.{
  present, ℕ, ◌+◌, ◌-◌, ◌≤◌, ◌≡◌, refl, ap, ◌∙◌, Option, none, some, List, [], ◌∷◌, ◌++◌, arith,
}
use mathlib.Core.Logic.{ite}
use hakimi_hub.Utils.Containers.{without, count, MapOps, LruOps}
use hakimi_hub.Utils.Containers.Sync.{count-without}

module _ {K V : Type 0} (dec : Discrete K) where
  unfoldable pub get : List (K × V) → K → Option V
  get [] k = none
  get ((j, v) ∷ m) k = let rest = get m k in ite (dec j k) (some v) rest

  unfoldable pub remove : List (K × V) → K → List (K × V)
  remove [] k = []
  remove ((j, v) ∷ m) k = let rest = remove m k in ite (dec j k) rest ((j, v) ∷ rest)

  pub get-remove : (m : List (K × V)) (k j : K) → get (remove m k) j ≡ ite (dec k j) none (get m j)
  unfolding get remove
  get-remove [] k j = ground arith
  get-remove ((x, v) ∷ m) k j = ground (arith, get-remove m k j)

  -- Only the first entry of a key counts.
  unfoldable pub distinct : List (K × V) → ℕ
  distinct [] = 0
  distinct ((j, v) ∷ m) = distinct m + (1 - present (get m j))

  unfoldable pub keys : List (K × V) → List K
  keys [] = []
  keys ((j, v) ∷ m) = j ∷ without dec j (keys m)

  pub get_cons :
      (m : List (K × V)) (k : K) (v : V) (j : K)
      → get ((k, v) ∷ m) j ≡ ite (dec k j) (some v) (get m j)
  unfolding get
  get_cons m k v j = ground arith

  present_le : (o : Option V) → present o ≤ 1
  present_le none = omega arith
  present_le (some v) = omega arith

  pub distinct_cons :
      (m : List (K × V)) (k : K) (v : V)
      → distinct ((k, v) ∷ m) + present (get m k) ≡ distinct m + 1
  unfolding distinct
  distinct_cons m k v = omega (arith, present_le (get m k))

  pub distinct-remove :
      (m : List (K × V)) (k : K) → distinct (remove m k) + present (get m k) ≡ distinct m
  unfolding distinct remove get
  distinct-remove [] k = omega arith
  distinct-remove ((x, v) ∷ m) k =
      ground
        (arith, distinct-remove m k, get-remove m k x, present_le (get m k), present_le (get m x))

  pub count-keys : (m : List (K × V)) (k : K) → count dec k (keys m) ≡ present (get m k)
  unfolding count keys get
  count-keys [] k = omega arith
  count-keys ((x, v) ∷ m) k = ground (arith, count-keys m k, count-without dec x k (keys m))

  unfoldable pub list_map : MapOps dec V
  unfolding get distinct
  list_map = record {
    Map = List (K × V);
    empty = [];
    get = get;
    insert = λ m k v. (k, v) ∷ m;
    remove = remove;
    len = distinct;
    keys = keys;
    get-empty = λ k. refl;
    get-insert = get_cons;
    get-remove = get-remove;
    len-empty = refl;
    len-insert = distinct_cons;
    len-remove = distinct-remove;
    count-keys = count-keys;
  }

module _ {K : Type 0} (dec : Discrete K) where
  unfoldable pub pop_last : List K → Option (K × List K)
  pop_last [] = none
  pop_last (x ∷ xs) = elim (pop_last xs) [ none ↦ some (x, []) | some (k, ys) ↦ some (k, x ∷ ys) ]

  pub pop_last-append : (ks : List K) (k : K) → pop_last (ks ++ k ∷ []) ≡ some (k, ks)
  unfolding pop_last
  pop_last-append [] k = refl
  pop_last-append (x ∷ ks) k = ground (arith, pop_last-append ks k)

  pub pop_last_nil : (i : List K) → i ≡ [] → pop_last i ≡ none
  unfolding pop_last
  pop_last_nil [] e = refl
  pop_last_nil (x ∷ i) e = absurd (cc e)

  abbrev pub list_index : LruOps dec
  list_index = record {
    Index = List K;
    empty = [];
    put = λ i k. k ∷ without dec k i;
    pop = λ i k. without dec k i;
    pop_lru = pop_last;
    order = λ i. i;
    order-empty = refl;
    order-put = λ i k. refl;
    order-pop = λ i k. refl;
    pop_lru-nil = λ i e. pop_last_nil i e;
    pop_lru-last = λ i ks k e. (ks, ap pop_last e ∙ pop_last-append ks k, refl);
  }
