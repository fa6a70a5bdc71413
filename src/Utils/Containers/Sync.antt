-- ===== src/Utils/Containers/Sync.antt =====
-- A map and an index of its keys that are kept side by side.
use hakimi_hub.Prelude.{
  refl, length-append, ◌⊎◌, inl, inr, ap, ◌++◌, present, length, ◌+◌, ◌≡◌, ap, some, List, [], ◌∷◌,
  ◌++◌, arith,
}
use mathlib.Core.Logic.{ite}
use hakimi_hub.Utils.Containers.{without, count, MapOps, LruOps}

pub snoc_cases :
    {A : Type 0} (l : List A) → (l ≡ []) ⊎ ((ks : List A) × (k : A) × (l ≡ ks ++ k ∷ []))
snoc_cases [] = inl refl
snoc_cases (x ∷ l) = elim (snoc_cases l) [
  | inl e ↦ inr ([], x, ap (λ t. x ∷ t) e)
  | inr (ks, k, e) ↦ inr (x ∷ ks, k, ap (λ t. x ∷ t) e)
]

module _ {K : Type 0} (dec : Discrete K) where
  pub count-without :
      (k j : K) (l : List K) → count dec j (without dec k l) ≡ ite (dec k j) 0 (count dec j l)
  unfolding count without
  count-without k j [] = ground arith
  count-without k j (x ∷ l) = ground (arith, count-without k j l)

  pub length-without : (k : K) (l : List K) → length (without dec k l) + count dec k l ≡ length l
  unfolding count without
  length-without k [] = omega arith
  length-without k (x ∷ l) = ground (arith, length-without k l)

  pub count-append :
      (j : K) (xs ys : List K) → count dec j (xs ++ ys) ≡ count dec j xs + count dec j ys
  unfolding count
  count-append j [] ys = omega arith
  count-append j (x ∷ xs) ys = ground (arith, count-append j xs ys)

  pub count_one : (j k : K) → count dec j (k ∷ []) ≡ ite (dec k j) 1 0
  unfolding count
  count_one j k = ground arith

  pub count_cons : (j k : K) (l : List K) → count dec j (k ∷ l) ≡ ite (dec k j) 1 0 + count dec j l
  unfolding count
  count_cons j k l = ground arith

  module _ {V : Type 0} (M : MapOps dec V) (L : LruOps dec) where
    -- Each key of the map stands once in the index, and no other key does.
    pub record InSync (m : M.Map) (i : L.Index) : Type 0 where
      pub counted : (k : K) → count dec k (L.order i) ≡ present (M.get m k)
      pub sized : M.len m ≡ length (L.order i)

    pub InSync-empty : InSync M.empty L.empty
    unfolding count
    InSync-empty = record {
      counted = λ k. ground (arith, L.order-empty, M.get-empty k);
      sized = omega (arith, M.len-empty, ap (length {A = K}) L.order-empty);
    }

    pub InSync-insert :
        (m : M.Map) (i : L.Index) (k : K) (v : V) → InSync m i → InSync (M.insert m k v) (L.put i k)
    InSync-insert m i k v h = record {
      counted = λ j. ground (
        arith,
        L.order-put i k,
        M.get-insert m k v j,
        count_cons j k (without dec k (L.order i)),
        count-without k j (L.order i),
        h.counted j,
      );
      sized = ground (
        arith,
        L.order-put i k,
        M.len-insert m k v,
        length-without k (L.order i),
        h.counted k,
        h.sized,
      );
    }

    pub InSync-remove :
        (m : M.Map) (i : L.Index) (k : K) → InSync m i → InSync (M.remove m k) (L.pop i k)
    InSync-remove m i k h = record {
      counted = λ j.
          ground (
            arith,
            L.order-pop i k,
            M.get-remove m k j,
            count-without k j (L.order i),
            h.counted j,
          );
      sized = ground (
        arith,
        L.order-pop i k,
        M.len-remove m k,
        length-without k (L.order i),
        h.counted k,
        h.sized,
      );
    }

    -- A key that is used again moves to the front of the index.
    pub InSync-touch :
        (m : M.Map) (i : L.Index) (k : K) {v w : V}
        → M.get m k ≡ some v
        → InSync m i
        → InSync (M.insert m k w) (L.put i k)
    InSync-touch m i k {w = w} e h = InSync-insert m i k w h

    -- The last key of the index leaves both containers.
    pub InSync-pop_lru :
        (m : M.Map) (i j : L.Index) (ks : List K) (k : K)
        → L.order i ≡ ks ++ k ∷ []
        → L.order j ≡ ks
        → InSync m i
        → InSync (M.remove m k) j
    InSync-pop_lru m i j ks k e f h = record {
      counted = λ x. ground (
        arith,
        e,
        f,
        h.counted x,
        h.counted k,
        count-append x ks (k ∷ []),
        count-append k ks (k ∷ []),
        count_one x k,
        count_one k k,
        M.get-remove m k x,
      );
      sized = ground (
        arith,
        e,
        f,
        h.sized,
        h.counted k,
        count-append k ks (k ∷ []),
        count_one k k,
        M.len-remove m k,
        length-append ks (k ∷ []),
      );
    }
