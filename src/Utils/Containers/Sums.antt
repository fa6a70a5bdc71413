-- ===== src/Utils/Containers/Sums.antt =====
-- Sums over the keys of a map do not depend on the order of its iteration.
use hakimi_hub.Prelude.{
  Option-cases, ℕ, suc, ◌+◌, ◌-◌, ◌<◌, ◌≡◌, refl, sym, ap, ◌∙◌, inl, inr, Option, none, some, List,
  [], ◌∷◌, arith,
}
use mathlib.Core.Logic.{ite}
use hakimi_hub.Utils.Containers.Sync.{count_cons}
use hakimi_hub.Prelude.Sort.{sum_by}
use hakimi_hub.Utils.Containers.{count, MapOps}

module _ {K : Type 0} (dec : Discrete K) where
  -- The list without the first occurrence of a key.
  unfoldable erase : K → List K → List K
  erase k [] = []
  erase k (j ∷ l) = let rest = erase k l in ite (dec j k) l (j ∷ rest)

  count-erase : (k j : K) (l : List K) → count dec j (erase k l) ≡ count dec j l - ite (dec k j) 1 0
  unfolding erase count
  count-erase k j [] = ground arith
  count-erase k j (x ∷ l) = ground (arith, count-erase k j l)

  sum-erase :
      (f : K → ℕ) (k : K) (l : List K) → 0 < count dec k l → sum_by f l ≡ f k + sum_by f (erase k l)
  unfolding erase count
  sum-erase f k [] h = absurd (omega (arith, h))
  sum-erase f k (x ∷ l) h =
      elim (dec x k)
          as (λ d.
            0 < ite d (suc (count dec k l)) (count dec k l)
            → f x + sum_by f l ≡ f k + sum_by f (ite d l (x ∷ erase k l))) [
              | yes e ↦ λ g. ap (λ y. f y + sum_by f l) e
              | no n ↦ λ g. omega (arith, sum-erase f k l g)
            ]
        h

  count_nil : (k : K) → count dec k [] ≡ 0
  unfolding count
  count_nil k = refl

  no_keys : (l : List K) → ((k : K) → count dec k l ≡ 0) → l ≡ []
  unfolding count
  no_keys [] h = refl
  no_keys (x ∷ l) h = absurd (head_counted x l (h x))
    where
      head_counted : (x : K) (l : List K) → count dec x (x ∷ l) ≡ 0 → ⊥
      head_counted x l e = ground (arith, e)

  -- Two lists with the same counts have the same sums.
  pub sum-count :
      (f : K → ℕ) (l m : List K)
      → ((k : K) → count dec k l ≡ count dec k m)
      → sum_by f l ≡ sum_by f m
  sum-count f [] m h = ap (sum_by f) (sym (no_keys m (λ k. sym (h k) ∙ count_nil k)))
  sum-count f (x ∷ l) m h =
      sum-head f x l m (head_in x l m (h x))
        (sum-count f l (erase x m) (λ k. tail_counts x k l m (h k)))
    where
      head_in : (x : K) (l m : List K) → count dec x (x ∷ l) ≡ count dec x m → 0 < count dec x m
      head_in x l m e = ground (arith, e, count_cons dec x x l)

      tail_counts :
          (x k : K) (l m : List K)
          → count dec k (x ∷ l) ≡ count dec k m
          → count dec k l ≡ count dec k (erase x m)
      tail_counts x k l m e = ground (arith, e, count_cons dec k x l, count-erase x k m)

      sum-head :
          (f : K → ℕ) (x : K) (l m : List K)
          → 0 < count dec x m
          → sum_by f l ≡ sum_by f (erase x m)
          → f x + sum_by f l ≡ sum_by f m
      sum-head f x l m c e = omega (arith, e, sum-erase f x m c)

  -- Two functions that agree on a list have the same sum over it.
  pub sum-agree :
      (f g : K → ℕ) (l : List K)
      → ((k : K) → 0 < count dec k l → f k ≡ g k)
      → sum_by f l ≡ sum_by g l
  sum-agree f g [] h = refl
  sum-agree f g (x ∷ l) h =
      omega (arith, h x (counted_head x l), sum-agree f g l (λ k p. h k (counted_tail k x l p)))
    where
      counted_head : (x : K) (l : List K) → 0 < count dec x (x ∷ l)
      counted_head x l = ground (arith, count_cons dec x x l)

      counted_tail : (k x : K) (l : List K) → 0 < count dec k l → 0 < count dec k (x ∷ l)
      counted_tail k x l p = ground (arith, p, count_cons dec k x l)

  module _ {V : Type 0} (M : MapOps dec V) (size : V → ℕ) where
    abbrev pub size_or : Option V → ℕ
    size_or none = 0
    size_or (some v) = size v

    unfoldable pub total : M.Map → ℕ
    total m = sum_by (λ k. size_or (M.get m k)) (M.keys m)

    kept_sizes :
        (m : M.Map) (k : K)
        → total (M.remove m k) ≡ sum_by (λ j. size_or (M.get m j)) (M.keys (M.remove m k))
    unfolding total
    kept_sizes m k =
        sum-agree (λ j. size_or (M.get (M.remove m k) j)) (λ j. size_or (M.get m j))
          (M.keys (M.remove m k)) (λ j p. ap size_or (kept j p))
      where
        kept :
            (j : K) → 0 < count dec j (M.keys (M.remove m k)) → M.get (M.remove m k) j ≡ M.get m j
        kept j p = ground (arith, M.count-keys (M.remove m k) j, M.get-remove m k j, p)

    keys-remove_none :
        (m : M.Map) (k j : K)
        → M.get m k ≡ none
        → count dec j (M.keys (M.remove m k)) ≡ count dec j (M.keys m)
    keys-remove_none m k j e =
        ground (arith, M.count-keys (M.remove m k) j, M.count-keys m j, M.get-remove m k j, e)

    keys-remove_some :
        (m : M.Map) (k j : K) (v : V)
        → M.get m k ≡ some v
        → count dec j (k ∷ M.keys (M.remove m k)) ≡ count dec j (M.keys m)
    keys-remove_some m k j v e = ground (
      arith,
      M.count-keys (M.remove m k) j,
      M.count-keys m j,
      M.get-remove m k j,
      count_cons dec j k (M.keys (M.remove m k)),
      e,
    )

    -- A removal takes the size of its entry off the total.
    pub total-remove : (m : M.Map) (k : K) → total (M.remove m k) + size_or (M.get m k) ≡ total m
    unfolding total
    total-remove m k = elim (Option-cases (M.get m k)) [
      | inl e ↦ omega (
        arith,
        kept_sizes m k,
        ap size_or e,
        sum-count (λ i. size_or (M.get m i)) (M.keys (M.remove m k)) (M.keys m)
            (λ j. keys-remove_none m k j e),
      )
      | inr (v, e) ↦ omega (
        arith,
        kept_sizes m k,
        sum-count (λ i. size_or (M.get m i)) (k ∷ M.keys (M.remove m k)) (M.keys m)
            (λ j. keys-remove_some m k j v e),
      )
    ]
