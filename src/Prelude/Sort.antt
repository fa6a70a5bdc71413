-- ===== src/Prelude/Sort.antt =====
-- The stable `sort_by_key` of the standard library, with a number as its key.
use hakimi_hub.Prelude.Tests.{leb, if◌then◌else◌, Bool-cases, leb→le}
use hakimi_hub.Prelude.Lists.{All, length}
use mathlib.Core.List.{Perm}
use mathlib.Core.List.Perm
use Prim.Native.Nat.{ℕ, suc, ◌+◌, ◌≤◌}
use mathlib.Core.Path.{◌≡◌, refl, sym, subst}
use mathlib.Core.Logic.{inl, inr}
use mathlib.Core.Bool.{true, false}
use mathlib.Core.List.{List, [], ◌∷◌, ◌++◌}
use native.Mathlib.Omega.{arith}

module _ {A : Type 0} where
  abbrev pub sum_by : (A → ℕ) → List A → ℕ
  sum_by f [] = 0
  sum_by f (x ∷ xs) = f x + sum_by f xs

  pub All-map : {P Q : A → Type 0} → ((x : A) → P x → Q x) → (xs : List A) → All P xs → All Q xs
  All-map f [] h = tt
  All-map f (x ∷ xs) (h, hs) = (f x h, All-map f xs hs)

  pub All-of : {P : A → Type 0} → ((x : A) → P x) → (xs : List A) → All P xs
  All-of f [] = tt
  All-of f (x ∷ xs) = (f x, All-of f xs)

module _ {A : Type 0} (key : A → ℕ) where
  -- An element goes in front of the first that is not smaller.
  unfoldable pub insert_by_key : A → List A → List A
  insert_by_key x [] = x ∷ []
  insert_by_key x (y ∷ ys) =
      let rest = insert_by_key x ys in if leb (key x) (key y) then x ∷ (y ∷ ys) else y ∷ rest

  unfoldable pub sort_by_key : List A → List A
  sort_by_key [] = []
  sort_by_key (x ∷ xs) = insert_by_key x (sort_by_key xs)

  -- Each element is followed by none with a smaller key.
  abbrev pub Sorted : List A → Type 0
  Sorted [] = Unit
  Sorted (x ∷ xs) = All (λ y. key x ≤ key y) xs × Sorted xs

  insert_first :
      (x y : A) (ys : List A) → leb (key x) (key y) ≡ true → insert_by_key x (y ∷ ys) ≡ x ∷ (y ∷ ys)
  unfolding insert_by_key
  insert_first x y ys e = ground (arith, e)

  insert_later :
      (x y : A) (ys : List A)
      → leb (key x) (key y) ≡ false
      → insert_by_key x (y ∷ ys) ≡ y ∷ insert_by_key x ys
  unfolding insert_by_key
  insert_later x y ys e = ground (arith, e)

  insert_nil : (x : A) → insert_by_key x [] ≡ x ∷ []
  unfolding insert_by_key
  insert_nil x = refl

  insert-All : (P : A → Type 0) (x : A) (ys : List A) → P x → All P ys → All P (insert_by_key x ys)
  insert-All P x [] p h = subst (λ l. All P l) (sym (insert_nil x)) (p, tt)
  insert-All P x (y ∷ ys) p (q, h) = elim (Bool-cases (leb (key x) (key y))) [
    | inl e ↦ subst (λ l. All P l) (sym (insert_first x y ys e)) (p, (q, h))
    | inr e ↦ subst (λ l. All P l) (sym (insert_later x y ys e)) (q, insert-All P x ys p h)
  ]

  pub sort-All : (P : A → Type 0) (xs : List A) → All P xs → All P (sort_by_key xs)
  unfolding sort_by_key
  sort-All P [] h = tt
  sort-All P (x ∷ xs) (p, h) = insert-All P x (sort_by_key xs) p (sort-All P xs h)

  larger_le : (x y : A) → leb (key x) (key y) ≡ false → key y ≤ key x
  larger_le x y e = ground arith

  le-All :
      (x y : A) (ys : List A)
      → key x ≤ key y
      → All (λ z. key y ≤ key z) ys
      → All (λ z. key x ≤ key z) ys
  le-All x y ys e h = All-map (λ z l. omega (arith, e, l)) ys h

  insert-Sorted : (x : A) (ys : List A) → Sorted ys → Sorted (insert_by_key x ys)
  insert-Sorted x [] h = subst (λ l. Sorted l) (sym (insert_nil x)) (tt, tt)
  insert-Sorted x (y ∷ ys) (h, s) = elim (Bool-cases (leb (key x) (key y))) [
    | inl e ↦
        let d = leb→le (key x) (key y) e in
        subst (λ l. Sorted l) (sym (insert_first x y ys e)) ((d, le-All x y ys d h), (h, s))
    | inr e ↦
        subst (λ l. Sorted l) (sym (insert_later x y ys e))
          (insert-All (λ z. key y ≤ key z) x ys (larger_le x y e) h, insert-Sorted x ys s)
  ]

  pub sort-Sorted : (xs : List A) → Sorted (sort_by_key xs)
  unfolding sort_by_key
  sort-Sorted [] = tt
  sort-Sorted (x ∷ xs) = insert-Sorted x (sort_by_key xs) (sort-Sorted xs)

  insert-Perm : (x : A) (ys : List A) → Perm (insert_by_key x ys) (x ∷ ys)
  insert-Perm x [] = subst (λ l. Perm l (x ∷ [])) (sym (insert_nil x)) (Perm.refl (x ∷ []))
  insert-Perm x (y ∷ ys) = elim (Bool-cases (leb (key x) (key y))) [
    | inl e ↦
        subst (λ l. Perm l (x ∷ y ∷ ys)) (sym (insert_first x y ys e)) (Perm.refl (x ∷ y ∷ ys))
    | inr e ↦
        subst (λ l. Perm l (x ∷ y ∷ ys)) (sym (insert_later x y ys e))
          (Perm.trans (Perm.cons y (insert-Perm x ys)) (Perm.swap x y ys))
  ]

  pub sort-Perm : (xs : List A) → Perm (sort_by_key xs) xs
  unfolding sort_by_key
  sort-Perm [] = Perm.refl []
  sort-Perm (x ∷ xs) = Perm.trans (insert-Perm x (sort_by_key xs)) (Perm.cons x (sort-Perm xs))

  length-insert : (x : A) (ys : List A) → length (insert_by_key x ys) ≡ suc (length ys)
  unfolding insert_by_key
  length-insert x [] = refl
  length-insert x (y ∷ ys) = ground (arith, length-insert x ys)

  pub length-sort : (xs : List A) → length (sort_by_key xs) ≡ length xs
  unfolding sort_by_key
  length-sort [] = refl
  length-sort (x ∷ xs) = omega (arith, length-insert x (sort_by_key xs), length-sort xs)

  insert-sum : (f : A → ℕ) (x : A) (ys : List A) → sum_by f (insert_by_key x ys) ≡ f x + sum_by f ys
  unfolding insert_by_key
  insert-sum f x [] = refl
  insert-sum f x (y ∷ ys) = ground (arith, insert-sum f x ys)

  pub sort-sum : (f : A → ℕ) (xs : List A) → sum_by f (sort_by_key xs) ≡ sum_by f xs
  unfolding sort_by_key
  sort-sum f [] = refl
  sort-sum f (x ∷ xs) = omega (arith, insert-sum f x (sort_by_key xs), sort-sum f xs)

  -- In a sorted list, nothing of a front is larger than anything behind it.
  pub Sorted-append :
      (xs ys : List A) → Sorted (xs ++ ys) → All (λ x. All (λ y. key x ≤ key y) ys) xs
  Sorted-append [] ys h = tt
  Sorted-append (x ∷ xs) ys (h, s) = (behind xs h, Sorted-append xs ys s)
    where
      behind : (zs : List A) → All (λ y. key x ≤ key y) (zs ++ ys) → All (λ y. key x ≤ key y) ys
      behind [] g = g
      behind (z ∷ zs) (g, gs) = behind zs gs
