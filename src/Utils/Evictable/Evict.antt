-- ===== src/Utils/Evictable/Evict.antt =====
-- The eviction by use: what the loop over the tail of the index leaves.
use hakimi_hub.Prelude.{
  ltb, ◌==◌, Bool-cases, length, take, length-append, length-take, ℕ, zero, suc, ◌-◌, ◌≤◌, ◌<◌, ◌≡◌,
  refl, sym, ap, ◌∙◌, ◌⊎◌, inl, inr, false, some, List, [], ◌∷◌, ◌++◌, arith,
}
use mathlib.Core.Logic.{ite}
use hakimi_hub.Utils.Containers.{without, count, MapOps, LruOps}
use hakimi_hub.Utils.Containers.Sync.{
  InSync-pop_lru, snoc_cases, InSync, count-append, count_one, InSync-insert,
}
use hakimi_hub.Utils.Evictable.{
  Entry, EvictableCache, pop_loop, pop_excess, evict_lru_if_needed, store, insert, len,
}

take_prefix : {A : Type 0} (n : ℕ) (xs ys : List A) → n ≤ length xs → take n (xs ++ ys) ≡ take n xs
take_prefix zero xs ys h = refl
take_prefix (suc n) [] ys h = absurd (omega (arith, h))
take_prefix (suc n) (x ∷ xs) ys h = ap (λ t. x ∷ t) (take_prefix n xs ys (omega (arith, h)))

take_all : {A : Type 0} (xs : List A) → take (length xs) xs ≡ xs
take_all [] = refl
take_all (x ∷ xs) = ap (λ t. x ∷ t) (take_all xs)

module _ {K V : Type 0} (dec : Discrete K) (M : MapOps dec (Entry V)) (L : LruOps dec) where
  -- What `n` rounds leave: the containers in step, the front of the index, and the values of the
  -- keys in it.
  record Popped (n : ℕ) (m : M.Map) (i : L.Index) (r : M.Map × L.Index) : Type 0 where
    synced : InSync dec M L r.0 r.1
    order : L.order r.1 ≡ take (length (L.order i) - n) (L.order i)
    kept : (k : K) → 0 < count dec k (L.order r.1) → M.get r.0 k ≡ M.get m k

  Popped-zero : (m : M.Map) (i : L.Index) → InSync dec M L m i → Popped zero m i (m, i)
  Popped-zero m i h = record {
    synced = h;
    order = sym (ap (λ n. take n (L.order i)) (omega arith) ∙ take_all (L.order i));
    kept = λ k p. refl;
  }

  count-take_le : (k : K) (n : ℕ) (l : List K) → count dec k (take n l) ≤ count dec k l
  unfolding count
  count-take_le k zero l = omega arith
  count-take_le k (suc n) [] = omega arith
  count-take_le k (suc n) (x ∷ l) = ground (arith, count-take_le k n l)

  Popped-suc :
      (n : ℕ) (m : M.Map) (i j : L.Index) (ks : List K) (k : K) (r : M.Map × L.Index)
      → InSync dec M L m i
      → n ≤ length ks
      → L.order i ≡ ks ++ k ∷ []
      → L.order j ≡ ks
      → Popped n (M.remove m k) j r
      → Popped (suc n) m i r
  Popped-suc n m i j ks k r hs hn e f p =
      let len_eq : length (L.order i) - suc n ≡ length ks - n =
        ground (arith, e, length-append ks (k ∷ [])) in
      let order_eq : L.order r.1 ≡ take (length ks - n) ks =
        p.order ∙ ap (λ l. take (length l - n) l) f in
      record {
        synced = p.synced;
        order =
            order_eq
            ∙ sym (take_prefix (length ks - n) ks (k ∷ []) (omega arith))
            ∙ ap (λ l. take (length ks - n) l) (sym e)
            ∙ ap (λ t. take t (L.order i)) (sym len_eq);
        kept = λ x q.
            let below : count dec x (L.order r.1) ≤ count dec x ks =
              rw order_eq (count-take_le x (length ks - n) ks) in
            ground (
              arith,
              p.kept x q,
              M.get-remove m k x,
              below,
              e,
              hs.counted x,
              hs.counted k,
              count-append dec k ks (k ∷ []),
              count_one dec k k,
            );
      }

  pop_loop-some :
      (n : ℕ) (m : M.Map) (i j : L.Index) (k : K)
      → L.pop_lru i ≡ some (k, j)
      → pop_loop dec M L (suc n) m i ≡ pop_loop dec M L n (M.remove m k) j
  unfolding pop_loop
  pop_loop-some n m i j k e = ground (arith, e)

  pop_loop-Popped :
      (n : ℕ) (m : M.Map) (i : L.Index)
      → InSync dec M L m i
      → n ≤ length (L.order i)
      → Popped n m i (pop_loop dec M L n m i)
  pop_loop-Popped zero m i h q = unfold pop_loop in Popped-zero m i h
  pop_loop-Popped (suc n) m i h q = elim (snoc_cases (L.order i)) [
    | inl e ↦ absurd (ground (arith, q, e))
    | inr (ks, k, e) ↦
        let r = L.pop_lru-last i ks k e in
        let hn : n ≤ length ks = ground (arith, q, e, length-append ks (k ∷ [])) in
        rw (pop_loop-some n m i r.0 k r.1) (
          Popped-suc n m i r.0 ks k (pop_loop dec M L n (M.remove m k) r.0) h hn e r.2 (
            pop_loop-Popped n (M.remove m k) r.0 (InSync-pop_lru dec M L m i r.0 ks k e r.2 h)
              (ground (arith, hn, r.2))))
  ]

  abbrev pub Synced : EvictableCache dec M L → Type 0
  Synced c = InSync dec M L c.inner c.lru_index

  pub Synced-store :
      (c : EvictableCache dec M L) (k : K) (v : V) (now : ℕ)
      → Synced c
      → Synced (store dec M L c k v now)
  unfolding store
  Synced-store c k v now h = InSync-insert dec M L c.inner c.lru_index k _ h

  -- What an eviction does to a cache in step: it leaves it alone, or cuts the index to capacity.
  evict_lru_if_needed-cases :
      (c : EvictableCache dec M L) (now_ns : ℕ)
      → Synced c
      → (evict_lru_if_needed dec M L c now_ns ≡ c)
        ⊎ ((c.max_entries < length (L.order c.lru_index))
            × Popped (length (L.order c.lru_index) - c.max_entries) c.inner c.lru_index (
              (evict_lru_if_needed dec M L c now_ns).inner,
              (evict_lru_if_needed dec M L c now_ns).lru_index,
            ))
  unfolding evict_lru_if_needed pop_excess len
  evict_lru_if_needed-cases c now_ns h = elim (Bool-cases ((M.len c.inner - c.max_entries) == 0)) [
    | inl e ↦ inl (rw e)
    | inr e ↦ elim (Bool-cases (ltb (now_ns - c.last_evict_ns) 1000000)) [
      | inl f ↦ inl (ground (arith, e, f))
      | inr f ↦ inr (
          rw (e, f, h.sized)
            (
              ground (arith, e, h.sized),
              pop_loop-Popped (length (L.order c.lru_index) - c.max_entries) c.inner c.lru_index h
                  (omega arith),
            ))
    ]
  ]

  pub Synced-evict_lru_if_needed :
      (c : EvictableCache dec M L) (now_ns : ℕ)
      → Synced c
      → Synced (evict_lru_if_needed dec M L c now_ns)
  Synced-evict_lru_if_needed c now_ns h = elim (evict_lru_if_needed-cases c now_ns h) [
    | inl e ↦ rw e h
    | inr p ↦ p.1.synced
  ]

  take_large : {A : Type 0} (n : ℕ) (xs : List A) → length xs ≤ n → take n xs ≡ xs
  take_large zero [] h = refl
  take_large zero (x ∷ xs) h = absurd (omega (arith, h))
  take_large (suc n) [] h = refl
  take_large (suc n) (x ∷ xs) h = ap (λ t. x ∷ t) (take_large n xs (omega (arith, h)))

  evict-order :
      (c : EvictableCache dec M L) (now_ns : ℕ)
      → Synced c
      → 1000000 ≤ now_ns - c.last_evict_ns
      → L.order (evict_lru_if_needed dec M L c now_ns).lru_index
        ≡ take c.max_entries (L.order c.lru_index)
  unfolding evict_lru_if_needed pop_excess len
  evict-order c now_ns h q = elim (Bool-cases ((M.len c.inner - c.max_entries) == 0)) [
    | inl e ↦
        rw e (sym (take_large c.max_entries (L.order c.lru_index) (ground (arith, e, h.sized))))
    | inr e ↦
        let g : ltb (now_ns - c.last_evict_ns) 1000000 ≡ false = ground (arith, q) in
        rw (e, g, h.sized)
          ((pop_loop-Popped (length (L.order c.lru_index) - c.max_entries) c.inner c.lru_index h
              (omega arith)).order
            ∙ ap (λ n. take n (L.order c.lru_index)) (ground (arith, e, h.sized)))
  ]

  pub evict-kept :
      (c : EvictableCache dec M L) (now_ns : ℕ) (j : K)
      → Synced c
      → 0 < count dec j (L.order (evict_lru_if_needed dec M L c now_ns).lru_index)
      → M.get (evict_lru_if_needed dec M L c now_ns).inner j ≡ M.get c.inner j
  evict-kept c now_ns j h q = elim (evict_lru_if_needed-cases c now_ns h) [
    | inl e ↦ ap (λ d. M.get d.inner j) e
    | inr p ↦ p.1.kept j q
  ]

  -- Where the map and the index agree and a millisecond has passed since the last eviction, an
  -- insertion puts its key in front of the others in the order of their use and keeps the first
  -- `max_entries` keys of that list, and the map has no more entries than that.
  pub insert-lru :
      (c : EvictableCache dec M L) (k : K) (v : V) (now now_ns : ℕ)
      → Synced c
      → 1000000 ≤ now_ns - c.last_evict_ns
      → (L.order (insert dec M L c k v now now_ns).lru_index
          ≡ take c.max_entries (k ∷ without dec k (L.order c.lru_index)))
        × (len dec M L (insert dec M L c k v now now_ns) ≤ c.max_entries)
  unfolding insert store len
  insert-lru c k v now now_ns h q =
      let d = store dec M L c k v now in
      let hd = Synced-store c k v now h in
      let o = evict-order d now_ns hd q in
      (
        o ∙ ap (λ l. take c.max_entries l) (L.order-put c.lru_index k),
        ground (
          arith,
          (Synced-evict_lru_if_needed d now_ns hd).sized,
          o,
          length-take c.max_entries (L.order d.lru_index),
        ),
      )

  -- Where the map and the index agree, a key that is in the index after an insertion has the entry
  -- that the insertion gives it, or, if it is another key, the entry that it had.
  pub insert-get :
      (c : EvictableCache dec M L) (k j : K) (v : V) (now now_ns : ℕ)
      → Synced c
      → 0 < count dec j (L.order (insert dec M L c k v now now_ns).lru_index)
      → M.get (insert dec M L c k v now now_ns).inner j
        ≡ ite
            (dec k j)
            (some (record { value = v; last_accessed = now; created_at = now }))
            (M.get c.inner j)
  unfolding insert store
  insert-get c k j v now now_ns h p =
      evict-kept (store dec M L c k v now) now_ns j (Synced-store c k v now h) p
      ∙ M.get-insert c.inner k (record { value = v; last_accessed = now; created_at = now }) j
