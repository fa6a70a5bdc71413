-- ===== src/Utils/Evictable/Ttl.antt =====
-- Lookups: what they answer, and when an entry expires.
use hakimi_hub.Prelude.{
  ltb, if◌then◌else◌, Bool-cases, Option-cases, ℕ, ◌-◌, ◌≡◌, ◌≢◌, inl, inr, none, some, ◌∷◌, arith,
}
use hakimi_hub.Utils.Containers.{without, MapOps, LruOps}
use hakimi_hub.Utils.Evictable.{Entry, EvictableCache, get, is_expired, touched, touch, discard}

module _ {K V : Type 0} (dec : Discrete K) (M : MapOps dec (Entry V)) (L : LruOps dec) where
  -- A lookup under a lifetime of an entry that is older answers nothing and takes the entry out of
  -- the map and of the index; of one that is not, it answers the value, notes the access, keeps
  -- the creation time, and moves the key to the front of the index.
  pub get-ttl :
      (c : EvictableCache dec M L) (k : K) (e : Entry V) (ttl now later : ℕ)
      → c.ttl ≡ some ttl
      → M.get c.inner k ≡ some e
      → ((get dec M L c k now later).0
          ≡ (if ltb ttl (later - e.created_at) then none else some e.value))
        × (M.get (get dec M L c k now later).1.inner k ≡ (
            if ltb ttl (later - e.created_at)
            then none
            else some (record e { last_accessed = now })))
        × (L.order (get dec M L c k now later).1.lru_index ≡ (
            if ltb ttl (later - e.created_at)
            then without dec k (L.order c.lru_index)
            else k ∷ without dec k (L.order c.lru_index)))
  unfolding get is_expired touch discard touched
  get-ttl c k e ttl now later ht he = (
    ground (arith, ht, he),
    ground (arith, ht, he, M.get-insert c.inner k (touched e now) k, M.get-remove c.inner k k),
    ground (arith, ht, he, L.order-put c.lru_index k, L.order-pop c.lru_index k),
  )

  -- A lookup leaves the entries of the other keys as they are.
  pub get-other :
      (c : EvictableCache dec M L) (k j : K) (now later : ℕ)
      → j ≢ k
      → M.get (get dec M L c k now later).1.inner j ≡ M.get c.inner j
  unfolding get touch discard
  get-other c k j now later ne = elim (Option-cases (M.get c.inner k)) [
    | inl f ↦ ground (arith, f)
    | inr (e, f) ↦ elim (Bool-cases (is_expired c.ttl e later)) [
      | inl b ↦ ground (arith, f, b, ne, M.get-remove c.inner k j)
      | inr b ↦ ground (arith, f, b, ne, M.get-insert c.inner k (touched e now) j)
    ]
  ]
