-- ===== src/Dns/Pool/Reuse.antt =====
-- The pool stays in step with its index and within its bound, and gives back what it was given.
use hakimi_hub.Prelude.{
  ltb, leb, ◌==◌, if◌then◌else◌, lt→ltb, Bool-cases, Option-cases, Option, zero, is_some,
  length-append, ℕ, suc, ◌+◌, ◌-◌, ◌≤◌, ◌<◌, ◌≡◌, refl, inl, inr, true, false, none, some, [], ◌∷◌,
  arith,
}
use hakimi_hub.Prelude.Str.{Text}
use hakimi_hub.Utils.Containers.{MapOps, LruOps}
use hakimi_hub.Utils.Containers.Sync.{
  InSync, InSync-insert, InSync-remove, InSync-pop_lru, snoc_cases,
}
use hakimi_hub.Dns.Pool.{
  PoolEntry, Pool, evict_oldest_connection, acquire_connection, make_room, return_connection,
  max_pool_size, connection_pool_ttl, pool_key, added, taken,
}

module _ {S : Type 0} (dec : Discrete Text) (M : MapOps dec (PoolEntry S)) (L : LruOps dec) where
  -- The map and the index agree, and there are at most fifty connections.
  pub record Sound (p : Pool dec M L) : Type 0 where
    pub synced : InSync dec M L p.connection_pool p.lru_index
    pub bounded : M.len p.connection_pool ≤ max_pool_size

  evict_some :
      (p : Pool dec M L) (k : Text) (i : L.Index)
      → L.pop_lru p.lru_index ≡ some (k, i)
      → evict_oldest_connection dec M L p
        ≡ record { connection_pool = M.remove p.connection_pool k; lru_index = i }
  unfolding evict_oldest_connection
  evict_some p k i e = ground (arith, e)

  -- An eviction from a pool that is not empty takes out one connection.
  evict-InSync :
      (p : Pool dec M L)
      → InSync dec M L p.connection_pool p.lru_index
      → 0 < M.len p.connection_pool
      → InSync dec M L
          (evict_oldest_connection dec M L p).connection_pool
          (evict_oldest_connection dec M L p).lru_index
        × (M.len (evict_oldest_connection dec M L p).connection_pool + 1 ≡ M.len p.connection_pool)
  evict-InSync p h n = elim (snoc_cases (L.order p.lru_index)) [
    | inl e ↦ absurd (ground (arith, n, e, h.sized))
    | inr (ks, k, e) ↦
        let r = L.pop_lru-last p.lru_index ks k e in
        let s = InSync-pop_lru dec M L p.connection_pool p.lru_index r.0 ks k e r.2 h in
        rw (evict_some p k r.0 r.1)
          (s, ground (arith, s.sized, h.sized, e, r.2, length-append ks (k ∷ [])))
  ]

  make_room-full :
      (fuel : ℕ) (p : Pool dec M L)
      → Sound p
      → Sound (make_room dec M L (suc (suc fuel)) p)
        × (M.len (make_room dec M L (suc (suc fuel)) p).connection_pool < max_pool_size)
  unfolding make_room
  make_room-full fuel p h = elim (Bool-cases (ltb (M.len p.connection_pool) max_pool_size)) [
    | inl e ↦ rw e (h, ground (arith, e))
    | inr e ↦
        let v = evict-InSync p h.synced (ground (arith, e)) in
        let n : ltb (M.len (evict_oldest_connection dec M L p).connection_pool) max_pool_size
            ≡ true =
          ground (arith, v.1, h.bounded) in
        let z : (M.len (evict_oldest_connection dec M L p).connection_pool == 0) ≡ false =
          ground (arith, v.1, e) in
        rw (e, z, n)
          (record { synced = v.0; bounded = omega (arith, v.1, h.bounded) }, ground (arith, n))
  ]

  Sound-added :
      (p : Pool dec M L) (key : Text) (s : S) (now : ℕ)
      → Sound p
      → M.len p.connection_pool < max_pool_size
      → Sound (added dec M L p key s now)
  Sound-added p key s now h n =
      let entry : PoolEntry S = record { stream = s; last_used = now } in
      record {
        synced = InSync-insert dec M L p.connection_pool p.lru_index key entry h.synced;
        bounded = omega (arith, M.len-insert p.connection_pool key entry, n);
      }

  stored :
      (m : M.Map) (key : Text) (e : PoolEntry S) → is_some (M.get (M.insert m key e) key) ≡ true
  stored m key e = ground (arith, M.get-insert m key e key)

  removed : (m : M.Map) (key : Text) → M.get (M.remove m key) key ≡ none
  removed m key = ground (arith, M.get-remove m key key)

  fresh : (a b : ℕ) → leb a b ≡ false → ltb b a ≡ true
  fresh a b h = ground (arith, h)

  not_fresh : (a b : ℕ) → leb a b ≡ true → ltb b a ≡ false
  not_fresh a b h = ground (arith, h)

  evict-missing :
      (p : Pool dec M L) (k : Text)
      → M.get p.connection_pool k ≡ none
      → M.get (evict_oldest_connection dec M L p).connection_pool k ≡ none
  unfolding evict_oldest_connection
  evict-missing p k e = elim (Option-cases (L.pop_lru p.lru_index)) [
    | inl f ↦ rw (f, evict_oldest_connection) e
    | inr ((j, i), f) ↦
        rw (evict_some p j i f) (ground (arith, M.get-remove p.connection_pool j k, e))
  ]

  -- Making room brings no connection back.
  make_room-missing :
      (fuel : ℕ) (p : Pool dec M L) (k : Text)
      → M.get p.connection_pool k ≡ none
      → M.get (make_room dec M L fuel p).connection_pool k ≡ none
  unfolding make_room
  make_room-missing zero p k e = e
  make_room-missing (suc fuel) p k e =
      let f = evict-missing p k e in
      let g = make_room-missing fuel (evict_oldest_connection dec M L p) k f in
      elim (Bool-cases (ltb (M.len p.connection_pool) max_pool_size)) [
        | inl a ↦ rw a e
        | inr a ↦
            elim (Bool-cases (M.len (evict_oldest_connection dec M L p).connection_pool == 0)) [
              | inl z ↦ rw (a, z) f
              | inr z ↦ rw (a, z) g
            ]
      ]

  -- The connection of a host after one is returned at a time.
  abbrev pub kept_or : Option (PoolEntry S) → S → ℕ → PoolEntry S
  kept_or none s now = record { stream = s; last_used = now }
  kept_or (some e) s now = e

  return-present :
      (p : Pool dec M L) (host : Text) (s : S) (now : ℕ) (e : PoolEntry S)
      → M.get p.connection_pool (pool_key host) ≡ some e
      → return_connection dec M L p host s now ≡ p
  unfolding return_connection
  return-present p host s now e h =
      let a : is_some (M.get p.connection_pool (pool_key host)) ≡ true = rw h refl in rw a refl

  return-missing :
      (p : Pool dec M L) (host : Text) (s : S) (now : ℕ)
      → Sound p
      → M.get p.connection_pool (pool_key host) ≡ none
      → return_connection dec M L p host s now
        ≡ added dec M L (make_room dec M L 51 p) (pool_key host) s now
  unfolding return_connection
  return-missing p host s now h e =
      let q = make_room dec M L 51 p in
      let n : ltb (M.len q.connection_pool) max_pool_size ≡ true =
        lt→ltb _ _ (make_room-full 49 p h).1 in
      let a : is_some (M.get p.connection_pool (pool_key host)) ≡ false = rw e refl in
      let b : is_some (M.get q.connection_pool (pool_key host)) ≡ false =
        rw (make_room-missing 51 p (pool_key host) e) refl in
      rw (a, n, b) refl

  stored_entry : (m : M.Map) (key : Text) (e : PoolEntry S) → M.get (M.insert m key e) key ≡ some e
  stored_entry m key e = ground (arith, M.get-insert m key e key)

  -- A connection that is returned to a sound pool leaves it sound, and the connection of its host
  -- is then the one that was there, with its time of use, or if there was none the one returned,
  -- with the present time.
  pub return_connection-Sound :
      (p : Pool dec M L) (host : Text) (s : S) (now : ℕ)
      → Sound p
      → Sound (return_connection dec M L p host s now)
        × (M.get (return_connection dec M L p host s now).connection_pool (pool_key host)
            ≡ some (kept_or (M.get p.connection_pool (pool_key host)) s now))
  return_connection-Sound p host s now h =
      elim (Option-cases (M.get p.connection_pool (pool_key host))) [
        | inl e ↦
            let r = make_room-full 49 p h in
            let q = make_room dec M L 51 p in
            rw (return-missing p host s now h e, e)
              (
                Sound-added q (pool_key host) s now r.0 r.1,
                stored_entry q.connection_pool (pool_key host)
                    (record { stream = s; last_used = now }),
              )
        | inr (x, e) ↦ rw (return-present p host s now x e, e) (h, refl)
      ]

  acquire_connection-some :
      (p : Pool dec M L) (host : Text) (e : PoolEntry S) (later : ℕ)
      → M.get p.connection_pool (pool_key host) ≡ some e
      → acquire_connection dec M L p host later ≡ (
          if leb connection_pool_ttl (later - e.last_used)
          then (none, taken dec M L p (pool_key host))
          else (some e.stream, taken dec M L p (pool_key host)))
  unfolding acquire_connection
  acquire_connection-some p host e later f = ground (arith, f)

  -- From a sound pool, a connection of the host is handed over exactly if less than the lifetime
  -- has passed since it was returned; in either case it leaves the pool, which stays sound.
  pub acquire_connection-Sound :
      (p : Pool dec M L) (host : Text) (e : PoolEntry S) (later : ℕ)
      → Sound p
      → M.get p.connection_pool (pool_key host) ≡ some e
      → Sound (acquire_connection dec M L p host later).1
        × ((acquire_connection dec M L p host later).0
            ≡ (if ltb (later - e.last_used) connection_pool_ttl then some e.stream else none))
        × (M.get (acquire_connection dec M L p host later).1.connection_pool (pool_key host) ≡ none)
  acquire_connection-Sound p host e later h f =
      let key = pool_key host in
      let i = InSync-remove dec M L p.connection_pool p.lru_index key h.synced in
      let n : M.len (M.remove p.connection_pool key) ≤ max_pool_size =
        omega (arith, M.len-remove p.connection_pool key, h.bounded) in
      let g : M.get (M.remove p.connection_pool key) key ≡ none = removed p.connection_pool key in
      elim (Bool-cases (leb connection_pool_ttl (later - e.last_used))) [
        | inl a ↦
            let b : ltb (later - e.last_used) connection_pool_ttl ≡ false = not_fresh _ _ a in
            rw (acquire_connection-some p host e later f, a, b)
              (record { synced = i; bounded = n }, refl, g)
        | inr a ↦
            let b : ltb (later - e.last_used) connection_pool_ttl ≡ true = fresh _ _ a in
            rw (acquire_connection-some p host e later f, a, b)
              (record { synced = i; bounded = n }, refl, g)
      ]
