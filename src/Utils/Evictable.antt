-- ===== src/Utils/Evictable.antt =====
-- src/utils/evictable_cache.rs: the map of entries and the index of their keys in the order of
-- their use. Instants are in nanoseconds; a clock that an operation reads twice is two arguments.
use hakimi_hub.Prelude.{
  ltb, leb, ◌==◌, if◌then◌else◌, ltb→lt, lt→ltb, leb→le, le→leb, ==_iff, ==_refl, Bool-cases,
  Option-cases, &&-elim, &&-intro, ||-elim, is_some, present, length, get_elem?, take, drop,
  is_empty, any, all, select, All, length-append, take-append-drop, length-take, length-drop,
  take-length_append, drop-length_append, All-append, ℕ, zero, suc, ◌+◌, ◌-◌, ◌*◌, ◌/◌, ◌%◌, ◌^◌,
  ◌≤◌, ◌<◌, ◌≡◌, refl, sym, ap, ◌∙◌, ◌≢◌, ◌↔◌, ◌⊎◌, inl, inr, Bool, true, false, not, ◌&&◌, ◌||◌,
  Option, none, some, List, [], ◌∷◌, ◌++◌, map, arith,
}
use hakimi_hub.Prelude.Str.{Text, codes}
use hakimi_hub.Prelude.Str
use mathlib.Core.Option
use mathlib.Core.List
use hakimi_hub.Utils.Containers.{without, count, MapOps, LruOps}
pub mod Sync
pub mod Evict
pub mod Ttl
pub mod Runs
pub mod Values

pub record Entry (V : Type 0) : Type 0 where
  pub value : V
  pub last_accessed : ℕ
  pub created_at : ℕ

-- `get_mut` reads the entry and writes it back in place.
unfoldable pub touched : {V : Type 0} → Entry V → ℕ → Entry V
touched e now = record e { last_accessed = now }

-- `created_at.elapsed() > ttl`, where there is a lifetime.
unfoldable pub is_expired : {V : Type 0} → Option ℕ → Entry V → ℕ → Bool
is_expired none e later = false
is_expired (some ttl) e later = ltb ttl (later - e.created_at)

-- `as_nanos() as u64` of the time since the process's base instant.
unfoldable pub instant_to_nanos : ℕ → ℕ → ℕ
instant_to_nanos base now = (now - base) % 2 ^ 64

module _ {K V : Type 0} (dec : Discrete K) (M : MapOps dec (Entry V)) (L : LruOps dec) where
  pub record EvictableCache : Type 0 where
    pub inner : M.Map
    pub lru_index : L.Index
    pub max_entries : ℕ
    pub ttl : Option ℕ
    pub last_evict_ns : ℕ

  unfoldable pub new : ℕ → EvictableCache
  new max_entries = record {
    inner = M.empty;
    lru_index = L.empty;
    max_entries = max_entries;
    ttl = none;
    last_evict_ns = 0;
  }

  unfoldable pub with_ttl : ℕ → ℕ → EvictableCache
  with_ttl max_entries ttl = record {
    inner = M.empty;
    lru_index = L.empty;
    max_entries = max_entries;
    ttl = some ttl;
    last_evict_ns = 0;
  }

  -- The removal of a key from both containers.
  unfoldable pub discard : EvictableCache → K → EvictableCache
  discard c key = record c { inner = M.remove c.inner key; lru_index = L.pop c.lru_index key }

  unfoldable pub touch : EvictableCache → K → Entry V → ℕ → EvictableCache
  touch c key e now = record c {
    inner = M.insert c.inner key (touched e now);
    lru_index = L.put c.lru_index key;
  }

  -- `get_entry`: `now` is read on entry and `later` by `elapsed`.
  unfoldable pub get_entry : EvictableCache → K → ℕ → ℕ → Option (Entry V) × EvictableCache
  get_entry c key now later = elim (M.get c.inner key) [
    | none ↦ (none, c)
    | some e ↦
        if is_expired c.ttl e later
        then (none, discard c key)
        else (some (touched e now), touch c key e now)
  ]

  unfoldable pub get : EvictableCache → K → ℕ → ℕ → Option V × EvictableCache
  get c key now later = elim (M.get c.inner key) [
    | none ↦ (none, c)
    | some e ↦
        if is_expired c.ttl e later
        then (none, discard c key)
        else (some e.value, touch c key e now)
  ]

  unfoldable pub peek : EvictableCache → K → Option V
  peek c key = Option.map (λ e. e.value) (M.get c.inner key)

  unfoldable pub contains_key : EvictableCache → K → Bool
  contains_key c key = is_some (M.get c.inner key)

  unfoldable pub len : EvictableCache → ℕ
  len c = M.len c.inner

  unfoldable pub clear : EvictableCache → EvictableCache
  clear c = record c { inner = M.empty; lru_index = L.empty }

  unfoldable pub remove : EvictableCache → K → Option V × EvictableCache
  remove c key = (peek c key, discard c key)

  -- The loop of `evict_lru_if_needed`: `excess` rounds, left when the index is empty.
  unfoldable pub pop_loop : ℕ → M.Map → L.Index → M.Map × L.Index
  pop_loop zero m i = (m, i)
  pop_loop (suc n) m i = elim (L.pop_lru i) [
    | none ↦ (m, i)
    | some (old_key, j) ↦ pop_loop n (M.remove m old_key) j
  ]

  unfoldable pub pop_excess : EvictableCache → ℕ → EvictableCache
  pop_excess c excess =
      let r = pop_loop excess c.inner c.lru_index in record c { inner = r.0; lru_index = r.1 }

  unfoldable pub evict_lru_if_needed : EvictableCache → ℕ → EvictableCache
  evict_lru_if_needed c now_ns =
      let excess = len c - c.max_entries in
      if excess == 0
      then c
      else if ltb (now_ns - c.last_evict_ns) 1000000
      then c
      else pop_excess (record c { last_evict_ns = now_ns }) excess

  -- The two writes of `insert` before the eviction.
  unfoldable pub store : EvictableCache → K → V → ℕ → EvictableCache
  store c key value now = record c {
    inner = M.insert c.inner key (record { value = value; last_accessed = now; created_at = now });
    lru_index = L.put c.lru_index key;
  }

  -- `now_ns` is what `instant_to_nanos` makes of the clock that the eviction reads.
  unfoldable pub insert : EvictableCache → K → V → ℕ → ℕ → EvictableCache
  insert c key value now now_ns = evict_lru_if_needed (store c key value now) now_ns

  -- The keys whose entries are older than the lifetime.
  unfoldable pub expired_keys : EvictableCache → ℕ → ℕ → List K → List K
  expired_keys c ttl now [] = []
  expired_keys c ttl now (k ∷ ks) =
      let rest = expired_keys c ttl now ks in
      elim (M.get c.inner k) [
        | none ↦ rest
        | some e ↦ if ltb ttl (now - e.created_at) then k ∷ rest else rest
      ]

  unfoldable pub discard_all : EvictableCache → List K → EvictableCache
  discard_all c [] = c
  discard_all c (k ∷ ks) = discard_all (discard c k) ks

  -- The full scan of `evict`, where a lifetime is given, then the eviction by use.
  unfoldable pub evict : EvictableCache → Option ℕ → ℕ → ℕ → EvictableCache
  evict c none now now_ns = evict_lru_if_needed c now_ns
  evict c (some ttl) now now_ns =
      evict_lru_if_needed (discard_all c (expired_keys c ttl now (M.keys c.inner))) now_ns
