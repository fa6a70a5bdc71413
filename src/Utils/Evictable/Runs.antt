-- ===== src/Utils/Evictable/Runs.antt =====
-- Whole runs of a cache: what holds after any sequence of operations.
use hakimi_hub.Prelude.{ℕ, Option, List, [], ◌∷◌}
use hakimi_hub.Utils.Containers.{MapOps, LruOps}
use hakimi_hub.Utils.Evictable.{
  Entry, EvictableCache, new, with_ttl, get, get_entry, remove, clear, evict, insert,
}
use hakimi_hub.Utils.Evictable.Evict.{Synced}
use hakimi_hub.Utils.Evictable.Sync.{
  Synced-new, Synced-with_ttl, Synced-get, Synced-remove, Synced-clear, Synced-insert, Synced-evict,
}

-- A call of an operation that changes the cache, with what it reads off the clock.
pub data Op (K V : Type 0) : Type 0 where
  call_get : K → ℕ → ℕ → Op K V
  call_get_entry : K → ℕ → ℕ → Op K V
  call_insert : K → V → ℕ → ℕ → Op K V
  call_remove : K → Op K V
  call_clear : Op K V
  call_evict : Option ℕ → ℕ → ℕ → Op K V

module _ {K V : Type 0} (dec : Discrete K) (M : MapOps dec (Entry V)) (L : LruOps dec) where
  unfoldable pub step : EvictableCache dec M L → Op K V → EvictableCache dec M L
  step c (Op.call_get k now later) = (get dec M L c k now later).1
  step c (Op.call_get_entry k now later) = (get_entry dec M L c k now later).1
  step c (Op.call_insert k v now now_ns) = insert dec M L c k v now now_ns
  step c (Op.call_remove k) = (remove dec M L c k).1
  step c Op.call_clear = clear dec M L c
  step c (Op.call_evict ttl now now_ns) = evict dec M L c ttl now now_ns

  unfoldable pub run : EvictableCache dec M L → List (Op K V) → EvictableCache dec M L
  run c [] = c
  run c (op ∷ ops) = run (step c op) ops

  Synced-step :
      (c : EvictableCache dec M L) (op : Op K V) → Synced dec M L c → Synced dec M L (step c op)
  unfolding step
  Synced-step c (Op.call_get k now later) h = (Synced-get dec M L c k now later h).0
  Synced-step c (Op.call_get_entry k now later) h = (Synced-get dec M L c k now later h).1
  Synced-step c (Op.call_insert k v now now_ns) h = Synced-insert dec M L c k v now now_ns h
  Synced-step c (Op.call_remove k) h = Synced-remove dec M L c k h
  Synced-step c Op.call_clear h = Synced-clear dec M L c
  Synced-step c (Op.call_evict ttl now now_ns) h = Synced-evict dec M L c ttl now now_ns h

  pub Synced-run :
      (c : EvictableCache dec M L) (ops : List (Op K V))
      → Synced dec M L c
      → Synced dec M L (run c ops)
  unfolding run
  Synced-run c [] h = h
  Synced-run c (op ∷ ops) h = Synced-run (step c op) ops (Synced-step c op h)

  -- After any sequence of calls on a new cache, with or without a lifetime, each key of the map
  -- stands in the index exactly once, no other key stands in it, and both have the same size.
  pub run-InSync :
      (max_entries ttl : ℕ) (ops : List (Op K V))
      → Synced dec M L (run (new dec M L max_entries) ops)
        × Synced dec M L (run (with_ttl dec M L max_entries ttl) ops)
  run-InSync max_entries ttl ops = (
    Synced-run (new dec M L max_entries) ops (Synced-new dec M L max_entries),
    Synced-run (with_ttl dec M L max_entries ttl) ops (Synced-with_ttl dec M L max_entries ttl),
  )
