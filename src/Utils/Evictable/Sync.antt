-- ===== src/Utils/Evictable/Sync.antt =====
-- The map and the index of a cache stay in step through every operation but the insertion.
use hakimi_hub.Prelude.{
  Bool-cases, Option-cases, ℕ, ◌≡◌, ◌⊎◌, inl, inr, true, false, Option, none, some, List, [], ◌∷◌,
  arith,
}
use hakimi_hub.Utils.Containers.{MapOps, LruOps}
use hakimi_hub.Utils.Containers.Sync.{InSync-empty, InSync-insert, InSync-remove}
use hakimi_hub.Utils.Evictable.{
  Entry, EvictableCache, new, with_ttl, discard, discard_all, touch, get, get_entry, remove, clear,
  is_expired, expired_keys, evict, store, insert, touched,
}
use hakimi_hub.Utils.Evictable.Evict.{Synced, Synced-store, Synced-evict_lru_if_needed}

module _ {K V : Type 0} (dec : Discrete K) (M : MapOps dec (Entry V)) (L : LruOps dec) where
  abbrev Ok : EvictableCache dec M L → Type 0
  Ok c = Synced dec M L c

  pub Synced-new : (n : ℕ) → Ok (new dec M L n)
  unfolding new
  Synced-new n = InSync-empty dec M L

  pub Synced-with_ttl : (n t : ℕ) → Ok (with_ttl dec M L n t)
  unfolding with_ttl
  Synced-with_ttl n t = InSync-empty dec M L

  pub Synced-discard : (c : EvictableCache dec M L) (k : K) → Ok c → Ok (discard dec M L c k)
  unfolding discard
  Synced-discard c k h = InSync-remove dec M L c.inner c.lru_index k h

  pub Synced-discard_all :
      (c : EvictableCache dec M L) (ks : List K) → Ok c → Ok (discard_all dec M L c ks)
  unfolding discard_all
  Synced-discard_all c [] h = h
  Synced-discard_all c (k ∷ ks) h =
      Synced-discard_all (discard dec M L c k) ks (Synced-discard c k h)

  pub Synced-touch :
      (c : EvictableCache dec M L) (k : K) (e : Entry V) (now : ℕ)
      → Ok c
      → Ok (touch dec M L c k e now)
  unfolding touch
  Synced-touch c k e now h = InSync-insert dec M L c.inner c.lru_index k _ h

  -- A lookup ends in one of three ways: the key is missing, expired and discarded, or fresh and
  -- moved to the front.
  pub get-cases :
      (c : EvictableCache dec M L) (k : K) (now later : ℕ)
      → ((M.get c.inner k ≡ none)
          × (get dec M L c k now later ≡ (none, c))
          × (get_entry dec M L c k now later ≡ (none, c)))
        ⊎ ((e : Entry V) × (M.get c.inner k ≡ some e)
            × (((is_expired c.ttl e later ≡ true)
                  × (get dec M L c k now later ≡ (none, discard dec M L c k))
                  × (get_entry dec M L c k now later ≡ (none, discard dec M L c k)))
                ⊎ ((is_expired c.ttl e later ≡ false)
                    × (get dec M L c k now later ≡ (some e.value, touch dec M L c k e now))
                    × (get_entry dec M L c k now later
                        ≡ (some (touched e now), touch dec M L c k e now)))))
  unfolding get get_entry
  get-cases c k now later = elim (Option-cases (M.get c.inner k)) [
    | inl e ↦ inl (e, ground (arith, e), ground (arith, e))
    | inr (e, f) ↦ inr (
      e,
      f,
      elim (Bool-cases (is_expired c.ttl e later)) [
        | inl x ↦ inl (x, ground (arith, f, x), ground (arith, f, x))
        | inr x ↦ inr (x, ground (arith, f, x), ground (arith, f, x))
      ],
    )
  ]

  pub Synced-get :
      (c : EvictableCache dec M L) (k : K) (now later : ℕ)
      → Ok c
      → Ok (get dec M L c k now later).1 × Ok (get_entry dec M L c k now later).1
  Synced-get c k now later h = elim (get-cases c k now later) [
    | inl (_, e, f) ↦ (rw e h, rw f h)
    | inr (x, _, inl (_, e, f)) ↦ (rw e (Synced-discard c k h), rw f (Synced-discard c k h))
    | inr (x, _, inr (_, e, f)) ↦ (rw e (Synced-touch c k x now h), rw f (Synced-touch c k x now h))
  ]

  pub Synced-remove : (c : EvictableCache dec M L) (k : K) → Ok c → Ok (remove dec M L c k).1
  unfolding remove
  Synced-remove c k h = Synced-discard c k h

  pub Synced-clear : (c : EvictableCache dec M L) → Ok (clear dec M L c)
  unfolding clear
  Synced-clear c = InSync-empty dec M L

  pub Synced-insert :
      (c : EvictableCache dec M L) (k : K) (v : V) (now now_ns : ℕ)
      → Ok c
      → Ok (insert dec M L c k v now now_ns)
  unfolding insert
  Synced-insert c k v now now_ns h =
      Synced-evict_lru_if_needed dec M L (store dec M L c k v now) now_ns
        (Synced-store dec M L c k v now h)

  pub Synced-evict :
      (c : EvictableCache dec M L) (ttl : Option ℕ) (now now_ns : ℕ)
      → Ok c
      → Ok (evict dec M L c ttl now now_ns)
  unfolding evict
  Synced-evict c none now now_ns h = Synced-evict_lru_if_needed dec M L c now_ns h
  Synced-evict c (some ttl) now now_ns h =
      let ks = expired_keys dec M L c ttl now (M.keys c.inner) in
      Synced-evict_lru_if_needed dec M L (discard_all dec M L c ks) now_ns
        (Synced-discard_all c ks h)
