-- ===== src/Utils/Evictable/Values.antt =====
-- src/utils/evictable_cache.rs: what all stored values satisfy stays true of them.
use hakimi_hub.Prelude.{
  ltb, ◌==◌, if◌then◌else◌, Option-cases, ℕ, zero, suc, ◌-◌, ◌≡◌, refl, sym, ap, ◌∙◌, ◌⊎◌, inl, inr,
  Bool, true, false, Option, none, some, arith,
}
use mathlib.Core.Path.{subst}
use hakimi_hub.Utils.Containers.{MapOps, LruOps}
use hakimi_hub.Utils.Evictable.{
  Entry, EvictableCache, get, insert, remove, clear, discard, touch, touched, store, pop_loop,
  pop_excess, evict_lru_if_needed, is_expired, len,
}

module _ {K V : Type 0} (dec : Discrete K) (M : MapOps dec (Entry V)) (L : LruOps dec)
    (p : V → Bool) where
  -- A test that holds of the value of every entry.
  abbrev pub AllIn : M.Map → Type 0
  AllIn m = (k : K) (e : Entry V) → M.get m k ≡ some e → p e.value ≡ true

  pub AllIn-empty : AllIn M.empty
  AllIn-empty k e h = absurd (cc (sym (M.get-empty k) ∙ h))

  AllIn-remove : (m : M.Map) (k : K) → AllIn m → AllIn (M.remove m k)
  AllIn-remove m k h j e f = h j e (before m k j e f)
    where
      before :
          (m : M.Map) (k j : K) (e : Entry V) → M.get (M.remove m k) j ≡ some e → M.get m j ≡ some e
      before m k j e f = ground (arith, M.get-remove m k j, f)

  inserted :
      (m : M.Map) (k j : K) (e w : Entry V)
      → M.get (M.insert m k w) j ≡ some e
      → (w ≡ e) ⊎ (M.get m j ≡ some e)
  inserted m k j e w f = ground (arith, M.get-insert m k w j, f)

  AllIn-insert :
      (m : M.Map) (k : K) (w : Entry V) → p w.value ≡ true → AllIn m → AllIn (M.insert m k w)
  AllIn-insert m k w g h j e f = elim (inserted m k j e w f) [
    | inl q ↦ ap (λ x. p x.value) (sym q) ∙ g
    | inr q ↦ h j e q
  ]

  pop_step :
      (n : ℕ) (m : M.Map) (i : L.Index) (o : Option (K × L.Index))
      → L.pop_lru i ≡ o
      → pop_loop dec M L (suc n) m i
        ≡ elim o [ none ↦ (m, i) | some (k, j) ↦ pop_loop dec M L n (M.remove m k) j ]
  unfolding pop_loop
  pop_step n m i o e = rw (e, pop_loop) refl

  AllIn-pop_loop : (n : ℕ) (m : M.Map) (i : L.Index) → AllIn m → AllIn (pop_loop dec M L n m i).0
  AllIn-pop_loop zero m i h = unfold pop_loop in h
  AllIn-pop_loop (suc n) m i h = elim (Option-cases (L.pop_lru i)) [
    | inl e ↦ subst (λ x. AllIn x.0) (sym (pop_step n m i none e)) h
    | inr ((k, j), e) ↦
        subst (λ x. AllIn x.0) (sym (pop_step n m i (some (k, j)) e))
          (AllIn-pop_loop n (M.remove m k) j (AllIn-remove m k h))
  ]

  if_inner :
      (b : Bool) (c d : EvictableCache dec M L)
      → AllIn c.inner
      → AllIn d.inner
      → AllIn (if b then c else d).inner
  if_inner true c d h g = h
  if_inner false c d h g = g

  AllIn-evict :
      (c : EvictableCache dec M L) (now_ns : ℕ)
      → AllIn c.inner
      → AllIn (evict_lru_if_needed dec M L c now_ns).inner
  unfolding evict_lru_if_needed pop_excess
  AllIn-evict c now_ns h = if_inner ((len dec M L c - c.max_entries) == 0) c _ h (
      if_inner (ltb (now_ns - c.last_evict_ns) 1000000) c _ h
        (AllIn-pop_loop (len dec M L c - c.max_entries) c.inner c.lru_index h))

  pub AllIn-store :
      (c : EvictableCache dec M L) (k : K) (v : V) (now now_ns : ℕ)
      → p v ≡ true
      → AllIn c.inner
      → AllIn (insert dec M L c k v now now_ns).inner
  unfolding insert store
  AllIn-store c k v now now_ns g h =
      AllIn-evict (store dec M L c k v now) now_ns (AllIn-insert c.inner k _ g h)

  pub AllIn-discard :
      (c : EvictableCache dec M L) (k : K) → AllIn c.inner → AllIn (remove dec M L c k).1.inner
  unfolding remove discard
  AllIn-discard c k h = AllIn-remove c.inner k h

  pub AllIn-clear : (c : EvictableCache dec M L) → AllIn (clear dec M L c).inner
  unfolding clear
  AllIn-clear c = AllIn-empty

  get-none :
      (c : EvictableCache dec M L) (k : K) (now later : ℕ)
      → M.get c.inner k ≡ none
      → get dec M L c k now later ≡ (none, c)
  unfolding get
  get-none c k now later e = rw (e, get) refl

  get-some :
      (c : EvictableCache dec M L) (k : K) (now later : ℕ) (x : Entry V)
      → M.get c.inner k ≡ some x
      → get dec M L c k now later ≡ (
          if is_expired c.ttl x later
          then (none, discard dec M L c k)
          else (some x.value, touch dec M L c k x now))
  unfolding get
  get-some c k now later x e = rw (e, get) refl

  -- The test holds of a value that a lookup returns, and of all values after it.
  abbrev pub Holds : Option V × EvictableCache dec M L → Type 0
  Holds r = ((v : V) → r.0 ≡ some v → p v ≡ true) × AllIn r.1.inner

  if_Holds :
      (b : Bool) (r s : Option V × EvictableCache dec M L)
      → Holds r
      → Holds s
      → Holds (if b then r else s)
  if_Holds true r s h g = h
  if_Holds false r s h g = g

  no_value : (c : EvictableCache dec M L) → AllIn c.inner → Holds (none, c)
  no_value c h = (λ v e. absurd (cc e), h)

  touched-Holds :
      (c : EvictableCache dec M L) (k : K) (x : Entry V) (now : ℕ)
      → p x.value ≡ true
      → AllIn c.inner
      → Holds (some x.value, touch dec M L c k x now)
  unfolding touch touched
  touched-Holds c k x now g h =
      (λ v e. ap p (sym (cc e)) ∙ g, AllIn-insert c.inner k (record x { last_accessed = now }) g h)

  discard_holds :
      (c : EvictableCache dec M L) (k : K) → AllIn c.inner → AllIn (discard dec M L c k).inner
  unfolding discard
  discard_holds c k h = AllIn-remove c.inner k h

  pub get-Holds :
      (c : EvictableCache dec M L) (k : K) (now later : ℕ)
      → AllIn c.inner
      → Holds (get dec M L c k now later)
  get-Holds c k now later h = elim (Option-cases (M.get c.inner k)) [
    | inl e ↦ subst Holds (sym (get-none c k now later e)) (no_value c h)
    | inr (x, e) ↦ subst Holds (sym (get-some c k now later x e)) (
        if_Holds (is_expired c.ttl x later) _ _
          (no_value (discard dec M L c k) (discard_holds c k h))
          (touched-Holds c k x now (h k x e) h))
  ]
