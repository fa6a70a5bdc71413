-- ===== src/Cache/Evict.antt =====
-- src/cache/resource_cache.rs: after an eviction the cache fits its limit.
use hakimi_hub.Prelude.{
  leb, leb→le, Bool-cases, Option-cases, is_some, present, all, ℕ, ◌+◌, ◌≤◌, ◌<◌, ◌≡◌, refl, sym,
  ap, ◌∙◌, inl, inr, true, false, none, List, [], ◌∷◌, arith,
}
use hakimi_hub.Utils.Containers.Sums.{total-remove}
use hakimi_hub.Cache.Files.{FilePath}
use hakimi_hub.Cache.Store.{Platform, wrap, get_file_path, remove_async_static}
use hakimi_hub.Cache.Cleanup.{Victim, evict_loop}
use hakimi_hub.Cache.Sizes.{stored_size}
use hakimi_hub.Cache.Victims.{Store, occurs, sizes, Evictable, Evictable-tail}

module _ (E : Platform) where
  evict_loop-done :
      (c : Store E) (freed target : ℕ) (es : List (Victim E))
      → leb target freed ≡ true
      → (evict_loop E c freed target es).1 ≡ c
  unfolding evict_loop
  evict_loop-done c freed target [] h = refl
  evict_loop-done c freed target (v ∷ es) h = rw h refl

  evict_loop-more :
      (c : Store E) (freed target : ℕ) (v : Victim E) (es : List (Victim E))
      → leb target freed ≡ false
      → (E.F.remove_file c.disk (get_file_path E c v.0)).0 ≡ true
      → (evict_loop E c freed target (v ∷ es)).1
        ≡ (evict_loop E (remove_async_static E c v.0) (wrap (freed + v.2)) target es).1
  unfolding evict_loop remove_async_static
  evict_loop-more c freed target v es h r = rw h (rw r refl)

  -- A file that stands on the disk can be removed.
  abbrev pub Unlinks : Type 0
  Unlinks =
      (d : E.F.Disk) (p : FilePath) → is_some (E.F.read d p) ≡ true → (E.F.remove_file d p).0 ≡ true

  head_removed :
      Unlinks
      → (c : Store E) (v : Victim E) (es : List (Victim E)) → Evictable E c (v ∷ es)
      → (E.F.remove_file c.disk (get_file_path E c v.0)).0 ≡ true
  head_removed unlinks c v es h = elim (Option-cases (E.M.get c.metadata v.0)) [
    | inl e ↦ absurd (uncounted (h.counted v.0) e)
    | inr (m, e) ↦ unlinks c.disk (get_file_path E c v.0) (h.stored v.0 m e)
  ]
    where
      uncounted :
          occurs E v.0 (v ∷ es) ≤ present (E.M.get c.metadata v.0)
          → E.M.get c.metadata v.0 ≡ none
          → ⊥
      uncounted a e = ground (arith, a, e)

  removed_size :
      (c : Store E) (v : Victim E) (es : List (Victim E))
      → Evictable E c (v ∷ es)
      → stored_size E (remove_async_static E c v.0) + v.2 ≡ stored_size E c
  unfolding remove_async_static
  removed_size c v es h =
      ap (λ n. stored_size E (remove_async_static E c v.0) + n) (sym h.sized.0)
      ∙ total-remove E.dec E.M (λ m. m.file_size) c.metadata v.0

  evict_loop-nil : (c : Store E) (freed target : ℕ) → (evict_loop E c freed target []).1 ≡ c
  unfolding evict_loop
  evict_loop-nil c freed target = refl

  no_wrap :
      (freed size rest all : ℕ)
      → rest + size ≡ all
      → all + freed < 18446744073709551616
      → wrap (freed + size) ≡ freed + size
  no_wrap freed size rest all e b = omega (arith, e, b)

  pub evict_loop-fits :
      Unlinks
      → (c : Store E) (freed target : ℕ) (es : List (Victim E)) → Evictable E c es
      → target ≤ freed + sizes E es
      → stored_size E c + freed < 18446744073709551616
      → stored_size E (evict_loop E c freed target es).1 + target ≤ stored_size E c + freed
  evict_loop-fits unlinks c freed target [] h t b =
      omega (arith, t, ap (stored_size E) (evict_loop-nil c freed target))
  evict_loop-fits unlinks c freed target (v ∷ es) h t b = elim (Bool-cases (leb target freed)) [
    | inl l ↦ omega (
      arith,
      leb→le target freed l,
      ap (stored_size E) (evict_loop-done c freed target (v ∷ es) l),
    )
    | inr l ↦
        let d = remove_async_static E c v.0 in
        let s = removed_size c v es h in
        let step =
          evict_loop-more c freed target v es l (head_removed unlinks c v es h)
          ∙ ap (λ n. (evict_loop E d n target es).1)
              (no_wrap freed v.2 (stored_size E d) (stored_size E c) s b) in
        let rest =
          evict_loop-fits unlinks d (freed + v.2) target es (Evictable-tail E c v es h)
            (omega (arith, t)) (omega (arith, s, b)) in
        omega (arith, rest, s, ap (stored_size E) step)
  ]
