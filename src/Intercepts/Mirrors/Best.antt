-- ===== src/Intercepts/Mirrors/Best.antt =====
-- The choice among mirrors.
use hakimi_hub.Prelude.{
  Bool-cases, All, ℕ, ◌≡◌, refl, sym, ◌⊎◌, inl, inr, true, false, none, some, List, [], ◌∷◌,
}
use hakimi_hub.Prelude.Str.{Text}
use mathlib.Core.Path.{subst}
use hakimi_hub.Utils.Containers.{MapOps}
use hakimi_hub.Intercepts.Mirrors.{
  F64, MirrorHealth, MirrorHealthTracker, available, response_time, min_by, best_of,
  get_best_mirror,
}

module _ (F : F64) (dec : Discrete Text) (M : MapOps dec (MirrorHealth F)) where
  -- No mirror of the list is faster than the best one.
  abbrev pub NoneFaster : MirrorHealthTracker F dec M → Text → List Text → Type 0
  NoneFaster t best ms =
      All (λ m. F.is_greater (response_time F dec M t best) (response_time F dec M t m) ≡ false) ms

  -- The mirror stands in the list.
  abbrev pub StandsIn : Text → List Text → Type 0
  StandsIn best [] = ⊥
  StandsIn best (m ∷ ms) = (best ≡ m) ⊎ StandsIn best ms

  module _ (irreflexive : (a : F.Carrier) → F.is_greater a a ≡ false)
      (transitive : (a b c : F.Carrier)
        → F.is_greater a b ≡ true
        → F.is_greater b c ≡ true
        → F.is_greater a c ≡ true) where
    -- Whatever the first candidate beats, the last one beats.
    min_by-not_slower :
        (t : MirrorHealthTracker F dec M) (best : Text) (ms : List Text) (x : F.Carrier)
        → F.is_greater (response_time F dec M t best) x ≡ false
        → F.is_greater (response_time F dec M t (min_by F dec M t best ms)) x ≡ false
    unfolding min_by
    min_by-not_slower t best [] x h = h
    min_by-not_slower t best (m ∷ ms) x h =
        elim (Bool-cases
          (F.is_greater (response_time F dec M t best) (response_time F dec M t m))) [
            | inl e ↦ rw e (
                min_by-not_slower t m ms x
                  (elim (Bool-cases (F.is_greater (response_time F dec M t m) x)) [
                    | inl g ↦ absurd (cc (h, transitive _ _ _ e g))
                    | inr g ↦ g
                  ]))
            | inr e ↦ rw e (min_by-not_slower t best ms x h)
          ]

    asymmetric : (a b : F.Carrier) → F.is_greater a b ≡ true → F.is_greater b a ≡ false
    asymmetric a b e = elim (Bool-cases (F.is_greater b a)) [
      | inl g ↦ absurd (cc (irreflexive a, transitive a b a e g))
      | inr g ↦ g
    ]

    min_by-taken :
        (t : MirrorHealthTracker F dec M) (best m : Text) (ms : List Text)
        → F.is_greater (response_time F dec M t best) (response_time F dec M t m) ≡ true
        → min_by F dec M t best (m ∷ ms) ≡ min_by F dec M t m ms
    unfolding min_by
    min_by-taken t best m ms e = rw e refl

    min_by-passed :
        (t : MirrorHealthTracker F dec M) (best m : Text) (ms : List Text)
        → F.is_greater (response_time F dec M t best) (response_time F dec M t m) ≡ false
        → min_by F dec M t best (m ∷ ms) ≡ min_by F dec M t best ms
    unfolding min_by
    min_by-passed t best m ms e = rw e refl

    min_by-NoneFaster :
        (t : MirrorHealthTracker F dec M) (best : Text) (ms : List Text)
        → NoneFaster t (min_by F dec M t best ms) (best ∷ ms)
    min_by-NoneFaster t best [] = unfold min_by in (irreflexive _, tt)
    min_by-NoneFaster t best (m ∷ ms) =
        elim (Bool-cases
          (F.is_greater (response_time F dec M t best) (response_time F dec M t m))) [
            | inl e ↦
                subst (λ b. NoneFaster t b (best ∷ m ∷ ms)) (sym (min_by-taken t best m ms e))
                  (
                    min_by-not_slower t m ms (response_time F dec M t best) (asymmetric _ _ e),
                    min_by-NoneFaster t m ms,
                  )
            | inr e ↦
                let h = min_by-NoneFaster t best ms in
                subst (λ b. NoneFaster t b (best ∷ m ∷ ms)) (sym (min_by-passed t best m ms e))
                  (h.0, (min_by-not_slower t best ms (response_time F dec M t m) e, h.1))
          ]

    min_by-StandsIn :
        (t : MirrorHealthTracker F dec M) (best : Text) (ms : List Text)
        → StandsIn (min_by F dec M t best ms) (best ∷ ms)
    min_by-StandsIn t best [] = unfold min_by in inl refl
    min_by-StandsIn t best (m ∷ ms) =
        elim (Bool-cases
          (F.is_greater (response_time F dec M t best) (response_time F dec M t m))) [
            | inl e ↦
                subst (λ b. StandsIn b (best ∷ m ∷ ms)) (sym (min_by-taken t best m ms e))
                  (inr (min_by-StandsIn t m ms))
            | inr e ↦
                subst (λ b. StandsIn b (best ∷ m ∷ ms)) (sym (min_by-passed t best m ms e))
                  (elim (min_by-StandsIn t best ms) [ inl h ↦ inl h | inr h ↦ inr (inr h) ])
          ]

    -- Where `is_greater` is irreflexive and transitive, as it is on floating point numbers, the
    -- choice has no mirror exactly where none is available, and otherwise takes an available one
    -- than which no available one has a smaller average response time.
    pub get_best_mirror-NoneFaster :
        (t : MirrorHealthTracker F dec M) (clock : ℕ → ℕ) (mirrors : List Text)
        → (((get_best_mirror F dec M t clock mirrors).0 ≡ none)
            × ((available F dec M t clock 0 mirrors).0 ≡ []))
          ⊎ ((best : Text) × ((get_best_mirror F dec M t clock mirrors).0 ≡ some best)
              × StandsIn best (available F dec M t clock 0 mirrors).0
              × NoneFaster
                  (get_best_mirror F dec M t clock mirrors).1
                  best
                  (available F dec M t clock 0 mirrors).0)
    unfolding get_best_mirror best_of
    get_best_mirror-NoneFaster t clock mirrors =
        go (available F dec M t clock 0 mirrors).1 (available F dec M t clock 0 mirrors).0
      where
        go :
            (u : MirrorHealthTracker F dec M) (ms : List Text)
            → ((best_of F dec M u ms ≡ none) × (ms ≡ []))
              ⊎ ((best : Text) × (best_of F dec M u ms ≡ some best)
                  × StandsIn best ms
                  × NoneFaster u best ms)
        go u [] = inl (refl, refl)
        go u (m ∷ ms) =
            inr (min_by F dec M u m ms, refl, min_by-StandsIn u m ms, min_by-NoneFaster u m ms)
