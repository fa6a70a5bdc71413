-- ===== src/Prelude/Str/Front.antt =====
-- What is found in the front of a text is found at the same place in the whole.
use hakimi_hub.Prelude.Str
use hakimi_hub.Prelude.Str.{Text}
use hakimi_hub.Prelude.Str.Search.{find_sound}
use Prim.Native.Nat.{ℕ, suc, ◌+◌, ◌≤◌}
use mathlib.Core.Path.{◌≡◌, refl, ap, ◌∙◌, sym}
use mathlib.Core.Logic.{inl, inr}
use mathlib.Core.Bool.{true, false}
use mathlib.Core.Option.{some, none}
use mathlib.Core.List.{[], ◌∷◌, ◌++◌}
use native.Mathlib.Omega.{arith}
use hakimi_hub.Prelude.Tests.{◌==◌, Bool-cases, Option-cases, &&-elim, &&-intro}
use hakimi_hub.Prelude.Lists.{length, drop, length-drop, length-append}

starts_with_longer : (s t p : Text) → Str.starts_with s p ≡ true → Str.starts_with (s ++ t) p ≡ true
unfolding Str.starts_with
starts_with_longer s t [] h = refl
starts_with_longer [] t (x ∷ p) h = absurd (cc h)
starts_with_longer (c ∷ s) t (x ∷ p) h =
    let (e, f) = &&-elim (c == x) (Str.starts_with s p) h in
    &&-intro (c == x) (Str.starts_with (s ++ t) p) e (starts_with_longer s t p f)

starts_with_within :
    (s t p : Text)
    → length p ≤ length s
    → Str.starts_with (s ++ t) p ≡ true
    → Str.starts_with s p ≡ true
unfolding Str.starts_with
starts_with_within s t [] l h = refl
starts_with_within [] t (x ∷ p) l h = absurd (omega (arith, l))
starts_with_within (c ∷ s) t (x ∷ p) l h =
    let (e, f) = &&-elim (c == x) (Str.starts_with (s ++ t) p) h in
    &&-intro (c == x) (Str.starts_with s p) e (starts_with_within s t p (omega (arith, l)) f)

find_here : (s p : Text) → Str.starts_with s p ≡ true → Str.find s p ≡ some 0
unfolding Str.find
find_here [] p h = rw h refl
find_here (c ∷ s) p h = rw h refl

find_later :
    (c : ℕ) (s p : Text) (j : ℕ)
    → Str.starts_with (c ∷ s) p ≡ false
    → Str.find s p ≡ some j
    → Str.find (c ∷ s) p ≡ some (suc j)
unfolding Str.find
find_later c s p j h e = rw (h, e) refl

prefix_length : (s p : Text) → Str.starts_with s p ≡ true → length p ≤ length s
unfolding Str.starts_with
prefix_length s [] h = omega arith
prefix_length [] (x ∷ p) h = absurd (cc h)
prefix_length (c ∷ s) (x ∷ p) h =
    omega (arith, prefix_length s p (&&-elim (c == x) (Str.starts_with s p) h).1)

-- The place and the length of what is found fit into the text.
pub find_fits : (s p : Text) (i : ℕ) → Str.find s p ≡ some i → i + length p ≤ length s
find_fits s p i e = let (l, (r, f)) = find_sound s p i e in fits s p i r l f
  where
    fits :
        (s p : Text) (i : ℕ) (r : Text) → i ≤ length s → drop i s ≡ p ++ r → i + length p ≤ length s
    fits s p i r l f = omega (arith, l, length-drop i s, ap length f, length-append p r)

missing : (p : Text) → Str.starts_with [] p ≡ false → Str.find [] p ≡ none
unfolding Str.find
missing p h = rw h refl

not_later :
    (c : ℕ) (s p : Text)
    → Str.starts_with (c ∷ s) p ≡ false
    → Str.find s p ≡ none
    → Str.find (c ∷ s) p ≡ none
unfolding Str.find
not_later c s p h e = rw (h, e) refl

still_no :
    (c : ℕ) (s t p : Text) (j : ℕ)
    → Str.starts_with (c ∷ s) p ≡ false
    → Str.find s p ≡ some j
    → Str.starts_with (c ∷ (s ++ t)) p ≡ false
still_no c s t p j h e = elim (Bool-cases (Str.starts_with (c ∷ (s ++ t)) p)) [
  | inr f ↦ f
  | inl f ↦
      absurd (cc (sym (starts_with_within (c ∷ s) t p (omega (arith, find_fits s p j e)) f) ∙ h))
]

pub find_longer : (s t p : Text) (i : ℕ) → Str.find s p ≡ some i → Str.find (s ++ t) p ≡ some i
find_longer [] t p i e = elim (Bool-cases (Str.starts_with [] p)) [
  | inl h ↦ find_here t p (starts_with_longer [] t p h) ∙ sym (find_here [] p h) ∙ e
  | inr h ↦ absurd (cc (sym (missing p h) ∙ e))
]
find_longer (c ∷ s) t p i e = elim (Bool-cases (Str.starts_with (c ∷ s) p)) [
  | inl h ↦
      find_here (c ∷ (s ++ t)) p (starts_with_longer (c ∷ s) t p h)
      ∙ sym (find_here (c ∷ s) p h)
      ∙ e
  | inr h ↦ elim (Option-cases (Str.find s p)) [
    | inl q ↦ absurd (cc (sym (not_later c s p h q) ∙ e))
    | inr (j, q) ↦
        find_later c (s ++ t) p j (still_no c s t p j h q) (find_longer s t p j q)
        ∙ sym (find_later c s p j h q)
        ∙ e
  ]
]
