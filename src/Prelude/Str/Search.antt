-- ===== src/Prelude/Str/Search.antt =====
-- What the searches of `Text` decide: equality, prefixes, suffixes, and the first occurrence.
use hakimi_hub.Prelude.Str.{Text, text_eq, starts_with, strip_prefix, ends_with, find}
use mathlib.Core.List.{[], ◌∷◌, ◌++◌}
use Prim.Native.Nat.{ℕ, zero, suc, ◌-◌, ◌≤◌, ◌<◌}
use mathlib.Core.Path.{◌≡◌, refl, ap, ◌∙◌, sym}
use mathlib.Core.Logic.{◌↔◌, inl, inr}
use mathlib.Core.Bool.{true, false}
use mathlib.Core.Option.{none, some}
use native.Mathlib.Omega.{arith}
use hakimi_hub.Prelude.Tests.{
  ◌==◌, ==_iff, ==_refl, Bool-cases, Option-cases, &&-elim, &&-intro, le→leb, leb,
}
use hakimi_hub.Prelude.Lists.{
  length, drop, take, drop-length_append, length-append, take-append-drop,
}

pub eq_of_text_eq : (s t : Text) → text_eq s t ≡ true → s ≡ t
unfolding text_eq
eq_of_text_eq [] [] h = refl
eq_of_text_eq [] (d ∷ t) h = cc
eq_of_text_eq (c ∷ s) [] h = cc
eq_of_text_eq (c ∷ s) (d ∷ t) h =
    let (e, k) = &&-elim (c == d) (text_eq s t) h in cc ((==_iff c d).0 e, eq_of_text_eq s t k)

pub text_eq_refl : (s : Text) → text_eq s s ≡ true
unfolding text_eq
text_eq_refl [] = refl
text_eq_refl (c ∷ s) = &&-intro (c == c) (text_eq s s) (==_refl c) (text_eq_refl s)

pub text_eq_iff : (s t : Text) → (text_eq s t ≡ true) ↔ (s ≡ t)
text_eq_iff s t = (eq_of_text_eq s t, λ e. rw (← e) (text_eq_refl s))

-- `p` is a prefix of `s`.
abbrev pub HasPrefix : Text → Text → Type 0
HasPrefix s p = (r : Text) × (s ≡ p ++ r)

-- `p` is a suffix of `s`.
abbrev pub HasSuffix : Text → Text → Type 0
HasSuffix s p = (r : Text) × (s ≡ r ++ p)

pub HasPrefix-of_starts_with : (s p : Text) → starts_with s p ≡ true → HasPrefix s p
unfolding starts_with
HasPrefix-of_starts_with s [] h = (s, refl)
HasPrefix-of_starts_with [] (d ∷ p) h = absurd (ground arith)
HasPrefix-of_starts_with (c ∷ s) (d ∷ p) h =
    let (e, k) = &&-elim (c == d) (starts_with s p) h in
    let (r, q) = HasPrefix-of_starts_with s p k in (r, cc ((==_iff c d).0 e, q))

pub starts_with-append : (p r : Text) → starts_with (p ++ r) p ≡ true
unfolding starts_with
starts_with-append [] [] = refl
starts_with-append [] (c ∷ r) = refl
starts_with-append (c ∷ p) r =
    &&-intro (c == c) (starts_with (p ++ r) p) (==_refl c) (starts_with-append p r)

pub starts_with_iff : (s p : Text) → (starts_with s p ≡ true) ↔ HasPrefix s p
starts_with_iff s p =
    (HasPrefix-of_starts_with s p, λ h. let (r, e) = h in rw e (starts_with-append p r))

pub strip_prefix-append : (p r : Text) → strip_prefix (p ++ r) p ≡ some r
unfolding strip_prefix
strip_prefix-append p r = rw (starts_with-append p r) (ap some (drop-length_append p r))

pub eq_of_strip_prefix : (s p : Text) {r : Text} → strip_prefix s p ≡ some r → s ≡ p ++ r
unfolding strip_prefix
eq_of_strip_prefix s p {r} h = elim (Bool-cases (starts_with s p)) [
  | inl e ↦
      let (q, k) = HasPrefix-of_starts_with s p e in
      let f : drop (length p) s ≡ q = rw k (drop-length_append p q) in
      let g : some (drop (length p) s) ≡ some r = rw e at h in cc (f, g, k)
  | inr e ↦ let g : none ≡ some r = rw e at h in cc g
]

pub ends_with-append : (r p : Text) → ends_with (r ++ p) p ≡ true
unfolding ends_with
ends_with-append r p =
    &&-intro (leb (length p) (length (r ++ p)))
      (text_eq (drop (length (r ++ p) - length p) (r ++ p)) p)
      (le→leb _ _ (omega (arith, length-append r p)))
      (rw (cut, drop-length_append r p) (text_eq_refl p))
  where
    cut : length (r ++ p) - length p ≡ length r
    cut = omega (arith, length-append r p)

pub HasSuffix-of_ends_with : (s p : Text) → ends_with s p ≡ true → HasSuffix s p
unfolding ends_with
HasSuffix-of_ends_with s p h =
    let (e, k) = &&-elim (leb (length p) (length s)) (text_eq (drop n s) p) h in
    (take n s, sym (take-append-drop n s) ∙ ap (λ t. take n s ++ t) (eq_of_text_eq (drop n s) p k))
  where
    n : ℕ
    n = length s - length p

pub ends_with_iff : (s p : Text) → (ends_with s p ≡ true) ↔ HasSuffix s p
ends_with_iff s p = (HasSuffix-of_ends_with s p, λ h. let (r, e) = h in rw e (ends_with-append r p))

-- `p` stands at position `i` of `s`.
abbrev pub StandsAt : Text → Text → ℕ → Type 0
StandsAt s p i = (i ≤ length s) × HasPrefix (drop i s) p

pub find_sound : (s p : Text) (i : ℕ) → find s p ≡ some i → StandsAt s p i
unfolding find
find_sound [] p i h = elim (Bool-cases (starts_with [] p)) [
  | inl e ↦
      let g : some 0 ≡ some i = rw e at h in
      let f : i ≡ 0 = cc g in rw f (omega arith, HasPrefix-of_starts_with [] p e)
  | inr e ↦ let g : none ≡ some i = rw e at h in cc g
]
find_sound (c ∷ s) p i h = elim (Bool-cases (starts_with (c ∷ s) p)) [
  | inl e ↦
      let g : some 0 ≡ some i = rw e at h in
      let f : i ≡ 0 = cc g in rw f (omega arith, HasPrefix-of_starts_with (c ∷ s) p e)
  | inr e ↦ elim (Option-cases (find s p)) [
    | inl q ↦ let g : none ≡ some i = rw (e, q) at h in cc g
    | inr (j, q) ↦
        let g : some (suc j) ≡ some i = rw (e, q) at h in
        let f : i ≡ suc j = cc g in let (b, k) = find_sound s p j q in rw f (omega arith, k)
  ]
]

-- Nothing before the position that `find` returns begins with `p`.
pub find_first :
    (s p : Text) (i j : ℕ) → find s p ≡ some i → j < i → starts_with (drop j s) p ≡ false
unfolding find
find_first [] p i j h l = absurd (ground arith)
find_first (c ∷ s) p i zero h l = ground arith
find_first (c ∷ s) p i (suc j) h l = elim (Option-cases (find s p)) [
  | inl q ↦ absurd (ground arith)
  | inr (k, q) ↦ find_first s p k j q (ground arith)
]

-- Where `find` finds nothing, `p` stands nowhere.
pub find-none : (s p : Text) (j : ℕ) → find s p ≡ none → starts_with (drop j s) p ≡ false
unfolding find
find-none [] p zero h = ground arith
find-none [] p (suc j) h = ground arith
find-none (c ∷ s) p zero h = ground arith
find-none (c ∷ s) p (suc j) h = find-none s p j (ground arith)
