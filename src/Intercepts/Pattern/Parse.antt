-- ===== src/Intercepts/Pattern/Parse.antt =====
-- Splitting a pattern on `[^/]+` loses nothing: written out again, the chunks are the pattern.
use hakimi_hub.Prelude.{
  Option-cases, length, take, drop, All, take-append-drop, length-drop, ℕ, zero, suc, ◌+◌, ◌≤◌, ◌<◌,
  ◌≡◌, refl, sym, ap, ◌∙◌, ◌≢◌, inl, inr, some, List, [], ◌∷◌, ◌++◌, arith,
}
use hakimi_hub.Prelude.Str.{Text, codes}
use hakimi_hub.Prelude.Str
use mathlib.Core.List
use hakimi_hub.Prelude.Str.Search.{find_sound}
use hakimi_hub.Intercepts.Pattern.{SegChunk, wild, lit, wildcard, segments, push_lit}

-- The spelling of a list of chunks.
abbrev pub render : List SegChunk → Text
render [] = []
render (wild ∷ cs) = wildcard ++ render cs
render (lit l ∷ cs) = l ++ render cs

render-push_lit : (l : Text) (cs : List SegChunk) → render (push_lit l cs) ≡ l ++ render cs
render-push_lit [] cs = refl
render-push_lit (c ∷ l) cs = refl

drop_nil : (n : ℕ) → drop {A = ℕ} n [] ≡ []
drop_nil zero = refl
drop_nil (suc n) = refl

drop-add : (m n : ℕ) (s : Text) → drop (m + n) s ≡ drop n (drop m s)
drop-add zero n s = let e : 0 + n ≡ n = omega arith in rw e
drop-add (suc m) n [] = drop_nil (suc m + n) ∙ sym (drop_nil n)
drop-add (suc m) n (c ∷ s) = let e : suc m + n ≡ suc (m + n) = omega arith in rw e (drop-add m n s)

-- What stands before, at and after a wildcard that was found.
wildcard_cut :
    (s : Text) (pos : ℕ)
    → Str.find s wildcard ≡ some pos
    → (s ≡ take pos s ++ (wildcard ++ drop (pos + 5) s)) × (pos + 5 ≤ length s)
wildcard_cut s pos h =
    let (b, at) = find_sound s wildcard pos h in
    let (r, e) = at in
    let after : drop (pos + 5) s ≡ r = drop-add pos 5 s ∙ ap (drop 5) e in
    (
      rw after (sym (take-append-drop pos s) ∙ ap (λ t. take pos s ++ t) e),
      omega (arith, length-drop pos s, ap (length {A = ℕ}) e),
    )

-- With fuel above its length, the chunks of a text spell the text.
pub segments-render : (fuel : ℕ) (s : Text) → length s < fuel → render (segments fuel s) ≡ s
unfolding segments
segments-render zero s h = absurd (omega arith)
segments-render (suc fuel) s h = elim (Option-cases (Str.find s wildcard)) [
  | inl e ↦ rw (e, segments) (render-push_lit s [] ∙ List.append-nil s)
  | inr (pos, e) ↦
      let (q, b) = wildcard_cut s pos e in
      let ih = segments-render fuel (drop (pos + 5) s) (omega (arith, length-drop (pos + 5) s)) in
      rw (e, segments)
        (render-push_lit (take pos s) _ ∙ ap (λ t. take pos s ++ (wildcard ++ t)) ih ∙ sym q)
]

-- A literal chunk is not empty.
abbrev pub IsChunk : SegChunk → Type 0
IsChunk wild = Unit
IsChunk (lit l) = l ≢ []

push_lit-IsChunk : (l : Text) (cs : List SegChunk) → All IsChunk cs → All IsChunk (push_lit l cs)
push_lit-IsChunk [] cs h = h
push_lit-IsChunk (c ∷ l) cs h = ((λ e. cc e), h)

pub segments-IsChunk : (fuel : ℕ) (s : Text) → All IsChunk (segments fuel s)
unfolding segments
segments-IsChunk zero s = tt
segments-IsChunk (suc fuel) s = elim (Option-cases (Str.find s wildcard)) [
  | inl e ↦ rw (e, segments) (push_lit-IsChunk s [] tt)
  | inr (pos, e) ↦
      rw (e, segments)
        (push_lit-IsChunk (take pos s) _ (tt, segments-IsChunk fuel (drop (pos + 5) s)))
]
