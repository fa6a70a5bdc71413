-- ===== src/Intercepts/Pattern/Regex.antt =====
-- `matches_segment_prefix` against the regular expression that the chunks stand for.
use hakimi_hub.Prelude.{
  ◌==◌, Bool-cases, length, take, drop, All, length-append, take-append-drop, take-length_append,
  drop-length_append, ℕ, ◌≡◌, refl, sym, ap, ◌∙◌, ◌≢◌, inl, inr, true, false, List, [], ◌∷◌, ◌++◌,
  arith,
}
use hakimi_hub.Prelude.Str.{Text}
use hakimi_hub.Prelude.Str.Search.{
  HasPrefix-of_starts_with, starts_with-append, eq_of_text_eq, text_eq_refl,
}
use hakimi_hub.Intercepts.Pattern.{SegChunk, wild, lit, skip_segment, matches_segment_prefix}

-- One or more bytes other than a slash.
abbrev pub IsSegment : Text → Type 0
IsSegment s = (s ≢ []) × All (λ c. (c == b'/') ≡ false) s

-- The path begins with a text of the regular expression: `wild` is `[^/]+`, at any length.
pub data RegexMatches : List SegChunk → Text → Type 0 where
  done : {s : Text} → RegexMatches [] s
  take_segment :
      {cs : List SegChunk} {path : Text} (seg s : Text)
      → IsSegment seg
      → path ≡ seg ++ s
      → RegexMatches cs s
      → RegexMatches (wild ∷ cs) path
  take_literal :
      {cs : List SegChunk} {path : Text} {l : Text} (s : Text)
      → path ≡ l ++ s
      → RegexMatches cs s
      → RegexMatches (lit l ∷ cs) path

-- Each wildcard stands at the end or before a literal that begins with a slash.
abbrev pub IsSeparated : List SegChunk → Type 0
IsSeparated [] = Unit
IsSeparated (lit l ∷ cs) = IsSeparated cs
IsSeparated (wild ∷ []) = Unit
IsSeparated (wild ∷ wild ∷ cs) = ⊥
IsSeparated (wild ∷ lit [] ∷ cs) = ⊥
IsSeparated (wild ∷ lit (c ∷ l) ∷ cs) = ((c == b'/') ≡ true) × IsSeparated cs

skip_segment_split :
    (s : Text) → (seg : Text) × (s ≡ seg ++ skip_segment s) × All (λ c. (c == b'/') ≡ false) seg
unfolding skip_segment
skip_segment_split [] = ([], refl, tt)
skip_segment_split (c ∷ s) = elim (Bool-cases (c == b'/')) [
  | inl e ↦ ([], rw e, tt)
  | inr e ↦ let (seg, q, a) = skip_segment_split s in (c ∷ seg, rw e (ap (◌∷◌ c) q), (e, a))
]

-- A path that the matcher accepts begins with a text of the regular expression.
pub matches_segment_prefix_sound :
    (cs : List SegChunk) (path : Text)
    → matches_segment_prefix cs path ≡ true
    → RegexMatches cs path
unfolding matches_segment_prefix
matches_segment_prefix_sound [] path h = RegexMatches.done
matches_segment_prefix_sound (wild ∷ cs) [] h = cc
matches_segment_prefix_sound (wild ∷ cs) (c ∷ path) h = elim (Bool-cases (c == b'/')) [
  | inl e ↦ let g : false ≡ true = rw e at h in cc g
  | inr e ↦
      let (seg, q, a) = skip_segment_split path in
      RegexMatches.take_segment (c ∷ seg) (skip_segment path) (λ z. cc z, (e, a)) (ap (◌∷◌ c) q)
        (matches_segment_prefix_sound cs (skip_segment path) (rw e at h))
]
matches_segment_prefix_sound (lit l ∷ []) path h =
    let (r, e) = HasPrefix-of_starts_with path l (ground arith) in
    RegexMatches.take_literal r e RegexMatches.done
matches_segment_prefix_sound (lit l ∷ d ∷ cs) path h =
    let e : take (length l) path ≡ l = eq_of_text_eq (take (length l) path) l (ground arith) in
    RegexMatches.take_literal (drop (length l) path)
      (sym (take-append-drop (length l) path) ∙ ap (λ t. t ++ drop (length l) path) e)
      (matches_segment_prefix_sound (d ∷ cs) (drop (length l) path) (ground arith))

skip_segment-append :
    (seg s : Text) (c : ℕ)
    → All (λ c. (c == b'/') ≡ false) seg
    → (c == b'/') ≡ true
    → skip_segment (seg ++ c ∷ s) ≡ c ∷ s
unfolding skip_segment
skip_segment-append [] s c a e = rw e
skip_segment-append (d ∷ seg) s c a e = rw (a.0) (skip_segment-append seg s c a.1 e)

matches_literal :
    (l : Text) (cs : List SegChunk) (s : Text)
    → matches_segment_prefix cs s ≡ true
    → matches_segment_prefix (lit l ∷ cs) (l ++ s) ≡ true
unfolding matches_segment_prefix
matches_literal l [] s h = ground (arith, length-append l s, starts_with-append l s)
matches_literal l (d ∷ cs) s h =
    ground
      (arith, length-append l s, take-length_append l s, drop-length_append l s, text_eq_refl l)

-- After a segment the scan stands where the regular expression goes on, if the chunks are
-- separated.
matches_wild :
    (cs : List SegChunk) (seg s : Text)
    → IsSeparated (wild ∷ cs)
    → IsSegment seg
    → RegexMatches cs s
    → matches_segment_prefix cs s ≡ true
    → matches_segment_prefix (wild ∷ cs) (seg ++ s) ≡ true
unfolding matches_segment_prefix
matches_wild cs [] s p a m h = absurd (a.0 refl)
matches_wild [] (c ∷ seg) s p a m h = rw (a.1.0)
matches_wild (wild ∷ cs) (c ∷ seg) s p a m h = elim p [ ]
matches_wild (lit [] ∷ cs) (c ∷ seg) s p a m h = elim p [ ]
matches_wild (lit (d ∷ l) ∷ cs) (c ∷ seg) s p a (RegexMatches.take_literal r e m) h = rw (a.1.0) (
    rw (ap (λ t. skip_segment (seg ++ t)) e ∙ skip_segment-append seg (l ++ r) d a.1.1 p.0 ∙ sym e)
      h)

IsSeparated-tail : (c : SegChunk) (cs : List SegChunk) → IsSeparated (c ∷ cs) → IsSeparated cs
IsSeparated-tail (lit l) cs p = p
IsSeparated-tail wild [] p = tt
IsSeparated-tail wild (wild ∷ cs) p = elim p [ ]
IsSeparated-tail wild (lit [] ∷ cs) p = elim p [ ]
IsSeparated-tail wild (lit (d ∷ l) ∷ cs) p = p.1

-- Where the chunks are separated, every path that begins with a text of the regular expression is
-- accepted.
pub matches_segment_prefix_complete :
    {cs : List SegChunk} {path : Text}
    → RegexMatches cs path
    → IsSeparated cs
    → matches_segment_prefix cs path ≡ true
unfolding matches_segment_prefix
matches_segment_prefix_complete RegexMatches.done p = refl
matches_segment_prefix_complete {cs = wild ∷ cs} (RegexMatches.take_segment seg s a e m) p =
    rw e
      (matches_wild cs seg s p a m (matches_segment_prefix_complete m (IsSeparated-tail wild cs p)))
matches_segment_prefix_complete {cs = lit l ∷ cs} (RegexMatches.take_literal s e m) p =
    rw e (matches_literal l cs s (matches_segment_prefix_complete m p))
