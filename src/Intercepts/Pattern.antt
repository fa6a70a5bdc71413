-- ===== src/Intercepts/Pattern.antt =====
-- `SimplePattern` of src/intercepts/matcher.rs: the URL path patterns, how they are read from their
-- regular-expression spelling, and how a path is matched. A position in the path is the text
-- that is left from there on.
use hakimi_hub.Prelude.{
  ltb, leb, ◌==◌, if◌then◌else◌, ltb→lt, lt→ltb, leb→le, le→leb, ==_iff, ==_refl, Bool-cases,
  Option-cases, &&-elim, &&-intro, ||-elim, is_some, present, length, get_elem?, take, drop,
  is_empty, any, all, select, All, length-append, take-append-drop, length-take, length-drop,
  take-length_append, drop-length_append, All-append, ℕ, zero, suc, ◌+◌, ◌-◌, ◌*◌, ◌/◌, ◌%◌, ◌^◌,
  ◌≤◌, ◌<◌, ◌≡◌, refl, sym, ap, ◌∙◌, ◌≢◌, ◌↔◌, ◌⊎◌, inl, inr, Bool, true, false, not, ◌&&◌, ◌||◌,
  Option, none, some, List, [], ◌∷◌, ◌++◌, map, arith,
}
use hakimi_hub.Prelude.Str.{Text, codes}
use hakimi_hub.Prelude.Str
use mathlib.Core.Option
use mathlib.Core.List
pub mod Regex
pub mod Parse

pub data SegChunk : Type 0 where
  wild : SegChunk
  lit : Text → SegChunk

pub data SimplePattern : Type 0 where
  starts_with exact : Text → SimplePattern
  match_all : SimplePattern
  contains : Text → SimplePattern
  segment_prefix : List SegChunk → SimplePattern

abbrev pub wildcard : Text
wildcard = codes "[^/]+"

-- `pattern.trim_start_matches('^')`
unfoldable pub trim_carets : Text → Text
trim_carets [] = []
trim_carets (c ∷ s) = let rest = trim_carets s in if c == b'^' then rest else c ∷ s

-- `strip_suffix(".*")`
unfoldable pub strip_any : Text → Option Text
unfolding Str.ends_with
strip_any p = if Str.ends_with p (codes ".*") then some (take (length p - 2) p) else none

abbrev pub push_lit : Text → List SegChunk → List SegChunk
push_lit [] cs = cs
push_lit (c ∷ l) cs = lit (c ∷ l) ∷ cs

-- The loop that splits on `[^/]+`. Each round drops at least five bytes, so fuel above the length
-- of the text is enough (`segments-render`).
unfoldable pub segments : ℕ → Text → List SegChunk
unfolding Str.find
segments zero rest = []
segments (suc fuel) rest = elim (Str.find rest wildcard) [
  | none ↦ push_lit rest []
  | some pos ↦ push_lit (take pos rest) (wild ∷ segments fuel (drop (pos + 5) rest))
]

unfoldable pub parse_segment_prefix : Text → SimplePattern
unfolding segments strip_any
parse_segment_prefix p =
    let rest = Option.get_or (strip_any p) p in segment_prefix (segments (suc (length rest)) rest)

unfoldable pub from_pattern : Text → SimplePattern
unfolding trim_carets strip_any parse_segment_prefix Str.contains
from_pattern pattern =
    let anchored = Str.starts_with pattern (codes "^") in
    let p = trim_carets pattern in
    if Str.contains p wildcard then parse_segment_prefix p else elim (strip_any p) [
      | some prefix ↦
          if is_empty prefix
          then match_all
          else if anchored
          then starts_with prefix
          else contains prefix
      | none ↦ if Str.text_eq p (codes ".*") || is_empty p then match_all else exact p
    ]

-- The inner loop of a wildcard: what is left from the next slash on.
unfoldable pub skip_segment : Text → Text
skip_segment [] = []
skip_segment (c ∷ s) = let rest = skip_segment s in if c == b'/' then c ∷ s else rest

unfoldable pub matches_segment_prefix : List SegChunk → Text → Bool
unfolding skip_segment Str.starts_with Str.text_eq
matches_segment_prefix [] path = true
matches_segment_prefix (wild ∷ chunks) [] = false
matches_segment_prefix (wild ∷ chunks) (c ∷ path) =
    let rest = matches_segment_prefix chunks (skip_segment path) in
    if c == b'/' then false else rest
matches_segment_prefix (lit l ∷ []) path =
    if ltb (length path) (length l) then false else Str.starts_with path l
matches_segment_prefix (lit l ∷ d ∷ chunks) path =
    let rest = matches_segment_prefix (d ∷ chunks) (drop (length l) path) in
    if ltb (length path) (length l)
    then false
    else if Str.text_eq (take (length l) path) l
    then rest
    else false

unfoldable pub matches : SimplePattern → Text → Bool
unfolding matches_segment_prefix Str.contains
matches (starts_with prefix) path = Str.starts_with path prefix
matches (exact s) path = Str.text_eq path s
matches match_all path = true
matches (contains s) path = Str.contains path s
matches (segment_prefix chunks) path = matches_segment_prefix chunks path

release_pattern :
    from_pattern (codes "^/[^/]+/[^/]+/releases/download/.*")
    ≡ segment_prefix
        (lit (codes "/") ∷ wild ∷ lit (codes "/") ∷ wild ∷ lit (codes "/releases/download/") ∷ [])
unfolding from_pattern
release_pattern = refl

other_patterns :
    (from_pattern (codes "^/.*") ≡ starts_with (codes "/"))
    × (from_pattern (codes "/recaptcha/.*") ≡ contains (codes "/recaptcha/"))
    × (from_pattern (codes ".*") ≡ match_all)
    × (from_pattern (codes "/exact/path") ≡ exact (codes "/exact/path"))
unfolding from_pattern
other_patterns = (refl, refl, refl, refl)
