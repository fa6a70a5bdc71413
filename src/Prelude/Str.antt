-- ===== src/Prelude/Str.antt =====
-- Texts as the lists of their bytes, and what the program uses of Rust's `str` and `[u8]`:
-- prefixes, suffixes, searches, lines, words, case folding and decimal parsing. The texts are
-- ASCII wherever a function of this module folds case or tests for white space.
pub mod Search
pub mod Fold
pub mod Print
pub mod Words
pub mod Lines
pub mod Front
pub mod Utf8
pub mod Alike
use Prim.Native.Char.{code}
use Prim.Native.String.{String}
use Prim.Native.Nat.{ℕ, zero, suc, ◌/◌, ◌%◌, ◌+◌, ◌-◌, ◌*◌}
use mathlib.Core.Bool.{Bool, true, false, ◌&&◌, ◌||◌}
use mathlib.Core.Option
use mathlib.Core.Option.{Option, none, some}
use mathlib.Core.List.{List, [], ◌∷◌, ◌++◌, map, reverse}
use hakimi_hub.Prelude.Tests.{leb, ltb, ◌==◌, if◌then◌else◌, is_some}
use hakimi_hub.Prelude.Lists.{length, take, drop, is_empty}

abbrev pub Text : Type 0
Text = List ℕ

-- The bytes of an ASCII literal.
abbrev pub codes : String → Text
codes String.[] = []
codes (String.◌∷◌ c s) = code c ∷ codes s

-- `a == b` on texts.
unfoldable pub text_eq : Text → Text → Bool
text_eq [] [] = true
text_eq [] (d ∷ t) = false
text_eq (c ∷ s) [] = false
text_eq (c ∷ s) (d ∷ t) = c == d && text_eq s t

-- `s.starts_with(p)`
unfoldable pub starts_with : Text → Text → Bool
starts_with s [] = true
starts_with [] (d ∷ p) = false
starts_with (c ∷ s) (d ∷ p) = c == d && starts_with s p

-- `s.strip_prefix(p)`
unfoldable pub strip_prefix : Text → Text → Option Text
unfolding starts_with
strip_prefix s p = if starts_with s p then some (drop (length p) s) else none

-- `s.ends_with(p)`
unfoldable pub ends_with : Text → Text → Bool
unfolding text_eq
ends_with s p = leb (length p) (length s) && text_eq (drop (length s - length p) s) p

-- `s.find(p)`: the first position at which `p` stands in `s`.
unfoldable pub find : Text → Text → Option ℕ
unfolding starts_with
find [] p = if starts_with [] p then some 0 else none
find (c ∷ s) p =
    let rest = find s p in if starts_with (c ∷ s) p then some 0 else Option.map suc rest

-- `s.contains(p)`
unfoldable pub contains : Text → Text → Bool
unfolding find
contains s p = is_some (find s p)

-- `s.split(c)`: the parts between the separators, at least one.
unfoldable pub split_cons : ℕ → ℕ → List Text → List Text
split_cons sep c [] = (c ∷ []) ∷ []
split_cons sep c (p ∷ ps) = if c == sep then [] ∷ p ∷ ps else (c ∷ p) ∷ ps

unfoldable pub split : ℕ → Text → List Text
unfolding split_cons
split sep [] = [] ∷ []
split sep (c ∷ s) = split_cons sep c (split sep s)

-- The first part of `s.split(c)`.
unfoldable pub before : ℕ → Text → Text
before sep [] = []
before sep (c ∷ s) = let rest = before sep s in if c == sep then [] else c ∷ rest

unfoldable pub is_whitespace : ℕ → Bool
is_whitespace c = (leb 9 c && leb c 13) || c == 32

-- `s.split_whitespace()`: the maximal runs of other characters.
unfoldable pub word_cons : ℕ → Text → List Text → List Text
unfolding is_whitespace
word_cons c [] ws = if is_whitespace c then ws else (c ∷ []) ∷ ws
word_cons c (d ∷ s) [] = if is_whitespace c then [] else (c ∷ []) ∷ []
word_cons c (d ∷ s) (w ∷ ws) =
    if is_whitespace c then w ∷ ws else if is_whitespace d then (c ∷ []) ∷ w ∷ ws else (c ∷ w) ∷ ws

unfoldable pub split_whitespace : Text → List Text
unfolding word_cons
split_whitespace [] = []
split_whitespace (c ∷ s) = word_cons c s (split_whitespace s)

unfoldable pub trim_start : Text → Text
unfolding is_whitespace
trim_start [] = []
trim_start (c ∷ s) = let rest = trim_start s in if is_whitespace c then rest else c ∷ s

-- `s.trim()`
unfoldable pub trim : Text → Text
unfolding trim_start
trim s = reverse (trim_start (reverse (trim_start s)))

unfoldable pub to_lower : ℕ → ℕ
to_lower c = if leb b'A' c && leb c b'Z' then c + 32 else c

-- `s.to_lowercase()` of an ASCII text, and `s.to_ascii_lowercase()`.
unfoldable pub to_lowercase : Text → Text
unfolding to_lower
to_lowercase s = map to_lower s

-- The lines before the last newline, and what follows it; a line loses one carriage return at
-- its end.
unfoldable pub chomp : Text → Text
chomp [] = []
chomp (c ∷ []) = if c == 13 then [] else c ∷ []
chomp (c ∷ d ∷ s) = c ∷ chomp (d ∷ s)

unfoldable pub chomp_lines : List Text → List Text
unfolding chomp
chomp_lines [] = []
chomp_lines (l ∷ []) = if is_empty l then [] else l ∷ []
chomp_lines (l ∷ m ∷ ls) = chomp l ∷ chomp_lines (m ∷ ls)

-- `s.lines()`
unfoldable pub lines : Text → List Text
unfolding split chomp_lines
lines s = chomp_lines (split 10 s)

unfoldable pub is_digit : ℕ → Bool
is_digit c = leb 48 c && leb c 57

-- Decimal digits from an accumulator, refused as soon as the value passes `max`.
unfoldable pub parse_digits : ℕ → ℕ → Text → Option ℕ
unfolding is_digit
parse_digits max n [] = some n
parse_digits max n (c ∷ s) =
    let m = n * 10 + (c - 48) in
    let rest = parse_digits max m s in if is_digit c && leb m max then rest else none

-- `s.parse()` at an unsigned type whose greatest value is `max`: an optional `+`, then digits.
unfoldable pub parse_unsigned : ℕ → Text → Option ℕ
unfolding parse_digits
parse_unsigned max [] = none
parse_unsigned max (c ∷ []) = if c == 43 then none else parse_digits max 0 (c ∷ [])
parse_unsigned max (c ∷ d ∷ s) =
    if c == 43 then parse_digits max 0 (d ∷ s) else parse_digits max 0 (c ∷ d ∷ s)

-- `s.rsplitn(2, c)`: what follows the last separator, and what goes before it, if there is one.
unfoldable pub rsplit2 : ℕ → Text → Text × Option Text
rsplit2 sep [] = ([], none)
rsplit2 sep (c ∷ s) =
    let r = rsplit2 sep s in
    elim r.1 [
      | some t ↦ (r.0, some (c ∷ t))
      | none ↦ if c == sep then (r.0, some []) else (c ∷ r.0, none)
    ]

-- `s.replace(p, r)` for a `p` that is not empty, with a round for each occurrence; fuel above the
-- length of the text is enough.
unfoldable pub replace_within : ℕ → Text → Text → Text → Text
unfolding find
replace_within zero s p r = s
replace_within (suc fuel) s p r = elim (find s p) [
  | none ↦ s
  | some i ↦ take i s ++ (r ++ replace_within fuel (drop (i + length p) s) p r)
]

unfoldable pub replace : Text → Text → Text → Text
unfolding replace_within
replace s p r = replace_within (suc (length s)) s p r

-- `format!("{}", n)`: the digits of a number; fuel above the number is enough (`parse-decimal`).
unfoldable pub decimal_onto : ℕ → ℕ → Text → Text
decimal_onto zero n acc = acc
decimal_onto (suc fuel) n acc =
    let more = decimal_onto fuel (n / 10) ((48 + n % 10) ∷ acc) in
    if ltb n 10 then (48 + n) ∷ acc else more

unfoldable pub decimal : ℕ → Text
unfolding decimal_onto
decimal n = decimal_onto (suc n) n []

-- `lines.join("\r\n")`
unfoldable pub join_lines : List Text → Text
join_lines [] = []
join_lines (l ∷ []) = l
join_lines (l ∷ m ∷ ls) = l ++ (codes "\r\n" ++ join_lines (m ∷ ls))
