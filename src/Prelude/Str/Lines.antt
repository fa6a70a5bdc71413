-- ===== src/Prelude/Str/Lines.antt =====
-- Heads of messages: lines between carriage returns and newlines, up to an empty line.
use hakimi_hub.Prelude.Str
use hakimi_hub.Prelude.Str.{Text, codes}
use Prim.Native.Nat.{ℕ, suc, ◌+◌}
use mathlib.Core.Path.{◌≡◌, refl, ap, ◌∙◌, sym}
use mathlib.Core.Logic.{inl, inr, ◌≢◌}
use mathlib.Core.Bool.{false}
use mathlib.Core.Option.{some}
use mathlib.Core.List.{List, [], ◌∷◌, ◌++◌, append_assoc}
use native.Mathlib.Omega.{arith}
use hakimi_hub.Prelude.Tests.{◌==◌, Bool-cases}
use hakimi_hub.Prelude.Lists.{length, All, length-append}

-- A line that is not empty and has no line break in it.
abbrev pub IsLine : Text → Type 0
IsLine l = (l ≢ []) × All (λ c. ((c == 13) ≡ false) × ((c == 10) ≡ false)) l

split_cons-other :
    (c : ℕ) (p : Text) (ps : List Text)
    → (c == 10) ≡ false
    → Str.split_cons 10 c (p ∷ ps) ≡ (c ∷ p) ∷ ps
unfolding Str.split_cons
split_cons-other c p ps h = rw h refl

split-newline : (s : Text) → (p : Text) × (ps : List Text) × (Str.split 10 s ≡ p ∷ ps)
unfolding Str.split Str.split_cons
split-newline [] = ([], [], refl)
split-newline (c ∷ s) =
    let (p, ps, e) = split-newline s in
    elim (Bool-cases (c == 10)) [
      | inl h ↦ ([], p ∷ ps, rw (e, h) refl)
      | inr h ↦ (c ∷ p, ps, rw (e, h) refl)
    ]

split-line :
    (l s : Text)
    → All (λ c. ((c == 13) ≡ false) × ((c == 10) ≡ false)) l
    → Str.split 10 (l ++ (13 ∷ 10 ∷ s)) ≡ (l ++ (13 ∷ [])) ∷ Str.split 10 s
unfolding Str.split
split-line [] s h = let (p, ps, e) = split-newline s in unfold Str.split_cons in rw e refl
split-line (c ∷ l) s h =
    rw (split-line l s h.1) (split_cons-other c (l ++ (13 ∷ [])) (Str.split 10 s) h.0.1)

split_last :
    (l : Text) → All (λ c. ((c == 13) ≡ false) × ((c == 10) ≡ false)) l → Str.split 10 l ≡ l ∷ []
unfolding Str.split
split_last [] h = refl
split_last (c ∷ l) h = rw (split_last l h.1) (split_cons-other c l [] h.0.1)

chomp-append : (l : Text) → Str.chomp (l ++ (13 ∷ [])) ≡ l
unfolding Str.chomp
chomp-append [] = refl
chomp-append (c ∷ []) = refl
chomp-append (c ∷ d ∷ l) = ap (λ t. c ∷ t) (chomp-append (d ∷ l))

-- The lines that a head is joined from are read back.
pub lines-join_lines :
    (l : Text) (ls : List Text) → All IsLine (l ∷ ls) → Str.lines (Str.join_lines (l ∷ ls)) ≡ l ∷ ls
unfolding Str.lines Str.join_lines
lines-join_lines [] ls h = absurd (h.0.0 refl)
lines-join_lines (c ∷ l) [] h = rw (split_last (c ∷ l) h.0.1) (unfold Str.chomp_lines in refl)
lines-join_lines (c ∷ l) (m ∷ ls) h =
    let (p, ps, e) = split-newline (Str.join_lines (m ∷ ls)) in
    let ih = lines-join_lines m ls h.1 in
    let k : Str.chomp_lines (p ∷ ps) ≡ m ∷ ls = rw (← e) ih in
    rw (split-line (c ∷ l) (Str.join_lines (m ∷ ls)) h.0.1, e)
      (unfold Str.chomp_lines in cc (k, chomp-append (c ∷ l)))

abbrev pub blank : Text
blank = codes "\r\n\r\n"

find-skip :
    (l s : Text)
    → All (λ c. ((c == 13) ≡ false) × ((c == 10) ≡ false)) l
    → (i : ℕ) → Str.find s blank ≡ some i
    → Str.find (l ++ s) blank ≡ some (length l + i)
unfolding Str.find Str.starts_with
find-skip [] s h i e = e ∙ ap some (omega arith)
find-skip (c ∷ l) s h i e = ground (arith, find-skip l s h.1 i e, h.0)

find-break :
    (c : ℕ) (s : Text) (i : ℕ)
    → (c == 13) ≡ false
    → Str.find (c ∷ s) blank ≡ some i
    → Str.find (13 ∷ 10 ∷ c ∷ s) blank ≡ some (suc (suc i))
unfolding Str.find Str.starts_with
find-break c s i h e = ground (arith, e, h)

find-blank : (body : Text) → Str.find (blank ++ body) blank ≡ some 0
unfolding Str.find Str.starts_with
find-blank [] = refl
find-blank (c ∷ body) = refl

-- The first empty line is where the head ends, whatever the body holds.
pub find-join_lines :
    (l : Text) (ls : List Text) (body : Text)
    → All IsLine (l ∷ ls)
    → Str.find (Str.join_lines (l ∷ ls) ++ (blank ++ body)) blank
      ≡ some (length (Str.join_lines (l ∷ ls)))
unfolding Str.join_lines
find-join_lines l [] body h =
    find-skip l (blank ++ body) h.0.1 0 (find-blank body) ∙ ap some (omega arith)
find-join_lines l ([] ∷ ls) body h = absurd (h.1.0.0 refl)
find-join_lines l ((c ∷ m) ∷ ls) body h =
    let rest = Str.join_lines ((c ∷ m) ∷ ls) in
    let ih = find-join_lines (c ∷ m) ls body h.1 in go rest (head_of m ls) ih
  where
    head_of : (m : Text) (ls : List Text) → (t : Text) × (Str.join_lines ((c ∷ m) ∷ ls) ≡ c ∷ t)
    head_of m [] = (m, refl)
    head_of m (k ∷ ls) = (m ++ (codes "\r\n" ++ Str.join_lines (k ∷ ls)), refl)

    go :
        (rest : Text)
        → ((t : Text) × (rest ≡ c ∷ t))
        → Str.find (rest ++ (blank ++ body)) blank ≡ some (length rest)
        → Str.find ((l ++ (codes "\r\n" ++ rest)) ++ (blank ++ body)) blank
          ≡ some (length (l ++ (codes "\r\n" ++ rest)))
    go rest (t, e) k =
        let f : Str.find (c ∷ (t ++ (blank ++ body))) blank ≡ some (length rest) =
          ap (λ r. Str.find (r ++ (blank ++ body)) blank) (sym e) ∙ k in
        let g : Str.find (codes "\r\n" ++ (rest ++ (blank ++ body))) blank
            ≡ some (suc (suc (length rest))) =
          ap (λ r. Str.find (codes "\r\n" ++ (r ++ (blank ++ body))) blank) e
          ∙ find-break c (t ++ (blank ++ body)) (length rest) h.1.0.1.0.0 f in
        ap (λ s. Str.find s blank) (append_assoc l (codes "\r\n" ++ rest) (blank ++ body))
        ∙ find-skip l (codes "\r\n" ++ (rest ++ (blank ++ body))) h.0.1 (suc (suc (length rest))) g
        ∙ ap some (sym (length-append l (codes "\r\n" ++ rest)))

-- The first line of a text that goes on after it.
pub lines-head :
    (l s : Text)
    → All (λ c. ((c == 13) ≡ false) × ((c == 10) ≡ false)) l
    → (ls : List Text) × (Str.lines (l ++ (codes "\r\n" ++ s)) ≡ l ∷ ls)
unfolding Str.lines
lines-head l s h =
    let (p, ps, e) = split-newline s in
    (
      Str.chomp_lines (p ∷ ps),
      ap Str.chomp_lines (split-line l s h ∙ ap (λ ps. (l ++ (13 ∷ [])) ∷ ps) e)
          ∙ (unfold Str.chomp_lines in ap (λ t. t ∷ Str.chomp_lines (p ∷ ps)) (chomp-append l)),
    )
