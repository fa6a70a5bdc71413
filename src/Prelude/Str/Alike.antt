-- ===== src/Prelude/Str/Alike.antt =====
-- Texts compared letter by letter without regard to case, and what the case folding of the program
-- comes to in these terms.
use hakimi_hub.Prelude.Str
use hakimi_hub.Prelude.Str.{Text, codes}
use Prim.Native.Nat.{ℕ, ◌+◌}
use mathlib.Core.Path.{◌≡◌, refl, ap, ◌∙◌}
use mathlib.Core.Bool.{Bool, true, false, ◌&&◌, ◌||◌}
use mathlib.Core.Option.{some}
use mathlib.Core.List.{[], ◌∷◌, ◌++◌, reverse, reverse-cons, reverse-reverse}
use native.Mathlib.Omega.{arith}
use hakimi_hub.Prelude.Tests.{leb, ◌==◌}
use hakimi_hub.Prelude.Lists.{All, All-append, length}

-- A character is a letter of the word, or the capital of one.
abbrev pub alike : ℕ → ℕ → Bool
alike c d = c == d || (leb 97 d && leb d 122 && c + 32 == d)

abbrev pub same_letters : Text → Text → Bool
same_letters [] [] = true
same_letters [] (d ∷ t) = false
same_letters (c ∷ s) [] = false
same_letters (c ∷ s) (d ∷ t) = alike c d && same_letters s t

abbrev pub begins_alike : Text → Text → Bool
begins_alike s [] = true
begins_alike [] (d ∷ p) = false
begins_alike (c ∷ s) (d ∷ p) = alike c d && begins_alike s p

-- The word has no capitals.
abbrev pub IsSmall : Text → Type 0
IsSmall = All (λ d. (leb 65 d && leb d 90) ≡ false)

to_lower-alike : (c d : ℕ) → (leb 65 d && leb d 90) ≡ false → (Str.to_lower c == d) ≡ alike c d
unfolding Str.to_lower
to_lower-alike c d h = ground (arith, h)

pub text_eq-to_lowercase :
    (s t : Text) → IsSmall t → Str.text_eq (Str.to_lowercase s) t ≡ same_letters s t
unfolding Str.text_eq Str.to_lowercase
text_eq-to_lowercase [] [] h = refl
text_eq-to_lowercase [] (d ∷ t) h = refl
text_eq-to_lowercase (c ∷ s) [] h = refl
text_eq-to_lowercase (c ∷ s) (d ∷ t) h =
    ap (λ b. b && Str.text_eq (Str.to_lowercase s) t) (to_lower-alike c d h.0)
    ∙ ap (λ b. alike c d && b) (text_eq-to_lowercase s t h.1)

pub starts_with-to_lowercase :
    (s p : Text) → IsSmall p → Str.starts_with (Str.to_lowercase s) p ≡ begins_alike s p
unfolding Str.starts_with Str.to_lowercase
starts_with-to_lowercase [] [] h = refl
starts_with-to_lowercase (c ∷ s) [] h = refl
starts_with-to_lowercase [] (d ∷ p) h = refl
starts_with-to_lowercase (c ∷ s) (d ∷ p) h =
    ap (λ b. b && Str.starts_with (Str.to_lowercase s) p) (to_lower-alike c d h.0)
    ∙ ap (λ b. alike c d && b) (starts_with-to_lowercase s p h.1)

pub All-reverse : (P : ℕ → Type 0) (s : Text) → All P s → All P (reverse s)
All-reverse P [] h = h
All-reverse P (c ∷ s) h =
    rw (reverse-cons c s) (All-append P (reverse s) (c ∷ []) (All-reverse P s h.1) (h.0, tt))

abbrev pub Spaceless : Text → Type 0
Spaceless = All (λ c. Str.is_whitespace c ≡ false)

trim_start-Spaceless : (s : Text) → Spaceless s → Str.trim_start s ≡ s
unfolding Str.trim_start
trim_start-Spaceless [] h = refl
trim_start-Spaceless (c ∷ s) h = rw h.0 refl

pub trim-Spaceless : (s : Text) → Spaceless s → Str.trim s ≡ s
unfolding Str.trim
trim-Spaceless s h =
    ap (λ t. reverse (Str.trim_start (reverse t))) (trim_start-Spaceless s h)
    ∙ ap reverse (trim_start-Spaceless (reverse s) (All-reverse _ s h))
    ∙ reverse-reverse s

-- The first of a character that stands nowhere before.
pub find_char :
    (d : ℕ) (s t : Text)
    → All (λ c. (c == d) ≡ false) s
    → Str.find (s ++ (d ∷ t)) (d ∷ []) ≡ some (length s)
unfolding Str.find Str.starts_with
find_char d [] t h = ground arith
find_char d (c ∷ s) t h = ground (arith, find_char d s t h.1, h.0)
