-- ===== src/Prelude/Str/Words.antt =====
-- Words: `split_whitespace` and `rsplitn` of texts that are put together from words.
use hakimi_hub.Prelude.Str
use hakimi_hub.Prelude.Str.{Text, codes}
use Prim.Native.Nat.{ℕ}
use mathlib.Core.Path.{◌≡◌, refl, ap, ◌∙◌}
use mathlib.Core.Logic.{◌≢◌}
use mathlib.Core.Bool.{false}
use mathlib.Core.Option.{none, some}
use mathlib.Core.List.{List, [], ◌∷◌, ◌++◌}
use native.Mathlib.Omega.{arith}
use hakimi_hub.Prelude.Tests.{◌==◌, ==_refl}
use hakimi_hub.Prelude.Lists.{All}

-- No byte is white space.
abbrev pub IsWord : Text → Type 0
IsWord s = (s ≢ []) × All (λ c. Str.is_whitespace c ≡ false) s

split_whitespace-space : (s : Text) → Str.split_whitespace (32 ∷ s) ≡ Str.split_whitespace s
unfolding Str.split_whitespace Str.word_cons Str.is_whitespace
split_whitespace-space [] = refl
split_whitespace-space (d ∷ s) = go (Str.split_whitespace (d ∷ s))
  where
    go : (ws : List Text) → Str.word_cons 32 (d ∷ s) ws ≡ ws
    go [] = refl
    go (w ∷ ws) = refl

word_cons-word :
    (c d : ℕ) (s w : Text) (ws : List Text)
    → Str.is_whitespace c ≡ false
    → Str.is_whitespace d ≡ false
    → Str.word_cons c (d ∷ s) (w ∷ ws) ≡ (c ∷ w) ∷ ws
unfolding Str.word_cons
word_cons-word c d s w ws h k = rw (h, k) refl

word_cons-space :
    (c : ℕ) (s : Text) (ws : List Text)
    → Str.is_whitespace c ≡ false
    → Str.word_cons c (32 ∷ s) ws ≡ (c ∷ []) ∷ ws
unfolding Str.word_cons
word_cons-space c s [] h = rw h refl
word_cons-space c s (w ∷ ws) h = rw h (unfold Str.is_whitespace in refl)

pub split_whitespace_cons :
    (c : ℕ) (w s : Text)
    → All (λ c. Str.is_whitespace c ≡ false) (c ∷ w)
    → Str.split_whitespace ((c ∷ w) ++ (32 ∷ s)) ≡ (c ∷ w) ∷ Str.split_whitespace s
unfolding Str.split_whitespace
split_whitespace_cons c [] s h =
    word_cons-space c s (Str.split_whitespace (32 ∷ s)) h.0
    ∙ ap (λ ws. (c ∷ []) ∷ ws) (split_whitespace-space s)
split_whitespace_cons c (d ∷ w) s h =
    ap (Str.word_cons c (d ∷ w ++ (32 ∷ s))) (split_whitespace_cons d w s h.1)
    ∙ word_cons-word c d (w ++ (32 ∷ s)) (d ∷ w) (Str.split_whitespace s) h.0 h.1.0

pub split_whitespace-word :
    (w s : Text) → IsWord w → Str.split_whitespace (w ++ (32 ∷ s)) ≡ w ∷ Str.split_whitespace s
split_whitespace-word [] s h = absurd (h.0 refl)
split_whitespace-word (c ∷ w) s h = split_whitespace_cons c w s h.1

last_word :
    (c : ℕ) (w : Text)
    → All (λ c. Str.is_whitespace c ≡ false) (c ∷ w)
    → Str.split_whitespace (c ∷ w) ≡ (c ∷ w) ∷ []
unfolding Str.split_whitespace
last_word c [] h = unfold Str.word_cons in rw (h.0) refl
last_word c (d ∷ w) h =
    ap (Str.word_cons c (d ∷ w)) (last_word d w h.1) ∙ word_cons-word c d w (d ∷ w) [] h.0 h.1.0

pub split_whitespace_last : (w : Text) → IsWord w → Str.split_whitespace w ≡ w ∷ []
split_whitespace_last [] h = absurd (h.0 refl)
split_whitespace_last (c ∷ w) h = last_word c w h.1

-- `rsplitn(2, c)` cuts at the last separator.
rsplit2-none :
    (sep : ℕ) (t : Text) → All (λ c. (c == sep) ≡ false) t → Str.rsplit2 sep t ≡ (t, none)
unfolding Str.rsplit2
rsplit2-none sep [] h = refl
rsplit2-none sep (c ∷ t) h = ground (arith, rsplit2-none sep t h.1, h.0)

pub rsplit2-append :
    (sep : ℕ) (s t : Text)
    → All (λ c. (c == sep) ≡ false) t
    → Str.rsplit2 sep (s ++ (sep ∷ t)) ≡ (t, some s)
unfolding Str.rsplit2
rsplit2-append sep [] t h = ground (arith, rsplit2-none sep t h, ==_refl sep)
rsplit2-append sep (c ∷ s) t h = ground (arith, rsplit2-append sep s t h)
