-- ===== src/Prelude/Str/Print.antt =====
-- Decimal numbers, printed and read back.
use hakimi_hub.Prelude.Str
use hakimi_hub.Prelude.Str.{Text, codes}
use Prim.Native.Nat.{ℕ, zero, suc, ◌+◌, ◌/◌, ◌%◌, ◌≤◌, ◌<◌}
use mathlib.Core.Path.{◌≡◌, refl, ◌∙◌}
use mathlib.Core.Logic.{inl, inr, ◌≢◌}
use mathlib.Core.Option.{some}
use mathlib.Core.List.{[], ◌∷◌}
use native.Mathlib.Omega.{arith}
use hakimi_hub.Prelude.Tests.{ltb, Bool-cases}
use hakimi_hub.Prelude.Lists.{All}

parse_digits-decimal_onto :
    (max fuel n : ℕ) (acc : Text)
    → n < fuel
    → n ≤ max
    → Str.parse_digits max 0 (Str.decimal_onto fuel n acc) ≡ Str.parse_digits max n acc
unfolding Str.parse_digits Str.decimal_onto Str.is_digit
parse_digits-decimal_onto max zero n acc h l = absurd (omega (arith, h))
parse_digits-decimal_onto max (suc fuel) n acc h l = elim (Bool-cases (ltb n 10)) [
  | inl e ↦ ground (arith, e, l)
  | inr e ↦ ground (
    arith,
    e,
    l,
    h,
    parse_digits-decimal_onto max fuel (n / 10) ((48 + n % 10) ∷ acc) (ground (arith, e, h))
        (ground (arith, l)),
  )
]

-- Every byte is a decimal digit.
abbrev pub IsNumeral : Text → Type 0
IsNumeral s = All (λ c. (48 ≤ c) × (c ≤ 57)) s

IsNumeral-decimal_onto :
    (fuel n : ℕ) (acc : Text) → IsNumeral acc → IsNumeral (Str.decimal_onto fuel n acc)
unfolding Str.decimal_onto
IsNumeral-decimal_onto zero n acc h = h
IsNumeral-decimal_onto (suc fuel) n acc h = elim (Bool-cases (ltb n 10)) [
  | inl e ↦ rw e ((omega arith, ground (arith, e)), h)
  | inr e ↦
      rw e
        (IsNumeral-decimal_onto fuel (n / 10) ((48 + n % 10) ∷ acc) ((omega arith, omega arith), h))
]

pub IsNumeral-decimal : (n : ℕ) → IsNumeral (Str.decimal n)
unfolding Str.decimal
IsNumeral-decimal n = IsNumeral-decimal_onto (suc n) n [] tt

decimal_onto-ne-nil : (fuel n c : ℕ) (acc : Text) → Str.decimal_onto fuel n (c ∷ acc) ≢ []
unfolding Str.decimal_onto
decimal_onto-ne-nil zero n c acc h = cc h
decimal_onto-ne-nil (suc fuel) n c acc h = elim (Bool-cases (ltb n 10)) [
  | inl e ↦ ground (arith, e, h)
  | inr e ↦ decimal_onto-ne-nil fuel (n / 10) (48 + n % 10) (c ∷ acc) (rw e at h)
]

pub decimal-ne-nil : (n : ℕ) → Str.decimal n ≢ []
unfolding Str.decimal Str.decimal_onto
decimal-ne-nil n h = elim (Bool-cases (ltb n 10)) [
  | inl e ↦ ground (arith, e, h)
  | inr e ↦ decimal_onto-ne-nil n (n / 10) (48 + n % 10) [] (rw e at h)
]

parse_unsigned-numeral :
    (max : ℕ) (s : Text)
    → IsNumeral s
    → s ≢ []
    → Str.parse_unsigned max s ≡ Str.parse_digits max 0 s
unfolding Str.parse_unsigned
parse_unsigned-numeral max [] h ne = absurd (ne refl)
parse_unsigned-numeral max (c ∷ []) h ne = ground (arith, h)
parse_unsigned-numeral max (c ∷ d ∷ s) h ne = ground (arith, h.0)

-- A number within the bounds of its type is read back as it was printed.
pub parse-decimal : (max n : ℕ) → n ≤ max → Str.parse_unsigned max (Str.decimal n) ≡ some n
unfolding Str.decimal Str.parse_digits
parse-decimal max n l =
    parse_unsigned-numeral max (Str.decimal n) (IsNumeral-decimal n) (decimal-ne-nil n)
    ∙ parse_digits-decimal_onto max (suc n) n [] (omega arith) l
