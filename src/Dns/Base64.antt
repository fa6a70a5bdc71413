-- ===== src/Dns/Base64.antt =====
-- `base64_encode` of src/dns/doh_client.rs: the URL-safe alphabet, without padding. Shifts and
-- masks are written as divisions and remainders, and the `|` of disjoint fields as a sum.
use hakimi_hub.Prelude.{
  ltb, leb, ◌==◌, if◌then◌else◌, ltb→lt, lt→ltb, leb→le, le→leb, ==_iff, ==_refl, Bool-cases,
  Option-cases, &&-elim, &&-intro, ||-elim, is_some, present, length, get_elem?, take, drop,
  is_empty, any, all, select, All, length-append, take-append-drop, length-take, length-drop,
  take-length_append, drop-length_append, All-append, ℕ, zero, suc, ◌+◌, ◌-◌, ◌*◌, ◌/◌, ◌%◌, ◌^◌,
  ◌≤◌, ◌<◌, ◌≡◌, refl, sym, ap, ◌∙◌, ◌≢◌, ◌↔◌, ◌⊎◌, inl, inr, Bool, true, false, not, ◌&&◌, ◌||◌,
  Option, none, some, List, [], ◌∷◌, ◌++◌, map, arith,
}
use hakimi_hub.Prelude.Str.{Text, codes}
use hakimi_hub.Prelude.Str
use mathlib.Core.Option
use mathlib.Core.List
pub mod RoundTrip

abbrev pub table : Text
table = codes "ABCDEFGHIJKLMNOPQRSTUVWXYZabcdefghijklmnopqrstuvwxyz0123456789-_"

abbrev pub get_or {ℓ} : {A : Type ℓ} → List A → ℕ → A → A
get_or [] i d = d
get_or (x ∷ xs) zero d = x
get_or (x ∷ xs) (suc i) d = get_or xs i d

-- `TABLE[((n >> shift) & 0x3F)]`
unfoldable pub digit : ℕ → ℕ → ℕ
digit n shift = get_or table (n / 2 ^ shift % 64) 0

-- Three bytes to a round of the loop, then the one or two that remain.
unfoldable pub base64_encode : Text → Text
unfolding digit
base64_encode [] = []
base64_encode (a ∷ []) = let n = a * 2 ^ 16 in digit n 18 ∷ digit n 12 ∷ []
base64_encode (a ∷ b ∷ []) =
    let n = a * 2 ^ 16 + b * 2 ^ 8 in digit n 18 ∷ digit n 12 ∷ digit n 6 ∷ []
base64_encode (a ∷ b ∷ c ∷ rest) =
    let n = a * 2 ^ 16 + b * 2 ^ 8 + c in
    digit n 18 ∷ digit n 12 ∷ digit n 6 ∷ digit n 0 ∷ base64_encode rest

encode_hello : base64_encode (codes "hello?>") ≡ codes "aGVsbG8_Pg"
unfolding base64_encode
encode_hello = refl
