-- ===== src/Dns/Base64/RoundTrip.antt =====
-- Decoding what `base64_encode` wrote gives the bytes back.
use hakimi_hub.Prelude.{
  ◌==◌, if◌then◌else◌, ==_iff, All, ℕ, zero, suc, ◌+◌, ◌*◌, ◌/◌, ◌%◌, ◌^◌, ◌<◌, ◌≡◌, refl, ap, Bool,
  true, false, ◌&&◌, Option, none, some, [], ◌∷◌, arith,
}
use hakimi_hub.Prelude.Str.{Text}
use mathlib.Core.Option
use hakimi_hub.Prelude.{◌>>=◌}
use hakimi_hub.Dns.Base64.{table, get_or, digit, base64_encode}

-- The value of a digit, by its place in the alphabet (RFC 4648, section 5).
unfoldable pub value_in : Text → ℕ → Option ℕ
value_in [] c = none
value_in (d ∷ t) c = let rest = value_in t c in if d == c then some 0 else Option.map suc rest

unfoldable pub value : ℕ → Option ℕ
unfolding value_in
value c = value_in table c

unfoldable pub decode_four : ℕ → ℕ → ℕ → ℕ → Option Text → Option Text
decode_four p q r s tail = do
  x ← value p
  y ← value q
  z ← value r
  w ← value s
  bytes ← tail
  some ((x * 4 + y / 16) ∷ (y % 16 * 16 + z / 4) ∷ (z % 4 * 64 + w) ∷ bytes)

-- Four digits give three bytes; three give two, and two give one.
unfoldable pub base64_decode : Text → Option Text
base64_decode [] = some []
base64_decode (p ∷ []) = none
base64_decode (p ∷ q ∷ []) = do x ← value p; y ← value q; some ((x * 4 + y / 16) ∷ [])
base64_decode (p ∷ q ∷ r ∷ []) = do
  x ← value p
  y ← value q
  z ← value r
  some ((x * 4 + y / 16) ∷ (y % 16 * 16 + z / 4) ∷ [])
base64_decode (p ∷ q ∷ r ∷ s ∷ rest) = decode_four p q r s (base64_decode rest)

-- A test that is run on each number below a bound.
passes : (ℕ → Bool) → ℕ → Bool
passes test zero = true
passes test (suc bound) = passes test bound && test bound

passes-below :
    (test : ℕ → Bool) (bound i : ℕ) → passes test bound ≡ true → i < bound → test i ≡ true
unfolding passes
passes-below test zero i run below = absurd (omega (arith, below))
passes-below test (suc bound) i run below = ground (arith, passes-below test bound i)

abbrev holds : Option ℕ → ℕ → Bool
holds none n = false
holds (some m) n = m == n

holds-some : (o : Option ℕ) (n : ℕ) → holds o n ≡ true → o ≡ some n
holds-some none n h = cc
holds-some (some m) n h = ap some ((==_iff m n).0 h)

table_values : passes (λ n. holds (value (get_or table n 0)) n) 64 ≡ true
unfolding passes value
table_values = refl

value-digit : (n shift : ℕ) → value (digit n shift) ≡ some (n / 2 ^ shift % 64)
unfolding digit
value-digit n shift =
    holds-some _ _ (passes-below _ 64 (n / 2 ^ shift % 64) table_values (omega arith))

-- Every byte string survives encoding and decoding.
pub decode-encode :
    (data_bytes : Text)
    → All (λ b. b < 256) data_bytes
    → base64_decode (base64_encode data_bytes) ≡ some data_bytes
unfolding base64_decode base64_encode
decode-encode [] h = refl
decode-encode (a ∷ []) h = simp value-digit (ground arith)
decode-encode (a ∷ b ∷ []) h = simp value-digit (ground arith)
decode-encode (a ∷ b ∷ c ∷ rest) h =
    rw (decode-encode rest h.1.1.1) (unfold decode_four in simp value-digit (ground arith))
