-- ===== src/Dns/Message/Name.antt =====
-- Names on the wire: what `encode_domain_name` writes is skipped whole, and read back.
use hakimi_hub.Prelude.{
  ◌==◌, ==_iff, Bool-cases, length, take, drop, All, length-append, length-drop, take-length_append,
  drop-length_append, ℕ, zero, suc, ◌%◌, ◌≤◌, ◌<◌, ◌≡◌, refl, ◌∙◌, inl, inr, true, false, Option,
  none, some, List, [], ◌∷◌, ◌++◌, arith,
}
use hakimi_hub.Prelude.Str.{Text, codes}
use hakimi_hub.Prelude.Str
use mathlib.Core.Option
use mathlib.Core.List.{append_assoc}
use hakimi_hub.Dns.Message.{encode_labels, encode_domain_name, skip_name}

-- A label that one length byte can announce.
abbrev pub IsLabel : Text → Type 0
IsLabel l = (0 < length l) × (length l < 256)

-- The scan of a name ends at its closing zero, or at the end of the message.
abbrev pub IsDone : Text → Type 0
IsDone [] = Unit
IsDone (n ∷ rest) = n ≡ 0

pub skip_name-step :
    (fuel n : ℕ) (rest : Text)
    → (n == 0) ≡ false
    → skip_name (suc fuel) (n ∷ rest) ≡ skip_name fuel (drop n rest)
unfolding skip_name
skip_name-step fuel n rest h = ground arith

pub skip_name-IsDone : (fuel : ℕ) (rest : Text) → length rest ≤ fuel → IsDone (skip_name fuel rest)
unfolding skip_name
skip_name-IsDone zero [] h = tt
skip_name-IsDone zero (n ∷ rest) h = absurd (omega arith)
skip_name-IsDone (suc fuel) [] h = tt
skip_name-IsDone (suc fuel) (n ∷ rest) h = elim (Bool-cases (n == 0)) [
  | inl e ↦ rw (e, skip_name, IsDone) ((==_iff n 0).0 e)
  | inr e ↦
      rw (skip_name-step fuel n rest e)
        (skip_name-IsDone fuel (drop n rest) (omega (arith, length-drop n rest)))
]

labels-lt-length :
    (labels : List Text) (rest : Text) → length labels < length (encode_labels labels ++ rest)
unfolding encode_labels
labels-lt-length [] rest = omega arith
labels-lt-length (l ∷ labels) rest =
    rw (append_assoc l (encode_labels labels) rest)
      (omega (arith, length-append l (encode_labels labels ++ rest), labels-lt-length labels rest))

skip_name-labels :
    (labels : List Text) (rest : Text) (fuel : ℕ)
    → All IsLabel labels
    → length labels < fuel
    → skip_name fuel (encode_labels labels ++ rest) ≡ 0 ∷ rest
unfolding skip_name encode_labels
skip_name-labels labels rest zero h f = absurd (omega arith)
skip_name-labels [] rest (suc fuel) h f = refl
skip_name-labels (l ∷ labels) rest (suc fuel) h f =
    let z : (length l % 256 == 0) ≡ false = ground (arith, h.0.0, h.0.1) in
    let n : length l % 256 ≡ length l = omega (arith, h.0.1) in
    skip_name-step fuel (length l % 256) ((l ++ encode_labels labels) ++ rest) z
    ∙ rw
        (
          n,
          append_assoc l (encode_labels labels) rest,
          drop-length_append l (encode_labels labels ++ rest),
        )
        (skip_name-labels labels rest fuel h.1 (omega arith))

-- The scan of the question's name stops at the zero that closes the name.
pub skip_name-encode_labels :
    (labels : List Text) (rest : Text)
    → All IsLabel labels
    → skip_name (length (encode_labels labels ++ rest)) (encode_labels labels ++ rest) ≡ 0 ∷ rest
skip_name-encode_labels labels rest h =
    skip_name-labels labels rest _ h (labels-lt-length labels rest)

-- The labels that a name on the wire spells, and what follows it (RFC 1035, section 3.1).
unfoldable pub decode_labels : ℕ → Text → Option (List Text × Text)
decode_labels zero s = none
decode_labels (suc fuel) [] = none
decode_labels (suc fuel) (n ∷ s) = elim (n == 0) [
  | true ↦ some ([], s)
  | false ↦ Option.map (λ r. (take n s ∷ r.0, r.1)) (decode_labels fuel (drop n s))
]

decode_labels-step :
    (fuel n : ℕ) (s : Text)
    → (n == 0) ≡ false
    → decode_labels (suc fuel) (n ∷ s)
      ≡ Option.map (λ r. (take n s ∷ r.0, r.1)) (decode_labels fuel (drop n s))
unfolding decode_labels
decode_labels-step fuel n s h = ground arith

decode_labels-encode :
    (labels : List Text) (rest : Text) (fuel : ℕ)
    → All IsLabel labels
    → length labels < fuel
    → decode_labels fuel (encode_labels labels ++ rest) ≡ some (labels, rest)
unfolding decode_labels encode_labels
decode_labels-encode labels rest zero h f = absurd (omega arith)
decode_labels-encode [] rest (suc fuel) h f = refl
decode_labels-encode (l ∷ labels) rest (suc fuel) h f =
    let z : (length l % 256 == 0) ≡ false = ground (arith, h.0.0, h.0.1) in
    let n : length l % 256 ≡ length l = omega (arith, h.0.1) in
    decode_labels-step fuel (length l % 256) ((l ++ encode_labels labels) ++ rest) z
    ∙ rw
        (
          n,
          append_assoc l (encode_labels labels) rest,
          drop-length_append l (encode_labels labels ++ rest),
          take-length_append l (encode_labels labels ++ rest),
        )
        (rw (decode_labels-encode labels rest fuel h.1 (omega arith)))

-- A domain whose labels have 1 to 255 bytes is written so that the labels are read back, and what
-- follows the name is left.
pub decode-encode_domain_name :
    (domain rest : Text)
    → All IsLabel (Str.split b'.' domain)
    → decode_labels (suc (length (Str.split b'.' domain))) (encode_domain_name domain ++ rest)
      ≡ some (Str.split b'.' domain, rest)
unfolding encode_domain_name
decode-encode_domain_name domain rest h =
    decode_labels-encode (Str.split b'.' domain) rest _ h (omega arith)
