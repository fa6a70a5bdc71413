-- ===== src/Dns/Message.antt =====
-- The DNS wire format of src/dns/doh_client.rs: `build_dns_query`, `encode_domain_name` and
-- `parse_dns_response`. A position in the response is the text that is left from there on; a
-- position past the end is the empty text. An index out of range, which panics, is `panic`.
use hakimi_hub.Prelude.{
  ltb, leb, ◌==◌, if◌then◌else◌, ltb→lt, lt→ltb, leb→le, le→leb, ==_iff, ==_refl, Bool-cases,
  Option-cases, &&-elim, &&-intro, ||-elim, is_some, present, length, get_elem?, take, drop,
  is_empty, any, all, select, All, length-append, take-append-drop, length-take, length-drop,
  take-length_append, drop-length_append, All-append, ℕ, zero, suc, ◌+◌, ◌-◌, ◌*◌, ◌/◌, ◌%◌, ◌^◌,
  ◌≤◌, ◌<◌, ◌≡◌, refl, sym, ap, ◌∙◌, ◌≢◌, ◌↔◌, ◌⊎◌, inl, inr, Bool, true, false, not, ◌&&◌, ◌||◌,
  Option, none, some, List, [], ◌∷◌, ◌++◌, map, arith,
}
use hakimi_hub.Prelude.Str.{Text, codes}
use hakimi_hub.Prelude.Str
use mathlib.Core.Option
use mathlib.Core.List
use hakimi_hub.Dns.Ip.{IpAddr, v4, v6}
pub mod Name
pub mod Answers

-- `to_be_bytes` and `from_be_bytes` of `u16`
abbrev pub be_bytes : ℕ → Text
be_bytes n = n / 256 % 256 ∷ n % 256 ∷ []

abbrev pub be : ℕ → ℕ → ℕ
be hi lo = hi * 256 + lo

-- The loop over the labels: a length byte (`as u8`), then the label.
unfoldable pub encode_labels : List Text → Text
encode_labels [] = 0 ∷ []
encode_labels (label ∷ labels) = length label % 256 ∷ (label ++ encode_labels labels)

unfoldable pub encode_domain_name : Text → Text
unfolding encode_labels
encode_domain_name domain = encode_labels (Str.split b'.' domain)

-- The random identifier is an argument.
unfoldable pub build_dns_query : ℕ → Text → ℕ → Text
unfolding encode_domain_name
build_dns_query id domain qtype =
    be_bytes id
    ++ (be_bytes 0x0100
        ++ (be_bytes 1
            ++ (be_bytes 0
                ++ (be_bytes 0
                    ++ (be_bytes 0
                        ++ (encode_domain_name domain ++ (be_bytes qtype ++ be_bytes 1)))))))

pub data Outcome : Type 0 where
  ok : List IpAddr → Outcome
  too_short : Outcome
  dns_error : ℕ → Outcome
  panic : Outcome

-- `while offset < data.len() && data[offset] != 0 { offset += data[offset] as usize + 1 }`; each
-- round drops at least one byte, so fuel of the length of the text is enough (`skip_name-IsDone`).
unfoldable pub skip_name : ℕ → Text → Text
skip_name zero rest = rest
skip_name (suc fuel) [] = []
skip_name (suc fuel) (n ∷ rest) = elim (n == 0) [
  | true ↦ n ∷ rest
  | false ↦ skip_name fuel (drop n rest)
]

-- A compressed name is a pointer of two bytes.
unfoldable pub skip_answer_name : Text → Text
unfolding skip_name
skip_answer_name [] = []
skip_answer_name (n ∷ rest) =
    if n / 64 == 3 then drop 2 (n ∷ rest) else drop 1 (skip_name (length (n ∷ rest)) (n ∷ rest))

-- Sixteen bytes, if there are as many.
unfoldable pub long_address : Text → List IpAddr
long_address
      (a0 ∷ a1 ∷ b0 ∷ b1 ∷ c0 ∷ c1 ∷ d0 ∷ d1 ∷ e0 ∷ e1 ∷ f0 ∷ f1 ∷ g0 ∷ g1 ∷ h0 ∷ h1 ∷ rest) =
    v6 (be a0 a1) (be b0 b1) (be c0 c1) (be d0 d1) (be e0 e1) (be f0 f1) (be g0 g1) (be h0 h1) ∷ []
long_address _ = []

unfoldable pub short_address : Text → List IpAddr
short_address (a ∷ b ∷ c ∷ d ∷ rest) = v4 a b c d ∷ []
short_address _ = []

-- The `match rtype`: an address is read only where all of its bytes are there.
unfoldable pub record_address : ℕ → Text → List IpAddr
unfolding long_address short_address
record_address rtype body =
    if rtype == 1 then short_address body else if rtype == 28 then long_address body else []

-- The ten bytes of an answer behind its name, and the record data.
unfoldable pub parse_record : Text → Option (List IpAddr × Text)
unfolding record_address
parse_record (t0 ∷ t1 ∷ c0 ∷ c1 ∷ l0 ∷ l1 ∷ l2 ∷ l3 ∷ r0 ∷ r1 ∷ body) =
    some (record_address (be t0 t1) body, drop (be r0 r1) body)
parse_record _ = none

-- The loop over the answers.
unfoldable pub parse_answers : ℕ → Text → List IpAddr → Outcome
unfolding skip_answer_name parse_record
parse_answers zero rest ips = ok ips
parse_answers (suc count) rest ips = elim (ltb (length rest) 12) [
  | true ↦ ok ips
  | false ↦ elim (parse_record (skip_answer_name rest)) [
    | none ↦ panic
    | some (found, next) ↦ parse_answers count next (ips ++ found)
  ]
]

unfoldable pub parse_dns_response : Text → Outcome
unfolding parse_answers skip_name
parse_dns_response (i0 ∷ i1 ∷ f0 ∷ f1 ∷ q0 ∷ q1 ∷ a0 ∷ a1 ∷ n0 ∷ n1 ∷ m0 ∷ m1 ∷ rest) =
    if f1 % 16 == 0
    then parse_answers (be a0 a1) (drop 5 (skip_name (length rest) rest)) []
    else dns_error (f1 % 16)
parse_dns_response _ = too_short
