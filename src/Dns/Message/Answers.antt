-- ===== src/Dns/Message/Answers.antt =====
-- Responses that `parse_dns_response` reads, and responses at which it panics.
use hakimi_hub.Prelude.{
  ltb, length, All, drop-length_append, ℕ, suc, ◌/◌, ◌%◌, ◌<◌, ◌≡◌, refl, sym, ap, ◌∙◌, false, some,
  List, [], ◌∷◌, ◌++◌, map, arith,
}
use hakimi_hub.Prelude.Str.{Text}
use mathlib.Core.List
use mathlib.Core.List.{append_assoc}
use hakimi_hub.Dns.Ip.{IpAddr, v4, v6}
use hakimi_hub.Dns.Message.{
  be, be_bytes, encode_labels, skip_answer_name, record_address, parse_record, parse_answers,
  parse_dns_response, ok,
}
use hakimi_hub.Dns.Message.Name.{IsLabel, skip_name-encode_labels}

-- A resource record with an address: the low byte of its name pointer, its four bytes of TTL.
pub record Answer : Type 0 where
  pub address : IpAddr
  pub pointer : ℕ
  pub t0 : ℕ
  pub t1 : ℕ
  pub t2 : ℕ
  pub t3 : ℕ

-- Groups of sixteen bits. The bytes of an IPv4 address are taken as they stand.
abbrev pub IsAddress : IpAddr → Type 0
IsAddress (v4 a b c d) = Unit
IsAddress (v6 a b c d e f g h) =
    (a < 65536)
    × (b < 65536)
    × (c < 65536)
    × (d < 65536)
    × (e < 65536)
    × (f < 65536)
    × (g < 65536)
    × (h < 65536)

abbrev pub type_code : IpAddr → ℕ
type_code (v4 a b c d) = 1
type_code (v6 a b c d e f g h) = 28

abbrev pub rdata : IpAddr → Text
rdata (v4 a b c d) = a ∷ b ∷ c ∷ d ∷ []
rdata (v6 a b c d e f g h) =
    be_bytes a
    ++ (be_bytes b
        ++ (be_bytes c
            ++ (be_bytes d ++ (be_bytes e ++ (be_bytes f ++ (be_bytes g ++ be_bytes h))))))

-- A record of class IN whose name is a pointer into the message (RFC 1035, sections 3.2 and 4.1.4).
abbrev pub encode_answer : Answer → Text
encode_answer r =
    192
    ∷ r.pointer
    ∷ 0
    ∷ type_code r.address
    ∷ 0
    ∷ 1
    ∷ r.t0
    ∷ r.t1
    ∷ r.t2
    ∷ r.t3
    ∷ 0
    ∷ length (rdata r.address)
    ∷ rdata r.address

unfoldable pub encode_answers : List Answer → Text
encode_answers [] = []
encode_answers (r ∷ rs) = encode_answer r ++ encode_answers rs

abbrev pub addresses : List Answer → List IpAddr
addresses rs = map (λ r. r.address) rs

parse_rdata :
    (ip : IpAddr) (rest : Text)
    → IsAddress ip
    → record_address (type_code ip) (rdata ip ++ rest) ≡ ip ∷ []
unfolding record_address
parse_rdata (v4 a b c d) rest h = refl
parse_rdata (v6 a b c d e f g h) rest w = ground arith

parse_answer :
    (r : Answer) (rest : Text)
    → IsAddress r.address
    → parse_record (skip_answer_name (encode_answer r ++ rest)) ≡ some (r.address ∷ [], rest)
unfolding skip_answer_name parse_record
parse_answer r rest h =
    let ip = r.address in
    let e : be 0 (type_code ip) ≡ type_code ip = omega arith in
    let f : be 0 (length (rdata ip)) ≡ length (rdata ip) = omega arith in
    rw (e, f, parse_rdata ip rest h, drop-length_append (rdata ip) rest)

parse_answers-step :
    (count : ℕ) (rest next : Text) (ips found : List IpAddr)
    → ltb (length rest) 12 ≡ false
    → parse_record (skip_answer_name rest) ≡ some (found, next)
    → parse_answers (suc count) rest ips ≡ parse_answers count next (ips ++ found)
unfolding parse_answers
parse_answers-step count rest next ips found h k = ground (arith, h, k)

parse_answers-encode :
    (rs : List Answer) (rest : Text) (ips : List IpAddr)
    → All (λ r. IsAddress r.address) rs
    → parse_answers (length rs) (encode_answers rs ++ rest) ips ≡ ok (ips ++ addresses rs)
unfolding parse_answers encode_answers
parse_answers-encode [] rest ips h = ap ok (sym (List.append-nil ips))
parse_answers-encode (r ∷ rs) rest ips h =
    let next = encode_answers rs ++ rest in
    rw (append_assoc (encode_answer r) (encode_answers rs) rest) (
      parse_answers-step (length rs) (encode_answer r ++ next) next ips (r.address ∷ [])
        (ground arith) (parse_answer r next h.0)
      ∙ parse_answers-encode rs rest (ips ++ r.address ∷ []) h.1
      ∙ ap ok (append_assoc ips (r.address ∷ []) (addresses rs)))

-- The header of a response without error, with one question and `n` answers.
abbrev pub header : ℕ → ℕ → ℕ → Text
header i0 i1 n = i0 ∷ i1 ∷ 0x81 ∷ 0x80 ∷ 0 ∷ 1 ∷ n / 256 ∷ n % 256 ∷ 0 ∷ 0 ∷ 0 ∷ 0 ∷ []

-- A response to a query for a domain.
abbrev pub response : ℕ → ℕ → List Text → ℕ → List Answer → Text → Text
response i0 i1 labels qtype rs extra =
    header i0 i1 (length rs)
    ++ (encode_labels labels ++ ((be_bytes qtype ++ be_bytes 1) ++ (encode_answers rs ++ extra)))

-- From a response with one question for labels of 1 to 255 bytes, and with address records whose
-- names are compressed, as many as its count says, the parser returns the addresses of the records
-- in their order, whatever follows them.
pub parse_dns_response-response :
    (i0 i1 qtype : ℕ) (labels : List Text) (rs : List Answer) (extra : Text)
    → All IsLabel labels
    → All (λ r. IsAddress r.address) rs
    → parse_dns_response (response i0 i1 labels qtype rs extra) ≡ ok (addresses rs)
unfolding parse_dns_response
parse_dns_response-response i0 i1 qtype labels rs extra hl ha =
    let e : be (length rs / 256) (length rs % 256) ≡ length rs = omega arith in
    rw
      (
        e,
        skip_name-encode_labels labels
            ((be_bytes qtype ++ be_bytes 1) ++ (encode_answers rs ++ extra)) hl,
      )
      (parse_answers-encode rs extra [] ha)
