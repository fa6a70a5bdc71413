-- ===== src/Dns/Exchange.antt =====
-- src/dns/doh_client.rs: one request and its response on a connection. What the reads give is an
-- argument: each a chunk of bytes, none for an error; the end of the list, like an empty chunk, is
-- the end of the stream.
use hakimi_hub.Prelude.{
  ◌>>=◌, ltb, leb, ◌==◌, if◌then◌else◌, ltb→lt, lt→ltb, leb→le, le→leb, ==_iff, ==_refl, Bool-cases,
  Option-cases, &&-elim, &&-intro, ||-elim, is_some, present, length, get_elem?, take, drop,
  is_empty, any, all, select, All, length-append, take-append-drop, length-take, length-drop,
  take-length_append, drop-length_append, All-append, ℕ, zero, suc, ◌+◌, ◌-◌, ◌*◌, ◌/◌, ◌%◌, ◌^◌,
  ◌≤◌, ◌<◌, ◌≡◌, refl, sym, ap, ◌∙◌, ◌≢◌, ◌↔◌, ◌⊎◌, inl, inr, Bool, true, false, not, ◌&&◌, ◌||◌,
  Option, none, some, List, [], ◌∷◌, ◌++◌, map, arith,
}
use hakimi_hub.Prelude.Str.{Text, codes}
use hakimi_hub.Prelude.Str
use mathlib.Core.Option
use mathlib.Core.List
use hakimi_hub.Dns.Base64.{base64_encode}
pub mod Chunks
pub mod Whole

abbrev pub separator : Text
separator = codes "\r\n\r\n"

unfoldable pub find_header_end : Text → Option ℕ
unfolding Str.find
find_header_end bytes = Str.find bytes separator

-- `line.strip_prefix(name)`, then `trim().parse::<usize>().ok()`.
abbrev pub length_value : Text → Option ℕ
length_value s = Str.parse_unsigned 18446744073709551615 (Str.trim s)

-- The loop over the lines: two spellings of the name are known.
unfoldable pub length_in : List Text → Option ℕ
unfolding Str.strip_prefix Str.parse_unsigned Str.trim
length_in [] = none
length_in (line ∷ ls) =
    let rest = length_in ls in
    elim (Str.strip_prefix line (codes "Content-Length:")) [
      | some value ↦ length_value value
      | none ↦ elim (Str.strip_prefix line (codes "content-length:")) [
        | some value ↦ length_value value
        | none ↦ rest
      ]
    ]

-- `is_utf8` is whether `std::str::from_utf8` accepts the head.
unfoldable pub parse_content_length : (Text → Bool) → Text → Option ℕ
unfolding find_header_end length_in Str.lines
parse_content_length is_utf8 response = elim (find_header_end response) [
  | none ↦ none
  | some header_end ↦
      let head = take header_end response in
      if is_utf8 head then length_in (Str.lines head) else none
]

unfoldable pub extract_http_body : Text → Option Text
unfolding Str.find
extract_http_body response = elim (Str.find response separator) [
  | none ↦ none
  | some pos ↦ some (drop (pos + 4) response)
]

unfoldable pub doh_request : Text → Text → Text
unfolding base64_encode
doh_request host query =
    codes "GET /dns-query?dns="
    ++ (base64_encode query
        ++ (codes " HTTP/1.1\r\nHost: "
            ++ (host
                ++ codes "\r\nAccept: application/dns-message\r\nConnection: keep-alive\r\n\r\n")))

abbrev pub Reads : Type 0
Reads = List (Option Text)

-- The first loop: it reads until the end of the head has come.
unfoldable pub read_head : Text → Reads → Option (Text × Reads)
unfolding find_header_end
read_head response [] = some (response, [])
read_head response (none ∷ rs) =
    if is_some (find_header_end response) then some (response, none ∷ rs) else none
read_head response (some chunk ∷ rs) =
    let rest = read_head (response ++ chunk) rs in
    if is_some (find_header_end response)
    then some (response, some chunk ∷ rs)
    else if is_empty chunk
    then some (response, rs)
    else rest

-- The second loop: it reads until the body has come.
unfoldable pub read_body : Text → ℕ → ℕ → Reads → Option (Text × Reads)
read_body response total_body content_length [] = some (response, [])
read_body response total_body content_length (none ∷ rs) =
    if ltb total_body content_length then none else some (response, none ∷ rs)
read_body response total_body content_length (some chunk ∷ rs) =
    let rest = read_body (response ++ chunk) (total_body + length chunk) content_length rs in
    if ltb total_body content_length
    then (if is_empty chunk then some (response, rs) else rest)
    else some (response, some chunk ∷ rs)

abbrev pub or_zero : Option ℕ → ℕ
or_zero none = 0
or_zero (some n) = n

-- What the second loop starts with: the bytes behind the head, and the length that the head gives.
unfoldable pub finish : (Text → Bool) → Text × Reads → Option (Text × Reads)
unfolding parse_content_length find_header_end read_body
finish is_utf8 (response, rs) =
    let body_start = or_zero (find_header_end response) + 4 in
    read_body response (length response - body_start)
      (or_zero (parse_content_length is_utf8 response)) rs

-- The body, and the reads that are left on the connection.
unfoldable pub send_doh_request : (Text → Bool) → Reads → Option (Text × Reads)
unfolding read_head finish extract_http_body
send_doh_request is_utf8 rs = (do
  head ← read_head [] rs
  whole ← finish is_utf8 head
  body ← extract_http_body whole.0
  some (body, whole.1))
