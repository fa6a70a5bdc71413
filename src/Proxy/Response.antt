-- ===== src/Proxy/Response.antt =====
-- src/proxy/handler.rs: the responses that the proxy writes, and the head of one that it reads.
use hakimi_hub.Prelude.{
  ltb, leb, ◌==◌, if◌then◌else◌, ltb→lt, lt→ltb, leb→le, le→leb, ==_iff, ==_refl, Bool-cases,
  Option-cases, &&-elim, &&-intro, ||-elim, is_some, present, length, get_elem?, take, drop,
  is_empty, any, all, select, All, length-append, take-append-drop, length-take, length-drop,
  take-length_append, drop-length_append, All-append, ℕ, zero, suc, ◌+◌, ◌-◌, ◌*◌, ◌/◌, ◌%◌, ◌^◌,
  ◌≤◌, ◌<◌, ◌≡◌, refl, sym, ap, ◌∙◌, ◌≢◌, ◌↔◌, ◌⊎◌, inl, inr, Bool, true, false, not, ◌&&◌, ◌||◌,
  Option, none, some, List, [], ◌∷◌, ◌++◌, map, arith,
}
use hakimi_hub.Prelude.Str.{Text, codes}
use hakimi_hub.Prelude.Str
use mathlib.Core.Option
use mathlib.Core.List
pub mod RoundTrip

pub record CachedResource : Type 0 where
  pub content_type : Text
  pub data_bytes : Text
  pub etag : Option Text
  pub last_modified : Option Text

unfoldable pub build_redirect_response : Text → Text
build_redirect_response target_url =
    codes "HTTP/1.1 302 Found\r\nLocation: "
    ++ (target_url
        ++ codes "\r\nContent-Length: 0\r\nCache-Control: no-cache\r\nConnection: close\r\n\r\n")

-- `windows(4).position(|w| w == "\r\n\r\n")`
unfoldable pub find_header_end : Text → Option ℕ
unfolding Str.find
find_header_end buf = Str.find buf (codes "\r\n\r\n")

unfoldable pub contains_header_end : Text → Bool
unfolding Str.find
contains_header_end buf = is_some (Str.find buf (codes "\r\n\r\n"))

-- `if let Some(v) { push_str("Name: {}\r\n") }`
abbrev pub optional_header : Text → Option Text → Text
optional_header name none = []
optional_header name (some v) = name ++ (v ++ codes "\r\n")

unfoldable pub build_response_from_cache : CachedResource → Text
unfolding Str.decimal
build_response_from_cache cached =
    codes "HTTP/1.1 200 OK\r\nContent-Type: "
    ++ (cached.content_type
        ++ (codes "\r\nContent-Length: "
            ++ (Str.decimal (length cached.data_bytes)
                ++ (codes "\r\n"
                    ++ (optional_header (codes "ETag: ") cached.etag
                        ++ (optional_header (codes "Last-Modified: ") cached.last_modified
                            ++ (codes "Connection: close\r\n\r\n" ++ cached.data_bytes)))))))

-- `trim().parse::<u64>().ok()`
abbrev pub parse_u64 : Text → Option ℕ
parse_u64 s = Str.parse_unsigned 18446744073709551615 (Str.trim s)

-- The loop over the header lines, which stops at the first length.
unfoldable pub content_length_in : List Text → Option ℕ
unfolding Str.to_lowercase Str.starts_with Str.parse_unsigned Str.trim
content_length_in [] = none
content_length_in (line ∷ ls) =
    let rest = content_length_in ls in
    if Str.starts_with (Str.to_lowercase line) (codes "content-length:")
    then parse_u64 (drop 15 line)
    else rest

unfoldable pub parse_content_length : Text → Option ℕ
unfolding content_length_in Str.lines
parse_content_length header = content_length_in (drop 1 (Str.lines header))

-- The loop over the header lines: a later line overwrites what an earlier one gave.
unfoldable pub headers_in : Option Text → Option ℕ → List Text → Option Text × Option ℕ
unfolding Str.to_lowercase Str.starts_with Str.parse_unsigned Str.trim
headers_in content_type content_length [] = (content_type, content_length)
headers_in content_type content_length (line ∷ ls) =
    let lower = Str.to_lowercase line in
    let is_type = Str.starts_with lower (codes "content-type:") in
    let is_length = Str.starts_with lower (codes "content-length:") in
    headers_in (if is_type then some (Str.trim (drop 13 line)) else content_type)
      (if is_type
        then content_length
        else if is_length
        then parse_u64 (drop 15 line)
        else content_length)
      ls

unfoldable pub parse_response_headers : Text → Option Text × Option ℕ
unfolding find_header_end headers_in Str.lines
parse_response_headers response = elim (find_header_end response) [
  | none ↦ (none, none)
  | some pos ↦ headers_in none none (drop 1 (Str.lines (take pos response)))
]
