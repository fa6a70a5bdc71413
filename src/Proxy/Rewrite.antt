-- ===== src/Proxy/Rewrite.antt =====
-- src/proxy/handler.rs: the requests that the proxy sends on, to the origin and to a mirror.
use hakimi_hub.Prelude.{
  ltb, leb, ◌==◌, if◌then◌else◌, ltb→lt, lt→ltb, leb→le, le→leb, ==_iff, ==_refl, Bool-cases,
  Option-cases, &&-elim, &&-intro, ||-elim, is_some, present, length, get_elem?, take, drop,
  is_empty, any, all, select, All, length-append, take-append-drop, length-take, length-drop,
  take-length_append, drop-length_append, All-append, ℕ, zero, suc, ◌+◌, ◌-◌, ◌*◌, ◌/◌, ◌%◌, ◌^◌,
  ◌≤◌, ◌<◌, ◌≡◌, refl, sym, ap, ◌∙◌, ◌≢◌, ◌↔◌, ◌⊎◌, inl, inr, Bool, true, false, not, ◌&&◌, ◌||◌,
  Option, none, some, List, [], ◌∷◌, ◌++◌, map, arith,
}
use hakimi_hub.Prelude.Str.{Text, codes}
use hakimi_hub.Prelude.Str
use hakimi_hub.Prelude.Str.Utf8.{from_utf8_lossy}
use mathlib.Core.Option
use mathlib.Core.List
pub mod Origin
pub mod Fields
pub mod Mirror

-- The head and the body of a message; without an empty line all of it is head.
unfoldable pub split_head : Text → Text × Text
unfolding Str.find
split_head request = elim (Str.find request (codes "\r\n\r\n")) [
  | some pos ↦ (take pos request, drop (pos + 4) request)
  | none ↦ (request, [])
]

-- The path of a URL, from the first slash after the scheme.
unfoldable pub path_of_url : Text → Text
unfolding Str.find
path_of_url url = elim (Str.find url (codes "//")) [
  | none ↦ url
  | some idx ↦
      let after_scheme = drop (idx + 2) url in
      elim (Str.find after_scheme (codes "/")) [
        | some slash_idx ↦ drop slash_idx after_scheme
        | none ↦ codes "/"
      ]
]

abbrev pub is_proxy_header : Text → Bool
is_proxy_header line = Str.starts_with (Str.to_lowercase line) (codes "proxy-")

-- The lines that the loop pushes, each with its line break.
unfoldable pub push_headers : List Text → Text
unfolding Str.starts_with Str.to_lowercase
push_headers [] = []
push_headers (line ∷ ls) =
    let rest = push_headers ls in
    if is_proxy_header line then rest else line ++ (codes "\r\n" ++ rest)

-- `format!("{} {} {}\r\n")`
abbrev pub request_line : Text → Text → Text → Text
request_line method path version =
    method ++ (codes " " ++ (path ++ (codes " " ++ (version ++ codes "\r\n"))))

abbrev rewrite_words : Text → List Text → List Text → Text → Text
unfolding path_of_url push_headers
rewrite_words request (method ∷ url ∷ version ∷ ws) headers body =
    request_line method (path_of_url url) version
    ++ (push_headers headers ++ (codes "\r\n" ++ body))
rewrite_words request (a ∷ b ∷ []) headers body = request
rewrite_words request (a ∷ []) headers body = request
rewrite_words request [] headers body = request

abbrev rewrite_lines : Text → List Text → Text → Text
unfolding rewrite_words
rewrite_lines request [] body = request
rewrite_lines request (first_line ∷ headers) body =
    rewrite_words request (Str.split_whitespace first_line) headers body

unfoldable pub rewrite_http_request : Text → Text
unfolding split_head rewrite_lines Str.lines
rewrite_http_request request =
    let r = split_head request in rewrite_lines request (Str.lines r.0) r.1

-- The request line for a mirror, from the words of the line as it came.
abbrev mirror_words : Text → Text → List Text → Text
mirror_words original_host line (method ∷ path ∷ version ∷ ws) =
    if Str.starts_with path (codes "/")
    then request_line method (codes "/https://" ++ (original_host ++ path)) version
    else if Str.starts_with path (codes "http://") || Str.starts_with path (codes "https://")
    then request_line method (codes "/" ++ path) version
    else line ++ codes "\r\n"
mirror_words original_host line (method ∷ path ∷ []) =
    if Str.starts_with path (codes "/")
    then request_line method (codes "/https://" ++ (original_host ++ path)) (codes "HTTP/1.1")
    else line ++ codes "\r\n"
mirror_words original_host line (a ∷ []) = line ++ codes "\r\n"
mirror_words original_host line [] = line ++ codes "\r\n"

unfoldable pub mirror_request_line : Text → Text → Text
unfolding Str.starts_with
mirror_request_line original_host line = mirror_words original_host line (Str.split_whitespace line)

abbrev pub is_host_header : Text → Bool
is_host_header line = elim (Str.find line (codes ":")) [
  | some pos ↦ Str.text_eq (Str.to_lowercase (Str.trim (take pos line))) (codes "host")
  | none ↦ false
]

-- A header line for the mirror: `Host` names the mirror, and every other line stays.
unfoldable pub mirror_header : Text → Text → Text
unfolding Str.trim Str.to_lowercase
mirror_header mirror_host line =
    if is_host_header line
    then codes "Host: " ++ (mirror_host ++ codes "\r\n")
    else line ++ codes "\r\n"

unfoldable pub mirror_headers : Text → List Text → Text
unfolding mirror_header
mirror_headers mirror_host [] = []
mirror_headers mirror_host (line ∷ ls) =
    mirror_header mirror_host line ++ mirror_headers mirror_host ls

abbrev mirror_lines : Text → Text → List Text → Text
unfolding mirror_request_line mirror_headers
mirror_lines mirror_host original_host [] = []
mirror_lines mirror_host original_host (line ∷ ls) =
    mirror_request_line original_host line ++ mirror_headers mirror_host ls

unfoldable pub rewrite_request_for_mirror : Text → Text → Text → Text
unfolding split_head mirror_lines Str.lines from_utf8_lossy
rewrite_request_for_mirror original_data mirror_host original_host =
    let r = split_head original_data in
    mirror_lines mirror_host original_host (Str.lines (from_utf8_lossy r.0))
    ++ (codes "\r\n" ++ r.1)
