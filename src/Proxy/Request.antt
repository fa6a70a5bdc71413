-- ===== src/Proxy/Request.antt =====
-- src/proxy/handler.rs: the readers of the first line of a request. A text that has passed
-- `String::from_utf8_lossy` is taken to be the bytes as they came, which holds of valid UTF-8.
use hakimi_hub.Prelude.{
  ltb, leb, ◌==◌, if◌then◌else◌, ltb→lt, lt→ltb, leb→le, le→leb, ==_iff, ==_refl, Bool-cases,
  Option-cases, &&-elim, &&-intro, ||-elim, is_some, present, length, get_elem?, take, drop,
  is_empty, any, all, select, All, length-append, take-append-drop, length-take, length-drop,
  take-length_append, drop-length_append, All-append, ℕ, zero, suc, ◌+◌, ◌-◌, ◌*◌, ◌/◌, ◌%◌, ◌^◌,
  ◌≤◌, ◌<◌, ◌≡◌, refl, sym, ap, ◌∙◌, ◌≢◌, ◌↔◌, ◌⊎◌, inl, inr, Bool, true, false, not, ◌&&◌, ◌||◌,
  Option, none, some, List, [], ◌∷◌, ◌++◌, map, arith,
}
use hakimi_hub.Prelude.Str.{Text, codes}
use hakimi_hub.Prelude.Str
use mathlib.Core.Option
use hakimi_hub.Prelude.{◌>>=◌}
use mathlib.Core.List
pub mod Target

-- `bytes[0]` picks the methods to compare with.
unfoldable pub is_http_method : Text → Bool
unfolding Str.starts_with
is_http_method [] = false
is_http_method (b ∷ s) =
    if b == b'G'
    then Str.starts_with (b ∷ s) (codes "GET")
    else if b == b'P'
    then Str.starts_with (b ∷ s) (codes "POST")
      || (Str.starts_with (b ∷ s) (codes "PUT") || Str.starts_with (b ∷ s) (codes "PATCH"))
    else if b == b'D'
    then Str.starts_with (b ∷ s) (codes "DELETE")
    else if b == b'H'
    then Str.starts_with (b ∷ s) (codes "HEAD")
    else if b == b'O'
    then Str.starts_with (b ∷ s) (codes "OPTIONS")
    else false

-- What `handle_connection` makes of the bytes that it peeks at.
pub data Protocol : Type 0 where
  closed connect http unknown : Protocol

unfoldable pub protocol : Text → Protocol
unfolding is_http_method
protocol [] = Protocol.closed
protocol (b ∷ s) =
    if Str.starts_with (b ∷ s) (codes "CONNECT")
    then Protocol.connect
    else if is_http_method (b ∷ s)
    then Protocol.http
    else Protocol.unknown

abbrev second : List Text → Option Text
second [] = none
second (a ∷ []) = none
second (a ∷ b ∷ ws) = some b

unfoldable pub parse_request_path : Text → Option Text
unfolding Str.split_whitespace
parse_request_path line = second (Str.split_whitespace line)

-- The port and the host on the two sides of the last colon.
unfoldable pub parse_host_port : Text → Option (Text × ℕ)
unfolding Str.rsplit2 Str.parse_unsigned
parse_host_port target =
    let r = Str.rsplit2 b':' target in
    (do port ← Str.parse_unsigned 65535 r.0; host ← r.1; some (host, port))

abbrev nonempty_host : Text × ℕ → Option (Text × ℕ)
nonempty_host ([], port) = none
nonempty_host (c ∷ host, port) = some (c ∷ host, port)

abbrev connect_words : List Text → Option (Text × ℕ)
unfolding parse_host_port
connect_words [] = none
connect_words (a ∷ []) = none
connect_words (a ∷ target ∷ ws) =
    if Str.text_eq a (codes "CONNECT")
    then (do t ← parse_host_port target; nonempty_host t)
    else none

unfoldable pub parse_connect_target : Text → Option (Text × ℕ)
unfolding connect_words
parse_connect_target line = connect_words (Str.split_whitespace line)

-- The authority of a URL after its scheme, with the port that the scheme implies.
unfoldable pub parse_authority : ℕ → Text → Option (Text × ℕ)
unfolding parse_host_port Str.contains Str.before
parse_authority default_port without_scheme =
    let host_port = Str.before b'/' without_scheme in
    if Str.contains host_port (codes ":")
    then parse_host_port host_port
    else some (host_port, default_port)

unfoldable pub parse_url : Text → Option (Text × ℕ)
unfolding parse_authority Str.strip_prefix
parse_url url = elim (Str.strip_prefix url (codes "http://")) [
  | some rest ↦ parse_authority 80 rest
  | none ↦ elim (Str.strip_prefix url (codes "https://")) [
    | some rest ↦ parse_authority 443 rest
    | none ↦ none
  ]
]

unfoldable pub parse_http_target : Text → Option (Text × ℕ)
unfolding parse_url parse_request_path
parse_http_target line = (do url ← parse_request_path line; parse_url url)

abbrev pac_words : List Text → Bool
pac_words [] = false
pac_words (a ∷ []) = false
pac_words (method ∷ path ∷ ws) =
    Str.text_eq method (codes "GET")
    && (Str.text_eq path (codes "/pac") || Str.ends_with path (codes "/pac"))

unfoldable pub is_pac_request : Text → Bool
is_pac_request line = pac_words (Str.split_whitespace line)
