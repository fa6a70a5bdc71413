-- ===== src/Proxy/Response/RoundTrip.antt =====
-- A cached resource written as a response, and read back by the parser of response heads.
use hakimi_hub.Prelude.{
  ◌==◌, length, take, drop, all, All, take-length_append, All-append, ℕ, ◌≤◌, ◌≡◌, refl, sym, ap,
  ◌∙◌, ◌≢◌, true, false, not, ◌&&◌, Option, none, some, List, [], ◌∷◌, ◌++◌, arith,
}
use hakimi_hub.Prelude.Str.{Text, codes}
use hakimi_hub.Prelude.Str.Alike.{All-reverse}
use hakimi_hub.Prelude.Str
use mathlib.Core.List.{append_assoc, reverse, reverse-reverse}
use hakimi_hub.Prelude.Str.Lines.{IsLine, blank, lines-join_lines, find-join_lines}
use hakimi_hub.Prelude.Str.Print.{IsNumeral, IsNumeral-decimal, parse-decimal}
use hakimi_hub.Proxy.Response.{
  CachedResource, build_response_from_cache, parse_response_headers, headers_in, find_header_end,
  optional_header, parse_u64,
}

-- The header lines that an option gives.
abbrev optional_line : Text → Option Text → List Text
optional_line name none = []
optional_line name (some v) = (name ++ v) ∷ []

abbrev tail_lines : CachedResource → List Text
tail_lines c =
    optional_line (codes "ETag: ") c.etag
    ++ (optional_line (codes "Last-Modified: ") c.last_modified ++ codes "Connection: close" ∷ [])

-- No line break stands in the text.
abbrev pub IsClean : Text → Type 0
IsClean s = All (λ c. ((c == 13) ≡ false) × ((c == 10) ≡ false)) s

abbrev pub OptionIsClean : Option Text → Type 0
OptionIsClean none = Unit
OptionIsClean (some s) = IsClean s

numeral-IsClean : (s : Text) → IsNumeral s → IsClean s
numeral-IsClean [] h = tt
numeral-IsClean (c ∷ s) h = ((ground (arith, h.0), ground (arith, h.0)), numeral-IsClean s h.1)

-- A numeral after a space is read as by itself.
trim_start-numeral : (s : Text) → IsNumeral s → Str.trim_start s ≡ s
unfolding Str.trim_start Str.is_whitespace
trim_start-numeral [] h = refl
trim_start-numeral (c ∷ s) h = ground (arith, h.0)

trim-numeral : (s : Text) → IsNumeral s → Str.trim (codes " " ++ s) ≡ s
unfolding Str.trim Str.trim_start Str.is_whitespace
trim-numeral s h =
    ap (λ t. reverse (Str.trim_start (reverse t))) (trim_start-numeral s h)
    ∙ ap reverse (trim_start-numeral (reverse s) (All-reverse _ s h))
    ∙ reverse-reverse s

-- What the loop makes of the lines that follow the length.
headers_in-tail :
    (t : Option Text) (n : Option ℕ) (c : CachedResource) → headers_in t n (tail_lines c) ≡ (t, n)
unfolding headers_in Str.to_lower
headers_in-tail t n c = go c.etag c.last_modified
  where
    go :
        (e m : Option Text)
        → headers_in t n (
            optional_line (codes "ETag: ") e
            ++ (optional_line (codes "Last-Modified: ") m ++ codes "Connection: close" ∷ []))
          ≡ (t, n)
    go none none = refl
    go none (some m) = refl
    go (some e) none = refl
    go (some e) (some m) = refl

abbrev response_lines : CachedResource → List Text
response_lines c =
    codes "HTTP/1.1 200 OK"
    ∷ (codes "Content-Type: " ++ c.content_type)
    ∷ (codes "Content-Length: " ++ Str.decimal (length c.data_bytes))
    ∷ tail_lines c

headers_in-response :
    (c : CachedResource)
    → length c.data_bytes ≤ 18446744073709551615
    → headers_in none none (drop 1 (response_lines c))
      ≡ (some (Str.trim (codes " " ++ c.content_type)), some (length c.data_bytes))
unfolding headers_in Str.to_lower
headers_in-response c h =
    let e : parse_u64 (codes " " ++ Str.decimal (length c.data_bytes))
        ≡ some (length c.data_bytes) =
      rw (trim-numeral (Str.decimal (length c.data_bytes)) (IsNumeral-decimal _))
        (parse-decimal 18446744073709551615 (length c.data_bytes) h) in
    headers_in-tail (some (Str.trim (codes " " ++ c.content_type)))
      (parse_u64 (codes " " ++ Str.decimal (length c.data_bytes))) c
    ∙ ap (λ n. (some (Str.trim (codes " " ++ c.content_type)), n)) e

header-line :
    (name v z : Text) → (name ++ (v ++ codes "\r\n")) ++ z ≡ (name ++ v) ++ (codes "\r\n" ++ z)
header-line name v z =
    ap (λ t. t ++ z) (sym (append_assoc name v (codes "\r\n")))
    ∙ append_assoc (name ++ v) (codes "\r\n") z

join_lines-step :
    (l m : Text) (ls : List Text) (z : Text)
    → l ++ (codes "\r\n" ++ (Str.join_lines (m ∷ ls) ++ z)) ≡ Str.join_lines (l ∷ m ∷ ls) ++ z
unfolding Str.join_lines
join_lines-step l m ls z = sym (append_assoc l (codes "\r\n" ++ Str.join_lines (m ∷ ls)) z)

-- The optional headers and the last one, as lines.
tail-eq :
    (e m : Option Text) (z : Text)
    → optional_header (codes "ETag: ") e
        ++ (optional_header (codes "Last-Modified: ") m ++ (codes "Connection: close" ++ z))
      ≡ Str.join_lines (
          optional_line (codes "ETag: ") e
          ++ (optional_line (codes "Last-Modified: ") m ++ codes "Connection: close" ∷ []))
        ++ z
unfolding Str.join_lines
tail-eq none none z = refl
tail-eq none (some m) z =
    header-line (codes "Last-Modified: ") m (codes "Connection: close" ++ z)
    ∙ join_lines-step (codes "Last-Modified: " ++ m) (codes "Connection: close") [] z
tail-eq (some e) none z =
    header-line (codes "ETag: ") e (codes "Connection: close" ++ z)
    ∙ join_lines-step (codes "ETag: " ++ e) (codes "Connection: close") [] z
tail-eq (some e) (some m) z =
    header-line (codes "ETag: ") e
      (optional_header (codes "Last-Modified: ") (some m) ++ (codes "Connection: close" ++ z))
    ∙ ap (λ t. (codes "ETag: " ++ e) ++ (codes "\r\n" ++ t))
        (header-line (codes "Last-Modified: ") m (codes "Connection: close" ++ z)
          ∙ join_lines-step (codes "Last-Modified: " ++ m) (codes "Connection: close") [] z)
    ∙ join_lines-step (codes "ETag: " ++ e) (codes "Last-Modified: " ++ m)
        (codes "Connection: close" ∷ []) z

three-lines :
    (l m n : Text) (ls : List Text) (z : Text)
    → ls ≢ []
    → l
        ++ (codes "\r\n"
            ++ (m ++ (codes "\r\n" ++ (n ++ (codes "\r\n" ++ (Str.join_lines ls ++ z))))))
      ≡ Str.join_lines (l ∷ m ∷ n ∷ ls) ++ z
three-lines l m n [] z h = absurd (h refl)
three-lines l m n (k ∷ ls) z h =
    ap (λ t. l ++ (codes "\r\n" ++ (m ++ (codes "\r\n" ++ t)))) (join_lines-step n k ls z)
    ∙ ap (λ t. l ++ (codes "\r\n" ++ t)) (join_lines-step m n (k ∷ ls) z)
    ∙ join_lines-step l m (n ∷ k ∷ ls) z

tail_lines-ne-nil :
    (e m : Option Text)
    → (optional_line (codes "ETag: ") e
        ++ (optional_line (codes "Last-Modified: ") m ++ codes "Connection: close" ∷ []))
      ≢ []
tail_lines-ne-nil none none h = cc h
tail_lines-ne-nil none (some m) h = cc h
tail_lines-ne-nil (some e) m h = cc h

response-eq :
    (c : CachedResource)
    → build_response_from_cache c ≡ Str.join_lines (response_lines c) ++ (blank ++ c.data_bytes)
unfolding build_response_from_cache
response-eq c =
    ap
      (λ t.
        codes "HTTP/1.1 200 OK\r\nContent-Type: "
        ++ (c.content_type
            ++ (codes "\r\nContent-Length: "
                ++ (Str.decimal (length c.data_bytes) ++ (codes "\r\n" ++ t)))))
      (tail-eq c.etag c.last_modified (blank ++ c.data_bytes))
    ∙ three-lines (codes "HTTP/1.1 200 OK") (codes "Content-Type: " ++ c.content_type)
        (codes "Content-Length: " ++ Str.decimal (length c.data_bytes)) (tail_lines c)
        (blank ++ c.data_bytes) (tail_lines-ne-nil c.etag c.last_modified)

IsClean-of_all : (s : Text) → all (λ c. not (c == 13) && not (c == 10)) s ≡ true → IsClean s
IsClean-of_all [] h = tt
IsClean-of_all (c ∷ s) h =
    ((ground (arith, h), ground (arith, h)), IsClean-of_all s (ground (arith, h)))

named-IsLine :
    (c : ℕ) (name v : Text)
    → all (λ c. not (c == 13) && not (c == 10)) (c ∷ name) ≡ true
    → IsClean v
    → IsLine ((c ∷ name) ++ v)
named-IsLine c name v hn hv =
    ((λ e. cc e), All-append _ (c ∷ name) v (IsClean-of_all (c ∷ name) hn) hv)

optional-IsLine :
    (c : ℕ) (name : Text) (o : Option Text) (rest : List Text)
    → all (λ c. not (c == 13) && not (c == 10)) (c ∷ name) ≡ true
    → OptionIsClean o
    → All IsLine rest
    → All IsLine (optional_line (c ∷ name) o ++ rest)
optional-IsLine c name none rest hn ho hr = hr
optional-IsLine c name (some v) rest hn ho hr = (named-IsLine c name v hn ho, hr)

response_lines-IsLine :
    (c : CachedResource)
    → IsClean c.content_type
    → OptionIsClean c.etag
    → OptionIsClean c.last_modified
    → All IsLine (response_lines c)
response_lines-IsLine c ht he hm = (
  named-IsLine b'H' (codes "TTP/1.1 200 OK") [] refl tt,
  (
    named-IsLine b'C' (codes "ontent-Type: ") c.content_type refl ht,
    (
      named-IsLine b'C' (codes "ontent-Length: ") (Str.decimal (length c.data_bytes)) refl
          (numeral-IsClean _ (IsNumeral-decimal _)),
      optional-IsLine b'E' (codes "Tag: ") c.etag _ refl he (
          optional-IsLine b'L' (codes "ast-Modified: ") c.last_modified _ refl hm
            (named-IsLine b'C' (codes "onnection: close") [] refl tt, tt)),
    ),
  ),
)

parse_at :
    (response x : Text) (ls : List Text) (r : Option Text × Option ℕ)
    → Str.find response blank ≡ some (length x)
    → take (length x) response ≡ x
    → Str.lines x ≡ ls
    → headers_in none none (drop 1 ls) ≡ r
    → parse_response_headers response ≡ r
unfolding parse_response_headers find_header_end
parse_at response x ls r e f g h = ground (arith, e, f, g, h)

-- A cached resource whose type and validators have no line breaks, of less than 2^64 bytes, is
-- written as a response whose head gives back its type, trimmed, and the length of its data.
pub parse_response_headers-build :
    (c : CachedResource)
    → IsClean c.content_type
    → OptionIsClean c.etag
    → OptionIsClean c.last_modified
    → length c.data_bytes ≤ 18446744073709551615
    → parse_response_headers (build_response_from_cache c)
      ≡ (some (Str.trim (codes " " ++ c.content_type)), some (length c.data_bytes))
parse_response_headers-build c ht he hm hl =
    let x = Str.join_lines (response_lines c) in
    let hi = response_lines-IsLine c ht he hm in
    ap parse_response_headers (response-eq c)
    ∙ parse_at (x ++ (blank ++ c.data_bytes)) x (response_lines c) _
        (find-join_lines _ _ c.data_bytes hi) (take-length_append x (blank ++ c.data_bytes))
        (lines-join_lines _ _ hi) (headers_in-response c hl)
