-- ===== src/Tests/Proxying.antt =====
-- Runs of the proxy's decisions and rewritings.
use hakimi_hub.Prelude.{
  ◌==◌, is_empty, all, All, ◌≡◌, refl, ◌↔◌, true, false, not, ◌&&◌, none, some, List, [], ◌∷◌, ◌++◌,
  map, arith,
}
use hakimi_hub.Prelude.Str.{Text, codes}
use hakimi_hub.Prelude.Str
use hakimi_hub.Prelude.{
  ◌==◌, is_empty, all, All, ◌≡◌, refl, ◌↔◌, true, false, not, ◌&&◌, none, some, List, [], ◌∷◌, ◌++◌,
  map, arith,
}
use hakimi_hub.Prelude.Str.{Text, codes}
use hakimi_hub.Prelude.Str
use hakimi_hub.Prelude.Str.Words.{IsWord}
use hakimi_hub.Prelude.Str.Lines.{IsLine, blank}
use hakimi_hub.Rules.{github_defaults}
use hakimi_hub.Rules.Classify.{CoveredBy}
use hakimi_hub.Config.Defaults.{common_defaults}
use hakimi_hub.Intercepts.Matcher.{new, match_domain}
use hakimi_hub.Intercepts.Pattern.Regex.{IsSegment}
use hakimi_hub.Intercepts.Defaults.{release_path}
use hakimi_hub.Proxy.Rewrite.{rewrite_request_for_mirror}
use hakimi_hub.Proxy.Rewrite.Fields.{Field, field_line, IsField}
use hakimi_hub.Prelude.Str.Utf8.{IsAscii}
use hakimi_hub.Prelude.{◌≢◌, ltb}
use hakimi_hub.Proxy.Rewrite.Origin.{first_line}
use hakimi_hub.Proxy.Rewrite.Mirror.{rewrite_request_for_mirror-message}
use hakimi_hub.Proxy.Response.{CachedResource, build_response_from_cache, parse_response_headers}
use hakimi_hub.Proxy.Response.RoundTrip.{parse_response_headers-build}
use hakimi_hub.Proxy.Decision.{
  HandlerContext, ConnectOutcome, UpstreamDecision, decide, handle_connect, is_abort, forbidden,
  resolve_upstream,
}
use hakimi_hub.Proxy.Decision.Connect.{decide-rules, handle_connect-request}
use hakimi_hub.Proxy.Decision.Upstream.{resolve_upstream-release_download}

abbrev context : HandlerContext
context = record {
  mitm_enabled = true;
  domain_rules = github_defaults;
  intercept_matcher = new common_defaults.rules;
  sni_spoof_enabled = true;
}

word : (s : Text) → is_empty s ≡ false → all (λ c. not (Str.is_whitespace c)) s ≡ true → IsWord s
word [] h k = absurd (cc h)
word (c ∷ s) h k = ((λ e. cc e), spaceless (c ∷ s) k)
  where
    spaceless :
        (s : Text)
        → all (λ c. not (Str.is_whitespace c)) s ≡ true
        → All (λ c. Str.is_whitespace c ≡ false) s
    spaceless [] k = tt
    spaceless (c ∷ s) k = (ground (arith, k), spaceless s (ground (arith, k)))

line :
    (s : Text) → is_empty s ≡ false → all (λ c. not (c == 13) && not (c == 10)) s ≡ true → IsLine s
line [] h k = absurd (cc h)
line (c ∷ s) h k = ((λ e. cc e), breakless (c ∷ s) k)
  where
    breakless :
        (s : Text)
        → all (λ c. not (c == 13) && not (c == 10)) s ≡ true
        → All (λ c. ((c == 13) ≡ false) × ((c == 10) ≡ false)) s
    breakless [] k = tt
    breakless (c ∷ s) k = ((ground (arith, k), ground (arith, k)), breakless s (ground (arith, k)))

get-IsWord : IsWord (codes "GET")
get-IsWord = word (codes "GET") refl (unfold Str.is_whitespace in refl)

version-IsWord : IsWord (codes "HTTP/1.1")
version-IsWord = word (codes "HTTP/1.1") refl (unfold Str.is_whitespace in refl)

host-IsWord : IsWord (codes "github.com")
host-IsWord = word (codes "github.com") refl (unfold Str.is_whitespace in refl)

abbrev headers : List Text
headers = codes "Host: github.com" ∷ codes "Proxy-Connection: keep-alive" ∷ []

headers-IsLine : All IsLine headers
headers-IsLine = (
  line (codes "Host: github.com") refl refl,
  (line (codes "Proxy-Connection: keep-alive") refl refl, tt),
)

handle_connect-request_example :
    handle_connect context (
      (Str.join_lines (
          first_line
            (codes "CONNECT")
            (codes "github.com" ++ (codes ":" ++ Str.decimal 443))
            (codes "HTTP/1.1")
          ∷ headers)
        ++ (blank ++ []))
      ∷ [])
    ≡ decide context (codes "github.com") 443
handle_connect-request_example =
    handle_connect-request context (codes "github.com") (codes "HTTP/1.1") 443
      (codes "Host: github.com") (codes "Proxy-Connection: keep-alive" ∷ []) [] host-IsWord
      version-IsWord (omega arith) headers-IsLine

not_aborted :
    is_abort (match_domain context.intercept_matcher (codes "github.com") (codes "/")) ≡ false
unfolding hakimi_hub.Intercepts.Matcher.evaluate
not_aborted = refl

decide-rules_example :
    CoveredBy github_defaults.block (Str.to_lowercase (codes "github.com"))
    ↔ (decide context (codes "github.com") 443 ≡ ConnectOutcome.closed forbidden)
decide-rules_example = (decide-rules context (codes "github.com") 443 not_aborted).0

segment : (s : Text) → is_empty s ≡ false → all (λ c. not (c == b'/')) s ≡ true → IsSegment s
segment [] h k = absurd (cc h)
segment (c ∷ s) h k = ((λ e. cc e), slashless (c ∷ s) k)
  where
    slashless : (s : Text) → all (λ c. not (c == b'/')) s ≡ true → All (λ c. (c == b'/') ≡ false) s
    slashless [] k = tt
    slashless (c ∷ s) k = (ground (arith, k), slashless s (ground (arith, k)))

abbrev download : Text
download = release_path (codes "rust-lang") (codes "log") (codes "1.0/log.zip")

download-IsWord : IsWord download
download-IsWord = word download refl (unfold Str.is_whitespace in refl)

abbrev fields : List Field
fields =
    record { name = codes "hOST"; value = codes " github.com" }
    ∷ record { name = codes "Proxy-Connection"; value = codes " keep-alive" }
    ∷ []

ascii : (s : Text) → all (λ c. ltb c 128) s ≡ true → IsAscii s
ascii [] k = tt
ascii (c ∷ s) k = (ground (arith, k), ascii s (ground (arith, k)))

named :
    (s : Text)
    → all (λ c. ltb c 128 && not (Str.is_whitespace c) && not (c == b':')) s ≡ true
    → IsAscii s × All (λ c. Str.is_whitespace c ≡ false) s × All (λ c. (c == b':') ≡ false) s
named [] k = (tt, tt, tt)
named (c ∷ s) k =
    let r = named s (ground (arith, k)) in
    ((ground (arith, k), r.0), (ground (arith, k), r.1), (ground (arith, k), r.2))

valued :
    (s : Text)
    → all (λ c. ltb c 128 && not (c == 13) && not (c == 10)) s ≡ true
    → IsAscii s × All (λ c. ((c == 13) ≡ false) × ((c == 10) ≡ false)) s
valued [] k = (tt, tt)
valued (c ∷ s) k =
    let r = valued s (ground (arith, k)) in
    ((ground (arith, k), r.0), ((ground (arith, k), ground (arith, k)), r.1))

field-IsField :
    (f : Field)
    → f.name ≢ []
    → all (λ c. ltb c 128 && not (Str.is_whitespace c) && not (c == b':')) f.name ≡ true
    → all (λ c. ltb c 128 && not (c == 13) && not (c == 10)) f.value ≡ true
    → IsField f
field-IsField f n h k =
    let (a, b, c) = named f.name h in let (d, e) = valued f.value k in (n, a, b, c, d, e)

fields-IsField : All IsField fields
fields-IsField = (
  field-IsField (record { name = codes "hOST"; value = codes " github.com" }) (λ e. cc e)
      (unfold Str.is_whitespace in refl) refl,
  (
    field-IsField (record { name = codes "Proxy-Connection"; value = codes " keep-alive" })
        (λ e. cc e) (unfold Str.is_whitespace in refl) refl,
    tt,
  ),
)

resolve_upstream-release_download_example :
    resolve_upstream (codes "github.com") download context (
      Str.join_lines (first_line (codes "GET") download (codes "HTTP/1.1") ∷ map field_line fields)
      ++ (blank ++ codes "body"))
    ≡ UpstreamDecision.proxy_mirror (codes "v4.gh-proxy.org") (
        Str.join_lines (
          first_line (codes "GET") (codes "/https://github.com" ++ download) (codes "HTTP/1.1")
          ∷ codes "Host: v4.gh-proxy.org"
          ∷ codes "Proxy-Connection: keep-alive"
          ∷ [])
        ++ (blank ++ codes "body"))
resolve_upstream-release_download_example =
    resolve_upstream-release_download context (codes "rust-lang") (codes "log")
      (codes "1.0/log.zip") (codes "GET") (codes "HTTP/1.1") fields (codes "body") refl
      (segment (codes "rust-lang") refl refl) (segment (codes "log") refl refl) get-IsWord
      download-IsWord version-IsWord
      (ascii (first_line (codes "GET") download (codes "HTTP/1.1")) refl) fields-IsField

abbrev url : Text
url = codes "http://example.org/a"

a-IsWord : IsWord (codes "/a")
a-IsWord = word (codes "/a") refl (unfold Str.is_whitespace in refl)

rewrite_request_for_mirror-message_example :
    rewrite_request_for_mirror
      (Str.join_lines
          (first_line (codes "GET") (codes "/a") (codes "HTTP/1.1") ∷ map field_line fields)
        ++ (blank ++ codes "body"))
      (codes "mirror.org")
      (codes "github.com")
    ≡ Str.join_lines (
        first_line
          (codes "GET")
          (codes "/https://" ++ (codes "github.com" ++ codes "/a"))
          (codes "HTTP/1.1")
        ∷ codes "Host: mirror.org"
        ∷ codes "Proxy-Connection: keep-alive"
        ∷ [])
      ++ (blank ++ codes "body")
rewrite_request_for_mirror-message_example =
    rewrite_request_for_mirror-message (codes "GET") (codes "a") (codes "HTTP/1.1")
      (codes "mirror.org") (codes "github.com") fields (codes "body") get-IsWord a-IsWord
      version-IsWord (ascii (first_line (codes "GET") (codes "/a") (codes "HTTP/1.1")) refl)
      fields-IsField

abbrev cached : CachedResource
cached = record {
  content_type = codes "text/css";
  data_bytes = codes "body{}";
  etag = none;
  last_modified = none;
}

parse_response_headers-build_example :
    parse_response_headers (build_response_from_cache cached)
    ≡ (some (Str.trim (codes " " ++ codes "text/css")), some 6)
parse_response_headers-build_example =
    parse_response_headers-build cached ((line (codes "text/css") refl refl).1) tt tt (omega arith)
