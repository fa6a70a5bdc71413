-- ===== src/Proxy/Rewrite/Mirror.antt =====
-- The request that goes to a mirror: the original URL inside its path, and the mirror as its host.
use hakimi_hub.Prelude.{
  if◌then◌else◌, Bool-cases, All, All-append, length, take, take-length_append, ℕ, some, ◌≡◌, refl,
  sym, ap, ◌∙◌, inl, inr, List, [], ◌∷◌, ◌++◌, map, arith,
}
use hakimi_hub.Prelude.Str.{Text, codes}
use hakimi_hub.Prelude.Str
use mathlib.Core.List.{append_assoc}
use hakimi_hub.Prelude.Str.Utf8.{IsAscii, from_utf8_lossy-IsAscii}
use hakimi_hub.Prelude.Str.Alike.{same_letters, trim-Spaceless, text_eq-to_lowercase, find_char}
use hakimi_hub.Proxy.Rewrite.Fields.{Field, field_line, IsField, fields-IsAscii, fields-IsLine}
use hakimi_hub.Prelude.Str.Words.{IsWord}
use hakimi_hub.Prelude.Str.Lines.{IsLine, blank, lines-join_lines}
use hakimi_hub.Proxy.Rewrite.{
  split_head, is_host_header, mirror_request_line, mirror_header, mirror_headers, request_line,
  rewrite_request_for_mirror,
}
use hakimi_hub.Proxy.Rewrite.Origin.{
  split_head-join_lines, first_line, first_line-IsLine, first_line-words, request_line-first_line,
}

-- A header line as the mirror gets it.
abbrev for_mirror : Text → Text → Text
for_mirror mirror h = if is_host_header h then codes "Host: " ++ mirror else h

mirror_header-for_mirror :
    (mirror h : Text) → mirror_header mirror h ≡ for_mirror mirror h ++ codes "\r\n"
unfolding mirror_header
mirror_header-for_mirror mirror h = elim (Bool-cases (is_host_header h)) [
  | inl e ↦ rw e refl
  | inr e ↦ rw e refl
]

mirror_headers-join_lines :
    (mirror l : Text) (ls : List Text) (body : Text)
    → (l ++ codes "\r\n") ++ (mirror_headers mirror ls ++ (codes "\r\n" ++ body))
      ≡ Str.join_lines (l ∷ map (for_mirror mirror) ls) ++ (blank ++ body)
unfolding mirror_headers Str.join_lines
mirror_headers-join_lines mirror l [] body = append_assoc l (codes "\r\n") (codes "\r\n" ++ body)
mirror_headers-join_lines mirror l (m ∷ ls) body =
    let n = for_mirror mirror m in
    append_assoc l (codes "\r\n")
      ((mirror_header mirror m ++ mirror_headers mirror ls) ++ (codes "\r\n" ++ body))
    ∙ ap (λ t. l ++ (codes "\r\n" ++ t))
        (append_assoc (mirror_header mirror m) (mirror_headers mirror ls) (codes "\r\n" ++ body)
          ∙ ap (λ t. t ++ (mirror_headers mirror ls ++ (codes "\r\n" ++ body)))
              (mirror_header-for_mirror mirror m)
          ∙ mirror_headers-join_lines mirror n ls body)
    ∙ sym (
        append_assoc l (codes "\r\n" ++ Str.join_lines (n ∷ map (for_mirror mirror) ls))
          (blank ++ body))

mirror_request_line-path :
    (host method path version : Text)
    → Str.split_whitespace (first_line method (b'/' ∷ path) version)
      ≡ method ∷ (b'/' ∷ path) ∷ version ∷ []
    → mirror_request_line host (first_line method (b'/' ∷ path) version)
      ≡ request_line method (codes "/https://" ++ (host ++ (b'/' ∷ path))) version
unfolding mirror_request_line Str.starts_with
mirror_request_line-path host method path version e = ground (arith, e)

rewrite-lines :
    (request mirror host l body : Text) (ls : List Text)
    → split_head request ≡ (Str.join_lines (l ∷ ls), body)
    → IsAscii (Str.join_lines (l ∷ ls))
    → Str.lines (Str.join_lines (l ∷ ls)) ≡ l ∷ ls
    → rewrite_request_for_mirror request mirror host
      ≡ (mirror_request_line host l ++ mirror_headers mirror ls) ++ (codes "\r\n" ++ body)
unfolding rewrite_request_for_mirror
rewrite-lines request mirror host l body ls e a f =
    ground (arith, e, f, from_utf8_lossy-IsAscii (Str.join_lines (l ∷ ls)) a)

IsAscii-join_lines : (ls : List Text) → All IsAscii ls → IsAscii (Str.join_lines ls)
unfolding Str.join_lines
IsAscii-join_lines [] h = tt
IsAscii-join_lines (l ∷ []) h = h.0
IsAscii-join_lines (l ∷ m ∷ ls) h =
    All-append _ l (codes "\r\n" ++ Str.join_lines (m ∷ ls)) h.0
      (omega arith, (omega arith, IsAscii-join_lines (m ∷ ls) h.1))

message-lines :
    (method path version mirror host : Text) (headers : List Text) (body : Text)
    → IsWord method
    → IsWord (b'/' ∷ path)
    → IsWord version
    → All IsLine headers
    → All IsAscii (first_line method (b'/' ∷ path) version ∷ headers)
    → rewrite_request_for_mirror
        (Str.join_lines (first_line method (b'/' ∷ path) version ∷ headers) ++ (blank ++ body))
        mirror
        host
      ≡ Str.join_lines (
          first_line method (codes "/https://" ++ (host ++ (b'/' ∷ path))) version
          ∷ map (for_mirror mirror) headers)
        ++ (blank ++ body)
message-lines method path version mirror host headers body hm hp hv hh ha =
    let l = first_line method (b'/' ∷ path) version in
    let hl = first_line-IsLine method (b'/' ∷ path) version hm hp hv in
    let target = codes "/https://" ++ (host ++ (b'/' ∷ path)) in
    rewrite-lines _ mirror host l body headers (split_head-join_lines l headers body (hl, hh))
      (IsAscii-join_lines (l ∷ headers) ha) (lines-join_lines l headers (hl, hh))
    ∙ append_assoc (mirror_request_line host l) (mirror_headers mirror headers)
        (codes "\r\n" ++ body)
    ∙ ap (λ t. t ++ (mirror_headers mirror headers ++ (codes "\r\n" ++ body)))
        (mirror_request_line-path host method path version
            (first_line-words method (b'/' ∷ path) version hm hp hv)
          ∙ request_line-first_line method target version)
    ∙ mirror_headers-join_lines mirror (first_line method target version) headers body

-- The field as the mirror must get it: one that is named `host`, in letters of any case, names the
-- mirror, and any other stays.
abbrev pub mirror_field : Text → Field → Text
mirror_field mirror f =
    if same_letters f.name (codes "host") then codes "Host: " ++ mirror else field_line f

is_host_header_at :
    (line : Text) (pos : ℕ)
    → Str.find line (codes ":") ≡ some pos
    → is_host_header line ≡ Str.text_eq (Str.to_lowercase (Str.trim (take pos line))) (codes "host")
is_host_header_at line pos e = rw (e, is_host_header) refl

is_host_header-field :
    (f : Field) → IsField f → is_host_header (field_line f) ≡ same_letters f.name (codes "host")
is_host_header-field f h =
    is_host_header_at (field_line f) (length f.name) (find_char b':' f.name f.value h.3)
    ∙ ap (λ t. Str.text_eq (Str.to_lowercase (Str.trim t)) (codes "host"))
        (take-length_append f.name (b':' ∷ f.value))
    ∙ ap (λ t. Str.text_eq (Str.to_lowercase t) (codes "host")) (trim-Spaceless f.name h.2)
    ∙ text_eq-to_lowercase f.name (codes "host") (refl, (refl, (refl, (refl, tt))))

for_mirror-field :
    (mirror : Text) (f : Field)
    → IsField f
    → for_mirror mirror (field_line f) ≡ mirror_field mirror f
for_mirror-field mirror f h =
    ap (λ b. if b then codes "Host: " ++ mirror else field_line f) (is_host_header-field f h)

for_mirror-fields :
    (mirror : Text) (fields : List Field)
    → All IsField fields
    → map (for_mirror mirror) (map field_line fields) ≡ map (mirror_field mirror) fields
for_mirror-fields mirror [] h = refl
for_mirror-fields mirror (f ∷ fields) (h, hs) =
    ap (λ t. t ∷ map (for_mirror mirror) (map field_line fields)) (for_mirror-field mirror f h)
    ∙ ap (λ l. mirror_field mirror f ∷ l) (for_mirror-fields mirror fields hs)

-- A request for a path, with a head of ASCII characters, well-formed header fields and any body,
-- goes to the mirror as a request for `/https://host` and that path: with the same method and
-- version, the mirror named in each field with the name `host` in any case, every other field as
-- it was, and the same body.
pub rewrite_request_for_mirror-message :
    (method path version mirror host : Text) (fields : List Field) (body : Text)
    → IsWord method
    → IsWord (b'/' ∷ path)
    → IsWord version
    → IsAscii (first_line method (b'/' ∷ path) version)
    → All IsField fields
    → rewrite_request_for_mirror
        (Str.join_lines (first_line method (b'/' ∷ path) version ∷ map field_line fields)
          ++ (blank ++ body))
        mirror
        host
      ≡ Str.join_lines (
          first_line method (codes "/https://" ++ (host ++ (b'/' ∷ path))) version
          ∷ map (mirror_field mirror) fields)
        ++ (blank ++ body)
rewrite_request_for_mirror-message method path version mirror host fields body hm hp hv ha hf =
    let line = first_line method (codes "/https://" ++ (host ++ (b'/' ∷ path))) version in
    message-lines method path version mirror host (map field_line fields) body hm hp hv
      (fields-IsLine fields hf) (ha, fields-IsAscii fields hf)
    ∙ ap (λ l. Str.join_lines (line ∷ l) ++ (blank ++ body)) (for_mirror-fields mirror fields hf)
