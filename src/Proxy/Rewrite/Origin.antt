-- ===== src/Proxy/Rewrite/Origin.antt =====
-- The request that goes to the origin: the path in place of the URL, and no header for proxies.
use hakimi_hub.Prelude.{
  ◌==◌, length, take, drop, select, All, take-length_append, drop-length_append, All-append, ℕ, suc,
  ◌+◌, ◌≡◌, refl, sym, ap, ◌∙◌, false, not, some, List, [], ◌∷◌, ◌++◌, arith,
}
use hakimi_hub.Prelude.Str.{Text, codes}
use hakimi_hub.Prelude.Str
use mathlib.Core.List.{append_assoc}
use hakimi_hub.Prelude.{if◌then◌else◌, Bool}
use hakimi_hub.Prelude.Str.Alike.{begins_alike, find_char}
use hakimi_hub.Prelude.Str.Words.{IsWord, split_whitespace-word, split_whitespace_last}
use hakimi_hub.Prelude.Str.Lines.{IsLine, blank, find-join_lines}
use hakimi_hub.Proxy.Rewrite.{split_head, path_of_url, request_line}

drop-blank : (x body : Text) → drop (length x + 4) (x ++ (blank ++ body)) ≡ body
drop-blank [] body = refl
drop-blank (c ∷ x) body =
    let e : suc (length x) + 4 ≡ suc (length x + 4) = omega arith in
    ap (λ n. drop n (c ∷ (x ++ (blank ++ body)))) e ∙ drop-blank x body

split_head_at :
    (request : Text) (pos : ℕ)
    → Str.find request blank ≡ some pos
    → split_head request ≡ (take pos request, drop (pos + 4) request)
unfolding split_head
split_head_at request pos e = ground (arith, e)

-- A message that is put together from its lines and its body falls into these again.
pub split_head-join_lines :
    (l : Text) (ls : List Text) (body : Text)
    → All IsLine (l ∷ ls)
    → split_head (Str.join_lines (l ∷ ls) ++ (blank ++ body)) ≡ (Str.join_lines (l ∷ ls), body)
split_head-join_lines l ls body h =
    let x = Str.join_lines (l ∷ ls) in
    split_head_at (x ++ (blank ++ body)) (length x) (find-join_lines l ls body h)
    ∙ ap (λ t. (t, drop (length x + 4) (x ++ (blank ++ body))))
        (take-length_append x (blank ++ body))
    ∙ ap (λ t. (x, t)) (drop-blank x body)

pub word-IsText :
    (w : Text)
    → All (λ c. Str.is_whitespace c ≡ false) w
    → All (λ c. ((c == 13) ≡ false) × ((c == 10) ≡ false)) w
unfolding Str.is_whitespace
word-IsText [] h = tt
word-IsText (c ∷ w) h = ((ground (arith, h.0), ground (arith, h.0)), word-IsText w h.1)

-- The words of a request line.
abbrev pub first_line : Text → Text → Text → Text
first_line method url version = method ++ (32 ∷ (url ++ (32 ∷ version)))

pub first_line-IsLine :
    (method url version : Text)
    → IsWord method
    → IsWord url
    → IsWord version
    → IsLine (first_line method url version)
first_line-IsLine [] url version hm hu hv = absurd (hm.0 refl)
first_line-IsLine (c ∷ m) url version hm hu hv = (
  (λ e. cc e),
  All-append _ (c ∷ m) (32 ∷ (url ++ (32 ∷ version))) (word-IsText (c ∷ m) hm.1) (
    (refl, refl),
    All-append _ url (32 ∷ version) (word-IsText url hu.1) ((refl, refl), word-IsText version hv.1),
  ),
)

pub first_line-words :
    (method url version : Text)
    → IsWord method
    → IsWord url
    → IsWord version
    → Str.split_whitespace (first_line method url version) ≡ method ∷ url ∷ version ∷ []
first_line-words method url version hm hu hv =
    split_whitespace-word method (url ++ (32 ∷ version)) hm
    ∙ ap (λ ws. method ∷ ws)
        (split_whitespace-word url version hu
          ∙ ap (λ ws. url ∷ ws) (split_whitespace_last version hv))

pub request_line-first_line :
    (method path version : Text)
    → request_line method path version ≡ first_line method path version ++ codes "\r\n"
request_line-first_line method path version = sym (
    append_assoc method (32 ∷ (path ++ (32 ∷ version))) (codes "\r\n")
    ∙ ap (λ t. method ++ (32 ∷ t)) (append_assoc path (32 ∷ version) (codes "\r\n")))

path_of_url_at :
    (url : Text) (i j : ℕ)
    → Str.find url (codes "//") ≡ some i
    → Str.find (drop (i + 2) url) (codes "/") ≡ some j
    → path_of_url url ≡ drop j (drop (i + 2) url)
unfolding path_of_url
path_of_url_at url i j e f = ground (arith, e, f)

-- The path of a URL with a path is that path.
pub path_of_url-path :
    (host path : Text)
    → All (λ c. (c == b'/') ≡ false) host
    → path_of_url (codes "http://" ++ (host ++ (b'/' ∷ path))) ≡ b'/' ∷ path
path_of_url-path host path h =
    path_of_url_at (codes "http://" ++ (host ++ (b'/' ∷ path))) 5 (length host)
      (unfold Str.find Str.starts_with in refl) (find_char b'/' host path h)
    ∙ drop-length_append host (b'/' ∷ path)

abbrev kept_if : Bool → Text → List Text → List Text
kept_if b h hs = if not b then h ∷ hs else hs

-- The headers that are left without those for proxies.
abbrev pub without_proxy : List Text → List Text
without_proxy hs = select (λ h. not (begins_alike h (codes "proxy-"))) hs
