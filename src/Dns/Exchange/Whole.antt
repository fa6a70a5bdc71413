-- ===== src/Dns/Exchange/Whole.antt =====
-- src/dns/doh_client.rs: a whole response comes out of `send_doh_request`.
use hakimi_hub.Prelude.{
  Option-cases, is_some, length, take, drop, length-append, take-length_append, ℕ, zero, suc, ◌+◌,
  ◌-◌, ◌≤◌, ◌≡◌, refl, sym, ap, ◌∙◌, inl, inr, Bool, true, some, List, [], ◌∷◌, ◌++◌, arith,
}
use hakimi_hub.Prelude.Str.{Text, codes}
use hakimi_hub.Prelude.Str
use hakimi_hub.Prelude.Str.Front.{find_longer, find_fits}
use hakimi_hub.Dns.Exchange.{
  separator, find_header_end, length_in, parse_content_length, extract_http_body, Reads, read_head,
  read_body, finish, send_doh_request,
}
use hakimi_hub.Dns.Exchange.Chunks.{join, Chunks, reads_of, read_body-chunks, read_head-chunks}

take_front : (n : ℕ) (s t : Text) → n ≤ length s → take n (s ++ t) ≡ take n s
take_front zero s t h = refl
take_front (suc n) [] t h = absurd (omega (arith, h))
take_front (suc n) (c ∷ s) t h = ap (λ l. c ∷ l) (take_front n s t (omega (arith, h)))

content_length-known :
    (is_utf8 : Text → Bool) (got head : Text) (n : ℕ)
    → find_header_end got ≡ some (length head)
    → take (length head) got ≡ head
    → is_utf8 head ≡ true
    → length_in (Str.lines head) ≡ some n
    → parse_content_length is_utf8 got ≡ some n
unfolding parse_content_length
content_length-known is_utf8 got head n f t u l = rw (f, parse_content_length) (rw (t, u) l)

finish-known :
    (is_utf8 : Text → Bool) (got : Text) (h n : ℕ) (rs : Reads)
    → find_header_end got ≡ some h
    → parse_content_length is_utf8 got ≡ some n
    → finish is_utf8 (got, rs) ≡ read_body got (length got - (h + 4)) n rs
unfolding finish
finish-known is_utf8 got h n rs f l = rw (f, l) refl

body_at :
    (full : Text) (h : ℕ)
    → Str.find full separator ≡ some h
    → extract_http_body full ≡ some (drop (h + 4) full)
unfolding extract_http_body
body_at full h f = rw (f, extract_http_body) refl

body-known :
    (full : Text) (h : ℕ)
    → find_header_end full ≡ some h
    → extract_http_body full ≡ some (drop (h + 4) full)
unfolding find_header_end
body-known full h f = body_at full h f

sent-known :
    (is_utf8 : Text → Bool) (rs left later : Reads) (got full body : Text)
    → read_head [] rs ≡ some (got, left)
    → finish is_utf8 (got, left) ≡ some (full, later)
    → extract_http_body full ≡ some body
    → send_doh_request is_utf8 rs ≡ some (body, later)
unfolding send_doh_request
sent-known is_utf8 rs left later got full body r f b = rw (r, f, b) refl

find_in_whole :
    (full head got : Text) (rest : Text)
    → got ++ rest ≡ full
    → find_header_end full ≡ some (length head)
    → is_some (find_header_end got) ≡ true
    → find_header_end got ≡ some (length head)
unfolding find_header_end
find_in_whole full head got rest w f h = elim (Option-cases (Str.find got separator)) [
  | inl e ↦ absurd (cc (sym (ap is_some e) ∙ h))
  | inr (i, e) ↦ e ∙ sym (find_longer got rest separator i e) ∙ ap (λ t. Str.find t separator) w ∙ f
]

head_fits :
    (head got : Text) → find_header_end got ≡ some (length head) → length head + 4 ≤ length got
unfolding find_header_end
head_fits head got g = find_fits got separator (length head) g

drop_past : (n : ℕ) (head t : Text) → drop (length head + n) (head ++ t) ≡ drop n t
drop_past n [] t = ap (λ k. drop k t) (zero_plus n)
  where
    zero_plus : (n : ℕ) → 0 + n ≡ n
    zero_plus n = omega arith
drop_past n (c ∷ head) t =
    ap (λ k. drop k (c ∷ (head ++ t))) (suc_plus (length head) n) ∙ drop_past n head t
  where
    suc_plus : (m n : ℕ) → suc m + n ≡ suc (m + n)
    suc_plus m n = omega arith

drop_head : (head body : Text) → drop (length head + 4) (head ++ (separator ++ body)) ≡ body
drop_head head body = drop_past 4 head (separator ++ body)

-- A response with a length in its head is read whole, however its bytes are cut into chunks: the
-- body comes out, and the reads that follow are left for the next response. The head is UTF-8, no
-- earlier empty line ends it, and its first length is that of the body.
pub send_doh_request-chunks :
    (is_utf8 : Text → Bool) (head body : Text) (cs : List Text) (later : Reads)
    → find_header_end (head ++ (separator ++ body)) ≡ some (length head)
    → is_utf8 head ≡ true
    → length_in (Str.lines head) ≡ some (length body)
    → Chunks cs
    → join cs ≡ head ++ (separator ++ body)
    → send_doh_request is_utf8 (reads_of cs ++ later) ≡ some (body, later)
send_doh_request-chunks is_utf8 head body cs later f u l h j =
    let full = head ++ (separator ++ body) in
    let r = read_head-chunks cs [] full later h j (ap is_some f) in
    let g = find_in_whole full head r.got (join r.left) r.whole f r.headed in
    let fits = head_fits head r.got g in
    let t : take (length head) r.got ≡ head =
      sym (take_front (length head) r.got (join r.left) (omega (arith, fits)))
      ∙ ap (take (length head)) r.whole
      ∙ take-length_append head (separator ++ body) in
    sent-known is_utf8 (reads_of cs ++ later) (reads_of r.left ++ later) later r.got full body
      r.reads
      (finish-known is_utf8 r.got (length head) (length body) (reads_of r.left ++ later) g
          (content_length-known is_utf8 r.got head (length body) g t u l)
        ∙ read_body-chunks r.left r.got full (length r.got - (length head + 4)) (length body)
            (length head + 4) later r.chunks r.whole (omega (arith, fits))
            (omega (arith, length-append head (separator ++ body), length-append separator body)))
      (body-known full (length head) f ∙ ap (λ b. some b) (drop_head head body))
