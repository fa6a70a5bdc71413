-- ===== src/Dns/Exchange/Chunks.antt =====
-- src/dns/doh_client.rs: a response is read the same, however it is cut into chunks.
use hakimi_hub.Prelude.{
  ltb, lt→ltb, Bool-cases, is_some, length, is_empty, All, length-append, ℕ, ◌+◌, ◌<◌, ◌≡◌, refl,
  sym, ap, ◌∙◌, inl, inr, true, false, none, some, List, [], ◌∷◌, ◌++◌, map, arith,
}
use hakimi_hub.Prelude.Str.{Text}
use mathlib.Core.List.{append_assoc, append-nil}
use hakimi_hub.Dns.Exchange.{find_header_end, Reads, read_head, read_body}

-- The bytes of all chunks.
abbrev pub join : List Text → Text
join [] = []
join (c ∷ cs) = c ++ join cs

-- No chunk is empty.
abbrev pub Chunks : List Text → Type 0
Chunks cs = All (λ c. is_empty c ≡ false) cs

abbrev pub reads_of : List Text → Reads
reads_of cs = map (λ c. some c) cs

positive_length : (c : Text) → is_empty c ≡ false → 0 < length c
positive_length [] h = absurd (cc h)
positive_length (x ∷ c) h = omega arith

body_done :
    (response : Text) (total n : ℕ) (rs : Reads)
    → ltb total n ≡ false
    → read_body response total n rs ≡ some (response, rs)
unfolding read_body
body_done response total n [] h = refl
body_done response total n (none ∷ rs) h = rw h refl
body_done response total n (some c ∷ rs) h = rw h refl

body_more :
    (response c : Text) (total n : ℕ) (rs : Reads)
    → ltb total n ≡ true
    → is_empty c ≡ false
    → read_body response total n (some c ∷ rs) ≡ read_body (response ++ c) (total + length c) n rs
unfolding read_body
body_more response c total n rs h e = rw (h, e) refl

-- The second loop reads the chunks of the body, and no more.
pub read_body-chunks :
    (cs : List Text) (acc full : Text) (total n start : ℕ) (rs : Reads)
    → Chunks cs
    → acc ++ join cs ≡ full
    → total + start ≡ length acc
    → n + start ≡ length full
    → read_body acc total n (reads_of cs ++ rs) ≡ some (full, rs)
read_body-chunks [] acc full total n start rs h e f g =
    body_done acc total n rs ended ∙ ap (λ t. some (t, rs)) same
  where
    same : acc ≡ full
    same = sym (append-nil acc) ∙ e

    ended : ltb total n ≡ false
    ended = ground (arith, f, g, ap length (sym (append-nil acc) ∙ e))
read_body-chunks (c ∷ cs) acc full total n start rs (h, hs) e f g =
    body_more acc c total n (reads_of cs ++ rs) (lt→ltb total n more) h
    ∙ read_body-chunks cs (acc ++ c) full (total + length c) n start rs hs
        (append_assoc acc c (join cs) ∙ e) (omega (arith, f, length-append acc c)) g
  where
    more : total < n
    more = omega (
      arith,
      f,
      g,
      ap length e,
      length-append acc (c ++ join cs),
      length-append c (join cs),
      positive_length c h,
    )

head_stop :
    (acc : Text) (rs : Reads)
    → is_some (find_header_end acc) ≡ true
    → read_head acc rs ≡ some (acc, rs)
unfolding read_head
head_stop acc [] h = refl
head_stop acc (none ∷ rs) h = rw h refl
head_stop acc (some c ∷ rs) h = rw h refl

head_more :
    (acc c : Text) (rs : Reads)
    → is_some (find_header_end acc) ≡ false
    → is_empty c ≡ false
    → read_head acc (some c ∷ rs) ≡ read_head (acc ++ c) rs
unfolding read_head
head_more acc c rs h e = rw (h, e) refl

-- What the first loop leaves: a front of the response with its whole head, and the other chunks.
pub record HeadRead (acc full : Text) (cs : List Text) (rs : Reads) : Type 0 where
  pub got : Text
  pub left : List Text
  pub reads : read_head acc (reads_of cs ++ rs) ≡ some (got, reads_of left ++ rs)
  pub chunks : Chunks left
  pub whole : got ++ join left ≡ full
  pub headed : is_some (find_header_end got) ≡ true

pub read_head-chunks :
    (cs : List Text) (acc full : Text) (rs : Reads)
    → Chunks cs
    → acc ++ join cs ≡ full
    → is_some (find_header_end full) ≡ true
    → HeadRead acc full cs rs
read_head-chunks [] acc full rs h e f = record {
  got = acc;
  left = [];
  reads = head_stop acc rs (headed_acc (sym (append-nil acc) ∙ e));
  chunks = tt;
  whole = e;
  headed = headed_acc (sym (append-nil acc) ∙ e);
}
  where
    headed_acc : acc ≡ full → is_some (find_header_end acc) ≡ true
    headed_acc q = ap (λ t. is_some (find_header_end t)) q ∙ f
read_head-chunks (c ∷ cs) acc full rs (h, hs) e f =
    let r = read_head-chunks cs (acc ++ c) full rs hs (append_assoc acc c (join cs) ∙ e) f in
    elim (Bool-cases (is_some (find_header_end acc))) [
      | inl g ↦ record {
        got = acc;
        left = c ∷ cs;
        reads = head_stop acc (reads_of (c ∷ cs) ++ rs) g;
        chunks = (h, hs);
        whole = e;
        headed = g;
      }
      | inr g ↦ record {
        got = r.got;
        left = r.left;
        reads = head_more acc c (reads_of cs ++ rs) g h ∙ r.reads;
        chunks = r.chunks;
        whole = r.whole;
        headed = r.headed;
      }
    ]
