-- ===== src/Intercepts/Matcher/Index.antt =====
-- The tests of the three kinds of rule, written on the rule itself, and what they decide.
use hakimi_hub.Prelude.{
  ||-elim, length, take, drop, length-append, ℕ, ◌+◌, ◌≤◌, ◌≡◌, refl, sym, ap, ◌∙◌, ◌↔◌, ◌⊎◌, inl,
  inr, true, [], ◌∷◌, ◌++◌, arith,
}
use hakimi_hub.Prelude.Str.{Text, codes}
use hakimi_hub.Prelude.Str
use mathlib.Core.List.{append_assoc}
use hakimi_hub.Prelude.Str.Search.{text_eq_iff, starts_with_iff, ends_with_iff}
use hakimi_hub.Intercepts.Matcher.{WildcardRule, SuffixRule, wildcard_matches, suffix_matches}

-- A suffix rule accepts its host and the subdomains of it, and no other host.
pub suffix_matches_iff :
    (r : SuffixRule) (host : Text)
    → r.dot_suffix ≡ codes "." ++ r.suffix
    → (suffix_matches r host ≡ true)
      ↔ ((host ≡ r.suffix) ⊎ ((sub : Text) × (host ≡ sub ++ (codes "." ++ r.suffix))))
unfolding suffix_matches
suffix_matches_iff r host e = (to, from)
  where
    to :
        suffix_matches r host ≡ true
        → (host ≡ r.suffix) ⊎ ((sub : Text) × (host ≡ sub ++ (codes "." ++ r.suffix)))
    to h = elim (||-elim (Str.text_eq host r.suffix) (Str.ends_with host r.dot_suffix) h) [
      | inl p ↦ inl ((text_eq_iff host r.suffix).0 p)
      | inr p ↦
          let (sub, q) = (ends_with_iff host r.dot_suffix).0 p in
          inr (sub, q ∙ ap (λ t. sub ++ t) e)
    ]

    from :
        (host ≡ r.suffix) ⊎ ((sub : Text) × (host ≡ sub ++ (codes "." ++ r.suffix)))
        → suffix_matches r host ≡ true
    from (inl p) = rw ((text_eq_iff host r.suffix).1 p)
    from (inr (sub, q)) =
        let k : Str.ends_with host r.dot_suffix ≡ true =
          (ends_with_iff host r.dot_suffix).1 (sub, q ∙ sym (ap (λ t. sub ++ t) e)) in
        ground (arith, k)

-- The pattern of a wildcard rule, around its star.
abbrev pub before_star : WildcardRule → Text
before_star r = take r.star_pos r.pattern

abbrev pub after_star : WildcardRule → Text
after_star r = drop (r.star_pos + 1) r.pattern

-- Of two ways to cut a text, the one that cuts later takes in the other.
cut_later : (p r l q : Text) → p ++ r ≡ l ++ q → length p ≤ length l → (mid : Text) × (l ≡ p ++ mid)
cut_later [] r l q e h = (l, refl)
cut_later (c ∷ p) r [] q e h = absurd (omega arith)
cut_later (c ∷ p) r (d ∷ l) q e h =
    let (mid, k) = cut_later p r l q (cc e) (omega arith) in (mid, cc (e, k))

middle :
    (host p q : Text)
    → Str.starts_with host p ≡ true
    → Str.ends_with host q ≡ true
    → length p + length q ≤ length host
    → (mid : Text) × (host ≡ p ++ (mid ++ q))
middle host p q hp hq fits =
    let (r, e) = (starts_with_iff host p).0 hp in
    let (l, f) = (ends_with_iff host q).0 hq in
    let (mid, k) =
      cut_later p r l q (sym e ∙ f) (omega (arith, length-append l q, ap (length {A = ℕ}) f)) in
    (mid, f ∙ ap (λ t. t ++ q) k ∙ append_assoc p mid q)

-- A wildcard rule accepts the hosts in which some text stands for the star, the empty one too.
pub wildcard_matches_iff :
    (r : WildcardRule) (host : Text)
    → (wildcard_matches r host ≡ true)
      ↔ ((mid : Text) × (host ≡ before_star r ++ (mid ++ after_star r)))
unfolding wildcard_matches
wildcard_matches_iff r host = (to, from)
  where
    to :
        wildcard_matches r host ≡ true
        → (mid : Text) × (host ≡ before_star r ++ (mid ++ after_star r))
    to h = middle host (before_star r) (after_star r) (ground arith) (ground arith) (ground arith)

    from :
        (mid : Text) × (host ≡ before_star r ++ (mid ++ after_star r))
        → wildcard_matches r host ≡ true
    from (mid, e) =
        let a : Str.starts_with host (before_star r) ≡ true =
          (starts_with_iff host (before_star r)).1 (mid ++ after_star r, e) in
        let b : Str.ends_with host (after_star r) ≡ true =
          (ends_with_iff host (after_star r)).1
            (before_star r ++ mid, e ∙ sym (append_assoc (before_star r) mid (after_star r))) in
        let c : length host ≡ length (before_star r) + (length mid + length (after_star r)) =
          ap length e
          ∙ length-append (before_star r) (mid ++ after_star r)
          ∙ ap (λ n. length (before_star r) + n) (length-append mid (after_star r)) in
        ground (arith, a, b, c)
