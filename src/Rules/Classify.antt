-- ===== src/Rules/Classify.antt =====
-- Which hosts the rules send where.
use hakimi_hub.Prelude.{
  if◌then◌else◌, Bool-cases, ||-elim, ◌≡◌, refl, ap, ◌∙◌, ◌↔◌, ◌⊎◌, inl, inr, Bool, true, false,
  not, ◌&&◌, ◌||◌, List, [], ◌∷◌, ◌++◌, arith,
}
use hakimi_hub.Prelude.Str.{Text, codes}
use hakimi_hub.Prelude.Str
use hakimi_hub.Prelude.Str.Fold.{to_lowercase-append}
use hakimi_hub.Prelude.Str.Search.{text_eq_iff, ends_with_iff, starts_with_iff, HasPrefix}
use hakimi_hub.Rules.{
  DomainPattern, MatchType, DomainRules, DomainAction, suffix_pattern, matches, matches_any,
  classify, add_proxy, add_direct, github_defaults,
}

-- What a pattern means: the host itself, the host and its subdomains, or a prefix of the host.
abbrev pub Covers : MatchType → Text → Text → Type 0
Covers MatchType.exact pattern host = host ≡ pattern
Covers MatchType.suffix pattern host =
    (host ≡ pattern) ⊎ ((sub : Text) × (host ≡ sub ++ (codes "." ++ pattern)))
Covers MatchType.prefix pattern host = HasPrefix host pattern

Covers-of_matches_type :
    (t : MatchType) (pattern host : Text)
    → matches (record { pattern = pattern; match_type = t }) host ≡ true
    → Covers t pattern host
unfolding matches
Covers-of_matches_type MatchType.exact pattern host h = (text_eq_iff host pattern).0 h
Covers-of_matches_type MatchType.suffix pattern host h = elim (||-elim _ _ h) [
  | inl e ↦ inl ((text_eq_iff host pattern).0 e)
  | inr e ↦ inr ((ends_with_iff host (codes "." ++ pattern)).0 e)
]
Covers-of_matches_type MatchType.prefix pattern host h = (starts_with_iff host pattern).0 h

matches_type_of_Covers :
    (t : MatchType) (pattern host : Text)
    → Covers t pattern host
    → matches (record { pattern = pattern; match_type = t }) host ≡ true
unfolding matches
matches_type_of_Covers MatchType.exact pattern host h = (text_eq_iff host pattern).1 h
matches_type_of_Covers MatchType.suffix pattern host (inl h) = rw ((text_eq_iff host pattern).1 h)
matches_type_of_Covers MatchType.suffix pattern host (inr h) =
    let k = (ends_with_iff host (codes "." ++ pattern)).1 h in ground (arith, k)
matches_type_of_Covers MatchType.prefix pattern host h = (starts_with_iff host pattern).1 h

-- A pattern matches the hosts that it covers and no other.
pub matches_iff :
    (p : DomainPattern) (host : Text) → (matches p host ≡ true) ↔ Covers p.match_type p.pattern host
matches_iff p host = (
  Covers-of_matches_type p.match_type p.pattern host,
  matches_type_of_Covers p.match_type p.pattern host,
)

-- Some pattern of a list covers the host.
abbrev pub CoveredBy : List DomainPattern → Text → Type 0
CoveredBy [] host = ⊥
CoveredBy (p ∷ ps) host = Covers p.match_type p.pattern host ⊎ CoveredBy ps host

CoveredBy-of_matches_any :
    (ps : List DomainPattern) (host : Text) → matches_any ps host ≡ true → CoveredBy ps host
unfolding matches_any
CoveredBy-of_matches_any [] host h = cc
CoveredBy-of_matches_any (p ∷ ps) host h = elim (Bool-cases (matches p host)) [
  | inl e ↦ inl ((matches_iff p host).0 e)
  | inr e ↦ inr (CoveredBy-of_matches_any ps host (rw e at h))
]

matches_any_of_CoveredBy :
    (ps : List DomainPattern) (host : Text) → CoveredBy ps host → matches_any ps host ≡ true
unfolding matches_any
matches_any_of_CoveredBy [] host h = absurd h
matches_any_of_CoveredBy (p ∷ ps) host (inl h) = rw ((matches_iff p host).1 h)
matches_any_of_CoveredBy (p ∷ ps) host (inr h) = ground (arith, matches_any_of_CoveredBy ps host h)

pub matches_any_iff :
    (ps : List DomainPattern) (host : Text) → (matches_any ps host ≡ true) ↔ CoveredBy ps host
matches_any_iff ps host = (CoveredBy-of_matches_any ps host, matches_any_of_CoveredBy ps host)

-- The ladder of `classify`, over what its tests decide.
abbrev ladder : Bool → Bool → DomainAction
ladder b p = if b then DomainAction.block else if p then DomainAction.proxy else DomainAction.direct

module _ {B P : Type 0} where
  ladder_iff :
      (b p : Bool)
      → ((b ≡ true) ↔ B)
      → ((p ≡ true) ↔ P)
      → ((ladder b p ≡ DomainAction.block) ↔ B)
        × ((ladder b p ≡ DomainAction.proxy) ↔ (P × ¬ B))
        × ((ladder b p ≡ DomainAction.direct) ↔ ((¬ P) × ¬ B))
  ladder_iff true p hb hp = (
    ((λ e. hb.0 refl), λ h. refl),
    ((λ e. cc e), λ h. absurd (h.1 (hb.0 refl))),
    ((λ e. cc e), λ h. absurd (h.1 (hb.0 refl))),
  )
  ladder_iff false true hb hp = (
    ((λ e. cc e), λ h. cc (hb.1 h)),
    ((λ e. (hp.0 refl, λ h. cc (hb.1 h))), λ h. refl),
    ((λ e. cc e), λ h. absurd (h.0 (hp.0 refl))),
  )
  ladder_iff false false hb hp = (
    ((λ e. cc e), λ h. cc (hb.1 h)),
    ((λ e. cc e), λ h. cc (hp.1 h.0)),
    ((λ e. ((λ h. cc (hp.1 h)), λ h. cc (hb.1 h))), λ h. refl),
  )

classify-ladder :
    (rules : DomainRules) (domain : Text)
    → classify rules domain
      ≡ ladder
          (matches_any rules.block (Str.to_lowercase domain))
          (matches_any rules.proxy (Str.to_lowercase domain))
unfolding classify
classify-ladder rules domain = ground arith

-- Blocking goes before proxying, and proxying before a direct connection, whatever the case of
-- the host's letters: a host is blocked exactly where a block pattern covers it, proxied exactly
-- where a proxy pattern and no block pattern does, and direct otherwise.
pub classify_iff :
    (rules : DomainRules) (domain : Text)
    → ((classify rules domain ≡ DomainAction.block)
        ↔ CoveredBy rules.block (Str.to_lowercase domain))
      × ((classify rules domain ≡ DomainAction.proxy) ↔ (
          CoveredBy rules.proxy (Str.to_lowercase domain)
          × ¬ CoveredBy rules.block (Str.to_lowercase domain)))
      × ((classify rules domain ≡ DomainAction.direct) ↔ (
          (¬ CoveredBy rules.proxy (Str.to_lowercase domain))
          × ¬ CoveredBy rules.block (Str.to_lowercase domain)))
unfolding classify
classify_iff rules domain = rw (classify-ladder rules domain) (
    ladder_iff (matches_any rules.block (Str.to_lowercase domain))
      (matches_any rules.proxy (Str.to_lowercase domain))
      (matches_any_iff rules.block (Str.to_lowercase domain))
      (matches_any_iff rules.proxy (Str.to_lowercase domain)))

matches_any-append :
    (ps qs : List DomainPattern) (host : Text)
    → matches_any (ps ++ qs) host ≡ (matches_any ps host || matches_any qs host)
unfolding matches_any
matches_any-append [] qs host = refl
matches_any-append (p ∷ ps) qs host = ground (arith, matches_any-append ps qs host)

-- After `add_proxy` the hosts that the new pattern covers are proxied unless they are blocked,
-- and every other host is treated as before.
pub classify-add_proxy :
    (rules : DomainRules) (p : DomainPattern) (domain : Text)
    → classify (add_proxy rules p) domain ≡ (
        if matches p (Str.to_lowercase domain)
          && not (matches_any rules.block (Str.to_lowercase domain))
        then DomainAction.proxy
        else classify rules domain)
unfolding classify add_proxy matches_any
classify-add_proxy rules p domain =
    ground (arith, matches_any-append rules.proxy (p ∷ []) (Str.to_lowercase domain))

-- `add_direct` changes nothing: hosts that no list names are direct already.
pub classify-add_direct :
    (rules : DomainRules) (p : DomainPattern) (domain : Text)
    → classify (add_direct rules p) domain ≡ classify rules domain
unfolding classify add_direct
classify-add_direct rules p domain = ground arith

-- With the built-in rules every subdomain of github.com is proxied, in any case of its letters.
pub classify-github_subdomain :
    (sub : Text) → classify github_defaults (sub ++ codes ".GitHub.com") ≡ DomainAction.proxy
unfolding classify github_defaults matches_any
classify-github_subdomain sub =
    let host = Str.to_lowercase (sub ++ codes ".GitHub.com") in
    let e : host ≡ Str.to_lowercase sub ++ codes ".github.com" =
      to_lowercase-append sub (codes ".GitHub.com")
      ∙ ap (λ t. Str.to_lowercase sub ++ t) (unfold Str.to_lowercase Str.to_lower in refl) in
    let h : matches (suffix_pattern (codes "github.com")) host ≡ true =
      (matches_iff (suffix_pattern (codes "github.com")) host).1
        (unfold suffix_pattern Str.to_lowercase Str.to_lower in inr (Str.to_lowercase sub, e)) in
    ground (arith, h)
