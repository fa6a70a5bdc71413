-- ===== src/Intercepts/Matcher/Order.antt =====
-- The look-up against the list of rules: the three indexes return what the first rule of each
-- kind says, and the kinds are tried in a fixed order.
use hakimi_hub.Prelude.{
  leb, if◌then◌else◌, Bool-cases, Option-cases, length, take, drop, all, ◌+◌, ◌≡◌, refl, sym, ap,
  ◌∙◌, inl, inr, Bool, true, false, ◌&&◌, ◌||◌, Option, none, some, List, [], ◌∷◌, ◌++◌, arith,
}
use hakimi_hub.Prelude.Str.{Text, codes}
use hakimi_hub.Prelude.Str
use mathlib.Core.Option
use hakimi_hub.Prelude.Str.Fold.{to_lowercase_idem}
use hakimi_hub.Prelude.Str.Search.{text_eq_iff}
use hakimi_hub.Config.Intercept.{InterceptAction, InterceptRule}
use hakimi_hub.Intercepts.Matcher.{
  exact_rule, suffix_rule, wildcard_rule, ExactRule, SuffixRule, WildcardRule, InterceptMatcher,
  get_rules, push_rule, compile, add_rule, add_rules, no_rules, new, path_matches, wildcard_matches,
  suffix_matches, first_exact, first_suffix, first_wildcard, or_else, domain_lower, match_domain,
}

pub data Kind : Type 0 where
  exact suffix wildcard : Kind

-- The kind of a rule, by its host.
abbrev pub kind : InterceptRule → Kind
kind rule =
    let from = Str.to_lowercase rule.from in
    if Str.starts_with from (codes "*.")
    then Kind.suffix
    else if Str.contains from (codes "*")
    then Kind.wildcard
    else Kind.exact

-- Whether a rule accepts a host, by its kind.
abbrev pub accepts_host : Kind → InterceptRule → Text → Bool
accepts_host Kind.exact rule host = Str.text_eq (Str.to_lowercase rule.from) host
accepts_host Kind.suffix rule host =
    let domain = Str.to_lowercase (drop 2 (Str.to_lowercase rule.from)) in
    Str.text_eq host domain || Str.ends_with host (codes "." ++ domain)
accepts_host Kind.wildcard rule host =
    let from = Str.to_lowercase rule.from in
    let star = Option.get_or (Str.find from (codes "*")) 0 in
    Str.starts_with host (take star from)
    && Str.ends_with host (drop (star + 1) from)
    && leb (length (take star from) + length (drop (star + 1) from)) (length host)

abbrev pub same_kind : Kind → Kind → Bool
same_kind Kind.exact Kind.exact = true
same_kind Kind.suffix Kind.suffix = true
same_kind Kind.wildcard Kind.wildcard = true
same_kind _ _ = false

abbrev pub applies : Kind → Text → Text → InterceptRule → Bool
applies k host path rule =
    same_kind k (kind rule)
    && (accepts_host k rule host && path_matches (compile rule.from_pattern) path)

-- The action of the first rule of a kind that applies.
unfoldable pub first_rule : Kind → Text → Text → List InterceptRule → Option InterceptAction
first_rule k host path [] = none
first_rule k host path (r ∷ rs) =
    if applies k host path r then some r.action else first_rule k host path rs

or_else_assoc {ℓ} :
    {A : Type ℓ} (a b c : Option A) → or_else (or_else a b) c ≡ or_else a (or_else b c)
or_else_assoc none b c = refl
or_else_assoc (some x) b c = refl

or_else-none {ℓ} : {A : Type ℓ} (a : Option A) → or_else a none ≡ a
or_else-none none = refl
or_else-none (some x) = refl

first_exact-append :
    (path : Text) (xs ys : List ExactRule)
    → first_exact path (xs ++ ys) ≡ or_else (first_exact path xs) (first_exact path ys)
unfolding first_exact
first_exact-append path [] ys = refl
first_exact-append path (x ∷ xs) ys = ground (arith, first_exact-append path xs ys)

module _ (host path : Text) where
  first_suffix-append :
      (xs ys : List SuffixRule)
      → first_suffix host path (xs ++ ys)
        ≡ or_else (first_suffix host path xs) (first_suffix host path ys)
  unfolding first_suffix
  first_suffix-append [] ys = refl
  first_suffix-append (x ∷ xs) ys = ground (arith, first_suffix-append xs ys)

  first_wildcard-append :
      (xs ys : List WildcardRule)
      → first_wildcard host path (xs ++ ys)
        ≡ or_else (first_wildcard host path xs) (first_wildcard host path ys)
  unfolding first_wildcard
  first_wildcard-append [] ys = refl
  first_wildcard-append (x ∷ xs) ys = ground (arith, first_wildcard-append xs ys)

  get_rules-push_rule :
      (k : Text) (r : ExactRule) (m : List (Text × List ExactRule))
      → get_rules host (push_rule k r m)
        ≡ (if Str.text_eq k host then get_rules host m ++ r ∷ [] else get_rules host m)
  unfolding get_rules push_rule
  get_rules-push_rule k r [] = refl
  get_rules-push_rule k r ((j, rs) ∷ m) =
      ground
        (arith, get_rules-push_rule k r m, text_eq_iff j k, text_eq_iff j host, text_eq_iff k host)

  -- What the matcher has for one kind of rule.
  abbrev answer : Kind → InterceptMatcher → Option InterceptAction
  answer Kind.exact m = first_exact path (get_rules host m.exact_rules)
  answer Kind.suffix m = first_suffix host path m.suffix_rules
  answer Kind.wildcard m = first_wildcard host path m.wildcard_rules

  abbrev one : Kind → InterceptRule → Option InterceptAction
  one k r = if applies k host path r then some r.action else none

  -- A rule that is added counts where no earlier one of its kind applies.
  add_rule-answer :
      (k : Kind) (m : InterceptMatcher) (r : InterceptRule)
      → answer k (add_rule m r) ≡ or_else (answer k m) (one k r)
  unfolding add_rule first_exact first_suffix first_wildcard suffix_matches wildcard_matches
      Str.contains
  add_rule-answer Kind.exact m r = ground (
    arith,
    get_rules-push_rule (Str.to_lowercase r.from) (exact_rule r) m.exact_rules,
    first_exact-append path (get_rules host m.exact_rules) (exact_rule r ∷ []),
    or_else-none (first_exact path (get_rules host m.exact_rules)),
  )
  add_rule-answer Kind.suffix m r = ground (
    arith,
    first_suffix-append m.suffix_rules (suffix_rule r ∷ []),
    or_else-none (first_suffix host path m.suffix_rules),
  )
  add_rule-answer Kind.wildcard m r =
      elim (Option-cases (Str.find (Str.to_lowercase r.from) (codes "*"))) [
        | inl e ↦ ground (arith, e, or_else-none (first_wildcard host path m.wildcard_rules))
        | inr (star, e) ↦ ground (
          arith,
          e,
          first_wildcard-append m.wildcard_rules (wildcard_rule star r ∷ []),
          or_else-none (first_wildcard host path m.wildcard_rules),
        )
      ]

  add_rules-answer :
      (k : Kind) (m : InterceptMatcher) (rs : List InterceptRule)
      → answer k (add_rules m rs) ≡ or_else (answer k m) (first_rule k host path rs)
  unfolding add_rules first_rule
  add_rules-answer k m [] = sym (or_else-none (answer k m))
  add_rules-answer k m (r ∷ rs) =
      add_rules-answer k (add_rule m r) rs
      ∙ ap (λ a. or_else a (first_rule k host path rs)) (add_rule-answer k m r)
      ∙ or_else_assoc (answer k m) (one k r) (first_rule k host path rs)
      ∙ ap (or_else (answer k m)) (or_else-one k r rs)
    where
      or_else-one :
          (k : Kind) (r : InterceptRule) (rs : List InterceptRule)
          → or_else (one k r) (first_rule k host path rs) ≡ first_rule k host path (r ∷ rs)
      or_else-one k r rs = ground arith

lower_letters : (s : Text) → all (λ c. leb b'a' c && leb c b'z') s ≡ true → Str.to_lowercase s ≡ s
unfolding Str.to_lowercase Str.to_lower
lower_letters [] h = refl
lower_letters (c ∷ s) h = ground (arith, lower_letters s)

-- The host is folded on either branch of the shortcut.
domain_lower-eq : (host : Text) → domain_lower host ≡ Str.to_lowercase host
unfolding domain_lower
domain_lower-eq host = elim (Bool-cases (all (λ c. leb b'a' c && leb c b'z') host)) [
  | inl e ↦ rw e (sym (lower_letters host e))
  | inr e ↦ rw e
]

-- The action for a host and a path is that of the first rule without a star whose host it is, else
-- of the first rule `*.domain` that covers it, else of the first rule with a star elsewhere, each
-- in the order of the configuration and only where the rule's path pattern matches.
pub match_domain-first_rule :
    (rules : List InterceptRule) (domain path : Text)
    → match_domain (new rules) domain path
      ≡ or_else (first_rule Kind.exact (Str.to_lowercase domain) path rules) (
          or_else
            (first_rule Kind.suffix (Str.to_lowercase domain) path rules)
            (first_rule Kind.wildcard (Str.to_lowercase domain) path rules))
unfolding match_domain new
match_domain-first_rule rules domain path =
    let host = Str.to_lowercase domain in
    rw (domain_lower-eq domain) (
      unfold first_exact first_suffix first_wildcard get_rules in
      cc (
        add_rules-answer host path Kind.exact no_rules rules,
        add_rules-answer host path Kind.suffix no_rules rules,
        add_rules-answer host path Kind.wildcard no_rules rules,
      ))

-- Upper and lower case in the host make no difference.
pub match_domain-to_lowercase :
    (m : InterceptMatcher) (domain path : Text)
    → match_domain m (Str.to_lowercase domain) path ≡ match_domain m domain path
unfolding match_domain
match_domain-to_lowercase m domain path =
    rw (domain_lower-eq domain, domain_lower-eq (Str.to_lowercase domain), to_lowercase_idem domain)
