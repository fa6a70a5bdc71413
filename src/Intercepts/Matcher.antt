-- ===== src/Intercepts/Matcher.antt =====
-- `InterceptMatcher` of src/intercepts/matcher.rs: the rules sorted into three indexes, and the
-- look-up of a request's host and path. The exact index is the standard library's `HashMap`,
-- here an association list in which each key stands once.
use hakimi_hub.Prelude.{
  ltb, leb, ◌==◌, if◌then◌else◌, ltb→lt, lt→ltb, leb→le, le→leb, ==_iff, ==_refl, Bool-cases,
  Option-cases, &&-elim, &&-intro, ||-elim, is_some, present, length, get_elem?, take, drop,
  is_empty, any, all, select, All, length-append, take-append-drop, length-take, length-drop,
  take-length_append, drop-length_append, All-append, ℕ, zero, suc, ◌+◌, ◌-◌, ◌*◌, ◌/◌, ◌%◌, ◌^◌,
  ◌≤◌, ◌<◌, ◌≡◌, refl, sym, ap, ◌∙◌, ◌≢◌, ◌↔◌, ◌⊎◌, inl, inr, Bool, true, false, not, ◌&&◌, ◌||◌,
  Option, none, some, List, [], ◌∷◌, ◌++◌, map, arith,
}
use hakimi_hub.Prelude.Str.{Text, codes}
use hakimi_hub.Prelude.Str
use mathlib.Core.Option
use mathlib.Core.List
use hakimi_hub.Config.Intercept.{InterceptAction, InterceptRule}
use hakimi_hub.Intercepts.Pattern.{SimplePattern, from_pattern, matches}
pub mod Index
pub mod Order

pub record ExactRule : Type 0 where
  pub path_pattern : Option SimplePattern
  pub action : InterceptAction

pub record SuffixRule : Type 0 where
  pub suffix : Text
  pub dot_suffix : Text
  pub path_pattern : Option SimplePattern
  pub action : InterceptAction

pub record WildcardRule : Type 0 where
  pub pattern : Text
  pub star_pos : ℕ
  pub path_pattern : Option SimplePattern
  pub action : InterceptAction

pub record InterceptMatcher : Type 0 where
  pub exact_rules : List (Text × List ExactRule)
  pub suffix_rules : List SuffixRule
  pub wildcard_rules : List WildcardRule

-- `HashMap::get`
unfoldable pub get_rules : Text → List (Text × List ExactRule) → List ExactRule
get_rules k [] = []
get_rules k ((j, rs) ∷ m) = if Str.text_eq j k then rs else get_rules k m

-- `entry(k).or_default().push(rule)`
unfoldable pub push_rule :
    Text → ExactRule → List (Text × List ExactRule) → List (Text × List ExactRule)
push_rule k r [] = (k, r ∷ []) ∷ []
push_rule k r ((j, rs) ∷ m) =
    if Str.text_eq j k then (j, rs ++ r ∷ []) ∷ m else (j, rs) ∷ push_rule k r m

unfoldable pub compile : Option Text → Option SimplePattern
compile p = Option.map from_pattern p

abbrev pub exact_rule : InterceptRule → ExactRule
exact_rule rule = record { path_pattern = compile rule.from_pattern; action = rule.action }

abbrev pub suffix_rule : InterceptRule → SuffixRule
suffix_rule rule =
    let suffix = Str.to_lowercase (drop 2 (Str.to_lowercase rule.from)) in
    record {
      suffix = suffix;
      dot_suffix = codes "." ++ suffix;
      path_pattern = compile rule.from_pattern;
      action = rule.action;
    }

abbrev pub wildcard_rule : ℕ → InterceptRule → WildcardRule
wildcard_rule star_pos rule = record {
  pattern = Str.to_lowercase rule.from;
  star_pos = star_pos;
  path_pattern = compile rule.from_pattern;
  action = rule.action;
}

-- One round of the loop of `new`. The rules are appended to the indexes in their order.
unfoldable pub add_rule : InterceptMatcher → InterceptRule → InterceptMatcher
add_rule m rule =
    let from = Str.to_lowercase rule.from in
    if Str.starts_with from (codes "*.")
    then record m { suffix_rules = m.suffix_rules ++ suffix_rule rule ∷ [] }
    else elim (Str.find from (codes "*")) [
      | some star_pos ↦ record m {
        wildcard_rules = m.wildcard_rules ++ wildcard_rule star_pos rule ∷ [];
      }
      | none ↦ record m { exact_rules = push_rule from (exact_rule rule) m.exact_rules }
    ]

unfoldable pub add_rules : InterceptMatcher → List InterceptRule → InterceptMatcher
add_rules m [] = m
add_rules m (r ∷ rs) = add_rules (add_rule m r) rs

abbrev pub no_rules : InterceptMatcher
no_rules = record { exact_rules = []; suffix_rules = []; wildcard_rules = [] }

unfoldable pub new : List InterceptRule → InterceptMatcher
new rules = add_rules no_rules rules

unfoldable pub path_matches : Option SimplePattern → Text → Bool
path_matches none path = true
path_matches (some p) path = matches p path

unfoldable pub wildcard_matches : WildcardRule → Text → Bool
wildcard_matches rule domain =
    let prefix = take rule.star_pos rule.pattern in
    let suffix = drop (rule.star_pos + 1) rule.pattern in
    Str.starts_with domain prefix
    && Str.ends_with domain suffix
    && leb (length prefix + length suffix) (length domain)

unfoldable pub suffix_matches : SuffixRule → Text → Bool
suffix_matches rule domain = Str.text_eq domain rule.suffix || Str.ends_with domain rule.dot_suffix

unfoldable pub first_exact : Text → List ExactRule → Option InterceptAction
first_exact path [] = none
first_exact path (r ∷ rs) =
    if path_matches r.path_pattern path then some r.action else first_exact path rs

unfoldable pub first_suffix : Text → Text → List SuffixRule → Option InterceptAction
first_suffix domain path [] = none
first_suffix domain path (r ∷ rs) =
    if suffix_matches r domain && path_matches r.path_pattern path
    then some r.action
    else first_suffix domain path rs

unfoldable pub first_wildcard : Text → Text → List WildcardRule → Option InterceptAction
first_wildcard domain path [] = none
first_wildcard domain path (r ∷ rs) =
    if wildcard_matches r domain && path_matches r.path_pattern path
    then some r.action
    else first_wildcard domain path rs

-- A loop that returned, or else what follows it.
abbrev pub or_else {ℓ} : {A : Type ℓ} → Option A → Option A → Option A
or_else none r = r
or_else (some a) r = some a

-- A host of lower-case letters alone is not copied; any other is folded.
unfoldable pub domain_lower : Text → Text
domain_lower domain =
    if all (λ c. leb b'a' c && leb c b'z') domain then domain else Str.to_lowercase domain

unfoldable pub match_domain : InterceptMatcher → Text → Text → Option InterceptAction
match_domain m domain path =
    let host = domain_lower domain in
    or_else (first_exact path (get_rules host m.exact_rules))
      (or_else (first_suffix host path m.suffix_rules) (first_wildcard host path m.wildcard_rules))

-- Opening this opens the whole matcher, for evaluation.
unfoldable pub evaluate : Unit {0}
unfolding from_pattern matches compile get_rules push_rule add_rule add_rules new path_matches
    wildcard_matches suffix_matches first_exact first_suffix first_wildcard domain_lower
    match_domain Str.to_lowercase Str.find Str.contains Str.text_eq Str.starts_with Str.ends_with
evaluate = tt
