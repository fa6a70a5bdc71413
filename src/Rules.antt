-- ===== src/Rules.antt =====
-- src/rules/builtin.rs: the domain patterns, the three lists of patterns, the built-in lists and
-- the classification of a host.
use hakimi_hub.Prelude.{
  ltb, leb, ◌==◌, if◌then◌else◌, ltb→lt, lt→ltb, leb→le, le→leb, ==_iff, ==_refl, Bool-cases,
  Option-cases, &&-elim, &&-intro, ||-elim, is_some, present, length, get_elem?, take, drop,
  is_empty, any, all, select, All, length-append, take-append-drop, length-take, length-drop,
  take-length_append, drop-length_append, All-append, ℕ, zero, suc, ◌+◌, ◌-◌, ◌*◌, ◌/◌, ◌%◌, ◌^◌,
  ◌≤◌, ◌<◌, ◌≡◌, refl, sym, ap, ◌∙◌, ◌≢◌, ◌↔◌, ◌⊎◌, inl, inr, Bool, true, false, not, ◌&&◌, ◌||◌,
  Option, none, some, List, [], ◌∷◌, ◌++◌, map, arith,
}
use hakimi_hub.Prelude.Str.{Text, codes}
use hakimi_hub.Prelude.Str
use mathlib.Core.Option
use mathlib.Core.List
pub mod Classify

pub data MatchType : Type 0 where
  exact suffix prefix : MatchType

pub record DomainPattern : Type 0 where
  pub pattern : Text
  pub match_type : MatchType

pub data DomainAction : Type 0 where
  proxy direct block : DomainAction

pub record DomainRules : Type 0 where
  pub proxy : List DomainPattern
  pub direct : List DomainPattern
  pub block : List DomainPattern

unfoldable pub exact_pattern : Text → DomainPattern
exact_pattern domain = record { pattern = Str.to_lowercase domain; match_type = MatchType.exact }

unfoldable pub suffix_pattern : Text → DomainPattern
suffix_pattern domain = record { pattern = Str.to_lowercase domain; match_type = MatchType.suffix }

unfoldable pub prefix_pattern : Text → DomainPattern
prefix_pattern pattern = record {
  pattern = Str.to_lowercase pattern;
  match_type = MatchType.prefix;
}

abbrev pub matches_type : MatchType → Text → Text → Bool
matches_type MatchType.exact pattern domain = Str.text_eq domain pattern
matches_type MatchType.suffix pattern domain =
    Str.text_eq domain pattern || Str.ends_with domain (codes "." ++ pattern)
matches_type MatchType.prefix pattern domain = Str.starts_with domain pattern

unfoldable pub matches : DomainPattern → Text → Bool
matches p domain = matches_type p.match_type p.pattern domain

-- A loop over one list that returns at the first match.
unfoldable pub matches_any : List DomainPattern → Text → Bool
matches_any [] domain = false
matches_any (p ∷ ps) domain =
    let rest = matches_any ps domain in if matches p domain then true else rest

unfoldable pub classify : DomainRules → Text → DomainAction
classify rules domain =
    let domain_lower = Str.to_lowercase domain in
    if matches_any rules.block domain_lower
    then DomainAction.block
    else if matches_any rules.proxy domain_lower
    then DomainAction.proxy
    else if matches_any rules.direct domain_lower
    then DomainAction.direct
    else DomainAction.direct

unfoldable pub add_proxy : DomainRules → DomainPattern → DomainRules
add_proxy rules p = record rules { proxy = rules.proxy ++ p ∷ [] }

unfoldable pub add_direct : DomainRules → DomainPattern → DomainRules
add_direct rules p = record rules { direct = rules.direct ++ p ∷ [] }

unfoldable pub github_defaults : DomainRules
unfolding exact_pattern suffix_pattern
github_defaults = record {
  proxy =
      suffix_pattern (codes "github.com")
      ∷ suffix_pattern (codes "github.io")
      ∷ exact_pattern (codes "api.github.com")
      ∷ suffix_pattern (codes "githubusercontent.com")
      ∷ suffix_pattern (codes "githubassets.com")
      ∷ suffix_pattern (codes "github.dev")
      ∷ exact_pattern (codes "codespaces.githubusercontent.com")
      ∷ suffix_pattern (codes "objects.githubusercontent.com")
      ∷ exact_pattern (codes "media.githubusercontent.com")
      ∷ exact_pattern (codes "camo.githubusercontent.com")
      ∷ exact_pattern (codes "avatars.githubusercontent.com")
      ∷ exact_pattern (codes "cloud.githubusercontent.com")
      ∷ exact_pattern (codes "raw.githubusercontent.com")
      ∷ exact_pattern (codes "uploads.github.com")
      ∷ exact_pattern (codes "status.github.com")
      ∷ exact_pattern (codes "education.github.com")
      ∷ exact_pattern (codes "desktop.githubusercontent.com")
      ∷ suffix_pattern (codes "steampowered.com")
      ∷ suffix_pattern (codes "steamstatic.com")
      ∷ exact_pattern (codes "steamserver.net")
      ∷ [];
  direct = [];
  block = [];
}
