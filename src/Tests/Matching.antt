-- ===== src/Tests/Matching.antt =====
-- Runs of the rules, the matcher and the configuration.
use hakimi_hub.Prelude.{some}
use hakimi_hub.Prelude.{◌≡◌, refl, ◌↔◌, true, none, List, [], ◌∷◌}
use hakimi_hub.Prelude.Str.{Text, codes}
use hakimi_hub.Prelude.Str
use hakimi_hub.Config.Sections.{AppConfig}
use hakimi_hub.Config.Defaults.{default_app_config, common_defaults}
use hakimi_hub.Config.Load.Start.{start_config, command_config, start_config-Valid}
use hakimi_hub.Config.Load.{Result, Valid}
use hakimi_hub.Config.Intercept.{InterceptAction}
use hakimi_hub.Rules.{DomainAction, classify, github_defaults}
use hakimi_hub.Rules.Classify.{CoveredBy, classify_iff}
use hakimi_hub.Intercepts.Pattern.{SegChunk, wild, lit, matches_segment_prefix}
use hakimi_hub.Intercepts.Pattern.Regex.{
  RegexMatches, matches_segment_prefix_sound, matches_segment_prefix_complete,
}
use hakimi_hub.Intercepts.Matcher.{match_domain, new, or_else, SuffixRule, WildcardRule}
use hakimi_hub.Intercepts.Matcher.Order.{first_rule, Kind, match_domain-first_rule}

abbrev host : Text
host = codes "API.github.com"

classify_iff_example :
    (classify github_defaults host ≡ DomainAction.block)
    ↔ CoveredBy github_defaults.block (Str.to_lowercase host)
classify_iff_example = (classify_iff github_defaults host).0

match_domain-first_rule_example :
    match_domain (new common_defaults.rules) (codes "camo.githubusercontent.com") (codes "/a")
    ≡ or_else
        (first_rule Kind.exact
          (Str.to_lowercase (codes "camo.githubusercontent.com"))
          (codes "/a")
          common_defaults.rules)
        (or_else
          (first_rule Kind.suffix
            (Str.to_lowercase (codes "camo.githubusercontent.com"))
            (codes "/a")
            common_defaults.rules)
          (first_rule Kind.wildcard
            (Str.to_lowercase (codes "camo.githubusercontent.com"))
            (codes "/a")
            common_defaults.rules))
match_domain-first_rule_example =
    match_domain-first_rule common_defaults.rules (codes "camo.githubusercontent.com") (codes "/a")

abbrev chunks : List SegChunk
chunks = lit (codes "/") ∷ wild ∷ lit (codes "/x") ∷ []

abbrev path : Text
path = codes "/ab/xyz"

accepted : matches_segment_prefix chunks path ≡ true
unfolding matches_segment_prefix
accepted = refl

matches_segment_prefix_sound_example : RegexMatches chunks path
matches_segment_prefix_sound_example = matches_segment_prefix_sound chunks path accepted

path-RegexMatches : RegexMatches chunks path
path-RegexMatches = RegexMatches.take_literal (codes "ab/xyz") refl (
    RegexMatches.take_segment (codes "ab") (codes "/xyz") ((λ e. cc e), (refl, (refl, tt))) refl
      (RegexMatches.take_literal (codes "yz") refl RegexMatches.done))

matches_segment_prefix_complete_example : matches_segment_prefix chunks path ≡ true
matches_segment_prefix_complete_example =
    matches_segment_prefix_complete {cs = chunks} {path = path} path-RegexMatches (refl, tt)

abbrev suffix : SuffixRule
suffix = record {
  suffix = codes "githubassets.com";
  dot_suffix = codes ".githubassets.com";
  path_pattern = none;
  action = InterceptAction.abort true;
}

abbrev wildcard : WildcardRule
wildcard = record {
  pattern = codes "img*.example.org";
  star_pos = 3;
  path_pattern = none;
  action = InterceptAction.abort true;
}

abbrev read : Text → Result Text
read p = Result.ok p

abbrev from_str : Text → Result AppConfig
from_str s = Result.ok default_app_config

loaded :
    command_config read from_str (λ p. true) (codes "config.toml") none
    ≡ Result.ok default_app_config
unfolding command_config
loaded = refl

start_config-Valid_example : Valid (start_config (some 8081) true default_app_config)
start_config-Valid_example =
    start_config-Valid read from_str (λ p. true) (codes "config.toml") none default_app_config
      (some 8081) true loaded (λ e. absurd (cc e))
