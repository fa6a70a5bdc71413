-- ===== src/Intercepts/Defaults.antt =====
-- The built-in interception rules of src/core/config.rs in the matcher of
-- src/intercepts/matcher.rs.
use hakimi_hub.Prelude.{◌≡◌, refl, ◌∙◌, true, some, List, [], ◌∷◌, ◌++◌}
use hakimi_hub.Prelude.Str.{Text, codes}
use hakimi_hub.Prelude.Str
use hakimi_hub.Config.Intercept.{InterceptAction}
use hakimi_hub.Config.Defaults.{common_defaults}
use hakimi_hub.Intercepts.Pattern.{SegChunk, wild, lit, from_pattern, matches}
use hakimi_hub.Intercepts.Pattern.Regex.{RegexMatches, IsSegment, matches_segment_prefix_complete}
use hakimi_hub.Intercepts.Matcher.{match_domain, new, path_matches, compile}
use hakimi_hub.Intercepts.Matcher.Order.{first_rule, match_domain-first_rule}

abbrev release_chunks : List SegChunk
release_chunks =
    lit (codes "/") ∷ wild ∷ lit (codes "/") ∷ wild ∷ lit (codes "/releases/download/") ∷ []

-- The path of a file in a release of a repository.
abbrev pub release_path : Text → Text → Text → Text
release_path owner repository file =
    codes "/" ++ (owner ++ (codes "/" ++ (repository ++ (codes "/releases/download/" ++ file))))

-- A download from the releases of any repository goes to the mirror.
pub match_domain-release_download :
    (owner repository file : Text)
    → IsSegment owner
    → IsSegment repository
    → match_domain
        (new common_defaults.rules)
        (codes "github.com")
        (release_path owner repository file)
      ≡ some (InterceptAction.proxy (codes "v4.gh-proxy.org"))
match_domain-release_download owner repository file ho hr =
    let path = release_path owner repository file in
    let h : matches (from_pattern (codes "^/[^/]+/[^/]+/releases/download/.*")) path ≡ true =
      unfold matches from_pattern in
      matches_segment_prefix_complete {cs = release_chunks}
        (RegexMatches.take_literal _ refl (
          RegexMatches.take_segment owner _ ho refl (
            RegexMatches.take_literal _ refl (
              RegexMatches.take_segment repository _ hr refl
                (RegexMatches.take_literal file refl RegexMatches.done)))))
        (refl, (refl, tt)) in
    match_domain-first_rule common_defaults.rules (codes "github.com") path
    ∙ (unfold first_rule path_matches compile Str.to_lowercase Str.to_lower Str.starts_with
          Str.text_eq Str.find Str.contains in
        rw h refl)
