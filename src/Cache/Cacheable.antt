-- ===== src/Cache/Cacheable.antt =====
-- src/cache/resource_cache.rs: which responses are kept.
-- The host in the URL is looked for as a substring of the whole URL, as in the source.
use hakimi_hub.Prelude.{
  if◌then◌else◌, take, any, ℕ, Bool, true, false, not, ◌&&◌, Option, none, some, List, [], ◌∷◌,
}
use hakimi_hub.Prelude.Str.{Text, codes}
use hakimi_hub.Prelude.Str

abbrev github_domains : List Text
github_domains =
    codes "githubusercontent.com"
    ∷ codes "githubassets.com"
    ∷ codes "avatars.githubusercontent.com"
    ∷ codes "objects.githubusercontent.com"
    ∷ codes "release-assets.githubusercontent.com"
    ∷ codes "github.com"
    ∷ []

-- The loop of `is_github_domain`, which returns at the first hit.
unfoldable pub contains_any : Text → List Text → Bool
unfolding Str.contains
contains_any url [] = false
contains_any url (domain ∷ domains) =
    let rest = contains_any url domains in if Str.contains url domain then true else rest

unfoldable pub is_github_domain : Text → Bool
unfolding contains_any Str.to_lowercase
is_github_domain url = contains_any (Str.to_lowercase url) github_domains

unfoldable pub is_image_content_type : Text → Bool
unfolding Str.to_lowercase Str.starts_with
is_image_content_type content_type =
    Str.starts_with (Str.to_lowercase content_type) (codes "image/")

abbrev image_extensions : List Text
image_extensions =
    codes ".png"
    ∷ codes ".jpg"
    ∷ codes ".jpeg"
    ∷ codes ".gif"
    ∷ codes ".webp"
    ∷ codes ".svg"
    ∷ codes ".ico"
    ∷ codes ".bmp"
    ∷ codes ".avif"
    ∷ []

-- What stands before the query, or before the fragment where there is no query.
unfoldable pub without_query : Text → Text
unfolding Str.find
without_query url = elim (Str.find url (codes "?")) [
  | some pos ↦ take pos url
  | none ↦ elim (Str.find url (codes "#")) [ some pos ↦ take pos url | none ↦ url ]
]

unfoldable pub has_image_extension : Text → Bool
unfolding without_query Str.to_lowercase Str.ends_with
has_image_extension url =
    let path = without_query (Str.to_lowercase url) in
    any (λ ext. Str.ends_with path ext) image_extensions

unfoldable pub is_cacheable : Text → Text → Option ℕ → Bool
unfolding is_github_domain is_image_content_type has_image_extension
is_cacheable url content_type content_length =
    if not (is_github_domain url)
    then false
    else (if is_image_content_type content_type then true else has_image_extension url)

unfoldable pub is_cacheable_url : Text → Bool
unfolding is_github_domain has_image_extension
is_cacheable_url url = is_github_domain url && has_image_extension url
