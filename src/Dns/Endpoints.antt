-- ===== src/Dns/Endpoints.antt =====
-- src/dns/doh_client.rs: which DoH servers are asked for a domain, and in which order. The
-- `HashMap` of the mapping is the list of its entries in the order of an iteration.
use hakimi_hub.Prelude.{
  ltb, leb, ◌==◌, if◌then◌else◌, ltb→lt, lt→ltb, leb→le, le→leb, ==_iff, ==_refl, Bool-cases,
  Option-cases, &&-elim, &&-intro, ||-elim, is_some, present, length, get_elem?, take, drop,
  is_empty, any, all, select, All, length-append, take-append-drop, length-take, length-drop,
  take-length_append, drop-length_append, All-append, ℕ, zero, suc, ◌+◌, ◌-◌, ◌*◌, ◌/◌, ◌%◌, ◌^◌,
  ◌≤◌, ◌<◌, ◌≡◌, refl, sym, ap, ◌∙◌, ◌≢◌, ◌↔◌, ◌⊎◌, inl, inr, Bool, true, false, not, ◌&&◌, ◌||◌,
  Option, none, some, List, [], ◌∷◌, ◌++◌, map, arith,
}
use hakimi_hub.Prelude.Str.{Text, codes}
use hakimi_hub.Prelude.Str
use mathlib.Core.Option
use mathlib.Core.List
use hakimi_hub.Config.Sections.{DohEndpoint}
pub mod Groups

-- `HashMap::get`
unfoldable pub get_provider : Text → List (Text × Text) → Option Text
get_provider domain [] = none
get_provider domain ((pattern, provider) ∷ m) =
    let rest = get_provider domain m in if Str.text_eq pattern domain then some provider else rest

-- The loop over the patterns with a star: all of the pattern but the star is a suffix.
unfoldable pub wildcard_provider : Text → List (Text × Text) → Option Text
wildcard_provider domain [] = none
wildcard_provider domain ((pattern, provider) ∷ m) =
    let rest = wildcard_provider domain m in
    if Str.starts_with pattern (codes "*.") && Str.ends_with domain (drop 1 pattern)
    then some provider
    else rest

unfoldable pub match_dns_mapping : List (Text × Text) → Text → Option Text
unfolding get_provider wildcard_provider
match_dns_mapping dns_mapping domain =
    let domain_lower = Str.to_lowercase domain in
    elim (get_provider domain_lower dns_mapping) [
      | some provider ↦ some provider
      | none ↦ wildcard_provider domain_lower dns_mapping
    ]

-- `sort_by_key(|e| e.priority)`, which is stable: an endpoint goes before the first one of the
-- same or a higher number that came after it.
unfoldable pub insert_by_priority : DohEndpoint → List DohEndpoint → List DohEndpoint
insert_by_priority e [] = e ∷ []
insert_by_priority e (f ∷ es) =
    let rest = insert_by_priority e es in if leb e.priority f.priority then e ∷ f ∷ es else f ∷ rest

unfoldable pub sort_by_priority : List DohEndpoint → List DohEndpoint
unfolding insert_by_priority
sort_by_priority [] = []
sort_by_priority (e ∷ es) = insert_by_priority e (sort_by_priority es)

-- `if !group.is_empty() { groups.push(group) }`
abbrev pub push_group : List DohEndpoint → List (List DohEndpoint) → List (List DohEndpoint)
push_group [] groups = groups
push_group (e ∷ es) groups = (e ∷ es) ∷ groups

-- The groups by default: the first three domestic servers, the other domestic ones, and the
-- international ones.
unfoldable pub default_groups : List DohEndpoint → List (List DohEndpoint)
unfolding sort_by_priority
default_groups endpoints =
    let domestic = sort_by_priority (select (λ e. not e.trusted) endpoints) in
    let international = sort_by_priority (select (λ e. e.trusted) endpoints) in
    push_group (take 3 domestic) (push_group (drop 3 domestic) (push_group international []))

unfoldable pub select_endpoints :
    List DohEndpoint → List (Text × Text) → Text → List (List DohEndpoint)
unfolding match_dns_mapping default_groups Str.text_eq
select_endpoints endpoints dns_mapping domain = elim (match_dns_mapping dns_mapping domain) [
  | none ↦ default_groups endpoints
  | some name ↦
      let matched = select (λ e. Str.text_eq e.name name) endpoints in
      if is_empty matched then default_groups endpoints else matched ∷ []
]

unfoldable pub extract_host : Text → Option Text
unfolding Str.strip_prefix Str.before
extract_host url = elim (Str.strip_prefix url (codes "https://")) [
  | some rest ↦ some (Str.before b':' (Str.before b'/' rest))
  | none ↦ elim (Str.strip_prefix url (codes "http://")) [
    | some rest ↦ some (Str.before b':' (Str.before b'/' rest))
    | none ↦ none
  ]
]
