-- ===== src/Dns/Endpoints/Groups.antt =====
-- The groups of servers: none is empty, and none of the endpoints is lost.
use hakimi_hub.Prelude.{
  if◌then◌else◌, Bool-cases, Option-cases, length, take, drop, is_empty, select, All, length-append,
  take-append-drop, ℕ, suc, ◌+◌, ◌≡◌, sym, ap, ◌∙◌, ◌≢◌, ◌⊎◌, inl, inr, not, none, some, List, [],
  ◌∷◌, arith,
}
use hakimi_hub.Prelude.Str.{Text, codes}
use hakimi_hub.Prelude.Str
use mathlib.Core.Path.{subst}
use hakimi_hub.Config.Sections.{DohEndpoint}
use hakimi_hub.Dns.Endpoints.{
  insert_by_priority, sort_by_priority, push_group, default_groups, select_endpoints,
  match_dns_mapping,
}

-- How many endpoints the groups have together.
abbrev pub total : List (List DohEndpoint) → ℕ
total [] = 0
total (g ∷ gs) = length g + total gs

length-insert_by_priority :
    (e : DohEndpoint) (es : List DohEndpoint) → length (insert_by_priority e es) ≡ suc (length es)
unfolding insert_by_priority
length-insert_by_priority e [] = omega arith
length-insert_by_priority e (f ∷ es) = ground (arith, length-insert_by_priority e es)

length-sort_by_priority : (es : List DohEndpoint) → length (sort_by_priority es) ≡ length es
unfolding sort_by_priority
length-sort_by_priority [] = omega arith
length-sort_by_priority (e ∷ es) =
    omega (arith, length-insert_by_priority e (sort_by_priority es), length-sort_by_priority es)

length-select_both :
    (es : List DohEndpoint)
    → length (select (λ e. not e.trusted) es) + length (select (λ e. e.trusted) es) ≡ length es
length-select_both [] = omega arith
length-select_both (e ∷ es) = ground (arith, length-select_both es)

total-push_group :
    (g : List DohEndpoint) (gs : List (List DohEndpoint))
    → total (push_group g gs) ≡ length g + total gs
total-push_group [] gs = omega arith
total-push_group (e ∷ es) gs = omega arith

push_group-ne-nil :
    (g : List DohEndpoint) (gs : List (List DohEndpoint))
    → All (λ g. g ≢ []) gs
    → All (λ g. g ≢ []) (push_group g gs)
push_group-ne-nil [] gs h = h
push_group-ne-nil (e ∷ es) gs h = ((λ z. cc z), h)

default_groups-total :
    (endpoints : List DohEndpoint)
    → (total (default_groups endpoints) ≡ length endpoints)
      × All (λ g. g ≢ []) (default_groups endpoints)
unfolding default_groups
default_groups-total endpoints =
    let d = sort_by_priority (select (λ e. not e.trusted) endpoints) in
    let i = sort_by_priority (select (λ e. e.trusted) endpoints) in
    let gs = push_group i [] in
    let hs = push_group (drop 3 d) gs in
    (
      omega (
        arith,
        total-push_group (take 3 d) hs,
        total-push_group (drop 3 d) gs,
        total-push_group i [],
        length-append (take 3 d) (drop 3 d),
        ap (length {A = DohEndpoint}) (take-append-drop 3 d),
        length-sort_by_priority (select (λ e. not e.trusted) endpoints),
        length-sort_by_priority (select (λ e. e.trusted) endpoints),
        length-select_both endpoints,
      ),
      push_group-ne-nil (take 3 d) hs (push_group-ne-nil (drop 3 d) gs (push_group-ne-nil i [] tt)),
    )

-- The endpoints of one name.
abbrev pub named : Text → List DohEndpoint → List DohEndpoint
named name endpoints = select (λ e. Str.text_eq e.name name) endpoints

select_endpoints-none :
    (endpoints : List DohEndpoint) (m : List (Text × Text)) (domain : Text)
    → match_dns_mapping m domain ≡ none
    → select_endpoints endpoints m domain ≡ default_groups endpoints
unfolding select_endpoints
select_endpoints-none endpoints m domain e = ground (arith, e)

select_endpoints-some :
    (endpoints : List DohEndpoint) (m : List (Text × Text)) (domain name : Text)
    → match_dns_mapping m domain ≡ some name
    → select_endpoints endpoints m domain ≡ (
        if is_empty (named name endpoints)
        then default_groups endpoints
        else named name endpoints ∷ [])
unfolding select_endpoints
select_endpoints-some endpoints m domain name e = ground (arith, e)

-- No group of servers is empty. Either the groups have all of the endpoints between them, or the
-- mapping names a provider for the domain, and its endpoints are the only group.
pub select_endpoints-total :
    (endpoints : List DohEndpoint) (dns_mapping : List (Text × Text)) (domain : Text)
    → All (λ g. g ≢ []) (select_endpoints endpoints dns_mapping domain)
      × ((total (select_endpoints endpoints dns_mapping domain) ≡ length endpoints)
          ⊎ ((name : Text) × (match_dns_mapping dns_mapping domain ≡ some name)
              × (select_endpoints endpoints dns_mapping domain ≡ named name endpoints ∷ [])))
select_endpoints-total endpoints m domain =
    let d = default_groups-total endpoints in
    elim (Option-cases (match_dns_mapping m domain)) [
      | inl e ↦
          let q = select_endpoints-none endpoints m domain e in
          (subst (λ gs. All (λ g. g ≢ []) gs) (sym q) d.1, inl (ap total q ∙ d.0))
      | inr (name, e) ↦
          let q = select_endpoints-some endpoints m domain name e in
          elim (Bool-cases (is_empty (named name endpoints))) [
            | inl b ↦
                let r : select_endpoints endpoints m domain ≡ default_groups endpoints =
                  ground (arith, q, b) in
                (subst (λ gs. All (λ g. g ≢ []) gs) (sym r) d.1, inl (ap total r ∙ d.0))
            | inr b ↦
                let r : select_endpoints endpoints m domain ≡ named name endpoints ∷ [] =
                  ground (arith, q, b) in
                (
                  subst (λ gs. All (λ g. g ≢ []) gs) (sym r)
                      ((λ z. absurd (ground (arith, z, b))), tt),
                  inr (name, e, r),
                )
          ]
    ]
