-- ===== src/Dns/Ip/Filter.antt =====
-- What `filter_ips` returns.
use hakimi_hub.Prelude.{
  Bool-cases, if◌then◌else◌, is_empty, any, select, All, ℕ, ◌+◌, ◌<◌, ◌≡◌, refl, ap, ◌∙◌, ◌≢◌, ◌⊎◌,
  inl, inr, Bool, true, false, not, ◌&&◌, List, [], ◌∷◌, arith,
}
use hakimi_hub.Dns.Ip.{
  IpAddr, v4, IpFilterLevel, nothing, strict, public_only, keeps, fall_back, filter_ips,
  is_suspicious, is_invalid_ip,
}

-- The level lets the address through: at `nothing` every one.
abbrev pub admits : IpFilterLevel → IpAddr → Bool
admits nothing ip = true
admits strict ip = not (is_invalid_ip ip)
admits public_only ip = not (is_suspicious ip)

module _ (p : IpAddr → Bool) where
  select-All : (ips : List IpAddr) → All (λ ip. p ip ≡ true) (select p ips)
  select-All [] = tt
  select-All (ip ∷ ips) = ground (arith, select-All ips)

  select-none : (ips : List IpAddr) → select p ips ≡ [] → All (λ ip. p ip ≡ false) ips
  select-none [] h = tt
  select-none (ip ∷ ips) h = ground (arith, select-none ips)

  select-eq_of_All : (ips : List IpAddr) → All (λ ip. p ip ≡ true) ips → select p ips ≡ ips
  select-eq_of_All [] h = refl
  select-eq_of_All (ip ∷ ips) h = ground (arith, select-eq_of_All ips)

keeps-admits :
    (level : IpFilterLevel) (ip : IpAddr) → level ≢ nothing → keeps level ip ≡ admits level ip
unfolding keeps is_suspicious
keeps-admits nothing ip h = absurd (h refl)
keeps-admits strict ip h = ground arith
keeps-admits public_only ip h = ground arith

-- The level lets every address of the list through, or none of them.
abbrev pub AllAdmitted : IpFilterLevel → List IpAddr → Type 0
AllAdmitted level = All (λ ip. admits level ip ≡ true)

abbrev pub NoneAdmitted : IpFilterLevel → List IpAddr → Type 0
NoneAdmitted level = All (λ ip. admits level ip ≡ false)

-- The list of the addresses that a level lets through, unless there is none.
filter_ips-eq :
    (ips : List IpAddr) (level : IpFilterLevel)
    → filter_ips ips level ≡ fall_back ips (select (admits level) ips)
unfolding filter_ips
filter_ips-eq ips nothing = rw (select-eq_of_All (λ ip. true) ips (all_true ips)) (ground arith)
  where
    all_true : (ips : List IpAddr) → All (λ ip. true ≡ true) ips
    all_true [] = tt
    all_true (ip ∷ ips) = (refl, all_true ips)
filter_ips-eq ips strict = ap (fall_back ips) (select-keeps ips)
  where
    select-keeps : (ips : List IpAddr) → select (keeps strict) ips ≡ select (admits strict) ips
    select-keeps [] = refl
    select-keeps (ip ∷ ips) = ground (arith, select-keeps ips, keeps-admits strict ip (λ e. cc e))
filter_ips-eq ips public_only = ap (fall_back ips) (select-keeps ips)
  where
    select-keeps :
        (ips : List IpAddr) → select (keeps public_only) ips ≡ select (admits public_only) ips
    select-keeps [] = refl
    select-keeps (ip ∷ ips) =
        ground (arith, select-keeps ips, keeps-admits public_only ip (λ e. cc e))

select-empty : (p : IpAddr → Bool) (ips : List IpAddr) → is_empty (select p ips) ≡ not (any p ips)
select-empty p [] = refl
select-empty p (ip ∷ ips) = ground (arith, select-empty p ips)

fall_back-any :
    (p : IpAddr → Bool) (ips : List IpAddr)
    → fall_back ips (select p ips) ≡ (if any p ips then select p ips else ips)
fall_back-any p [] = refl
fall_back-any p (ip ∷ ips) = elim (Bool-cases (any p (ip ∷ ips))) [
  | inl e ↦ rw (select-empty p (ip ∷ ips), e) refl
  | inr e ↦ rw (select-empty p (ip ∷ ips), e) refl
]

-- A list that is not empty stays so: an answer is never filtered away as a whole.
pub filter_ips-ne-nil :
    (ips : List IpAddr) (level : IpFilterLevel) → ips ≢ [] → filter_ips ips level ≢ []
filter_ips-ne-nil ips level h = rw (filter_ips-eq ips level) (ground arith)

-- Either the result is what the level admits, or the level admits nothing.
pub filter_ips-AllAdmitted :
    (ips : List IpAddr) (level : IpFilterLevel)
    → ((filter_ips ips level ≡ select (admits level) ips)
        × AllAdmitted level (filter_ips ips level))
      ⊎ ((filter_ips ips level ≡ ips) × NoneAdmitted level ips)
filter_ips-AllAdmitted ips level =
    elim (Bool-cases (is_empty (select (admits level) ips) && not (is_empty ips))) [
      | inl e ↦ inr (rw (filter_ips-eq ips level, e), select-none (admits level) ips (ground arith))
      | inr e ↦ inl (
        rw (filter_ips-eq ips level, e),
        rw (filter_ips-eq ips level, e) (select-All (admits level) ips),
      )
    ]

-- Where the level admits some address of the list, the result is the sublist of those that it
-- admits, in their order; where it admits none, the result is the list as it came.
pub filter_ips-any :
    (ips : List IpAddr) (level : IpFilterLevel)
    → filter_ips ips level ≡ (if any (admits level) ips then select (admits level) ips else ips)
filter_ips-any ips level = filter_ips-eq ips level ∙ fall_back-any (admits level) ips

-- Filtering twice is filtering once.
pub filter_ips_idem :
    (ips : List IpAddr) (level : IpFilterLevel)
    → filter_ips (filter_ips ips level) level ≡ filter_ips ips level
filter_ips_idem ips level = elim (filter_ips-AllAdmitted ips level) [
  | inl a ↦
      filter_ips-eq (filter_ips ips level) level
      ∙ rw (select-eq_of_All (admits level) (filter_ips ips level) a.1) (ground arith)
  | inr b ↦ ap (λ l. filter_ips l level) b.0
]

-- Of 240.0.0.0/4 the filter leaves in not only the broadcast address: every address of
-- 255.0.0.0/8 but that one counts as valid and as public.
pub filter_ips-class_e :
    (b c d : ℕ)
    → (b + c + d) ≢ 765
    → b < 256
    → c < 256
    → d < 256
    → filter_ips (v4 255 b c d ∷ []) public_only ≡ v4 255 b c d ∷ []
unfolding filter_ips
filter_ips-class_e b c d h hb hc hd = ground arith
