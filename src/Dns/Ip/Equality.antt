-- ===== src/Dns/Ip/Equality.antt =====
-- The equality of `std::net::IpAddr`.
use hakimi_hub.Prelude.{ℕ, ◌≡◌, refl, sym, ap, ◌∙◌, List, [], ◌∷◌}
use native.Mathlib.Decide.{ℕ_discrete}
use mathlib.Core.List.{List-discrete}
use hakimi_hub.Dns.Ip.{IpAddr}

abbrev pub parts : IpAddr → List ℕ
parts (IpAddr.v4 a b c d) = a ∷ b ∷ c ∷ d ∷ []
parts (IpAddr.v6 a b c d e f g h) = a ∷ b ∷ c ∷ d ∷ e ∷ f ∷ g ∷ h ∷ []

abbrev pub of_parts : List ℕ → IpAddr
of_parts (a ∷ b ∷ c ∷ d ∷ e ∷ f ∷ g ∷ h ∷ []) = IpAddr.v6 a b c d e f g h
of_parts (a ∷ b ∷ c ∷ d ∷ []) = IpAddr.v4 a b c d
of_parts l = IpAddr.v4 0 0 0 0

pub of_parts-parts : (ip : IpAddr) → of_parts (parts ip) ≡ ip
of_parts-parts (IpAddr.v4 a b c d) = refl
of_parts-parts (IpAddr.v6 a b c d e f g h) = refl

abbrev pub ip_discrete : Discrete IpAddr
ip_discrete x y = elim (List-discrete ℕ_discrete (parts x) (parts y)) [
  | yes e ↦ yes (sym (of_parts-parts x) ∙ ap of_parts e ∙ of_parts-parts y)
  | no n ↦ no (λ e. n (ap parts e))
]
