-- ===== src/Dns/Working/Bounds.antt =====
-- src/dns/working_ip_store.rs: ten addresses at most, each once, the last one first.
use hakimi_hub.Prelude.{
  leb, Bool-cases, length, take, length-take, ℕ, zero, suc, ◌+◌, ◌-◌, ◌≤◌, ◌≡◌, refl, sym, ap, ◌∙◌,
  inl, inr, Option, none, some, List, [], ◌∷◌, arith,
}
use hakimi_hub.Prelude.Str.{Text}
use mathlib.Core.Logic.{ite}
use mathlib.Core.Path.{subst}
use hakimi_hub.Utils.Containers.{MapOps, count}
use hakimi_hub.Utils.Containers.Sync.{count_cons}
use hakimi_hub.Dns.Ip.{IpAddr}
use hakimi_hub.Dns.Ip.Equality.{ip_discrete}
use hakimi_hub.Dns.Working.{
  remove_first, promote, WorkingIpStore, new, get, record_success, persist, max_ips_per_domain,
  or_empty,
}

-- No address stands twice, and there are ten at most.
pub record Bounded (ips : List IpAddr) : Type 0 where
  pub single : (ip : IpAddr) → count ip_discrete ip ips ≤ 1
  pub short : length ips ≤ max_ips_per_domain

count-remove_first :
    (ip x : IpAddr) (ips : List IpAddr)
    → count ip_discrete x (remove_first ip ips)
      ≡ count ip_discrete x ips - ite (ip_discrete ip x) 1 0
unfolding remove_first count
count-remove_first ip x [] = ground arith
count-remove_first ip x (y ∷ ips) = ground (arith, count-remove_first ip x ips)

count-take :
    (n : ℕ) (x : IpAddr) (ips : List IpAddr)
    → count ip_discrete x (take n ips) ≤ count ip_discrete x ips
unfolding count
count-take zero x ips = omega arith
count-take (suc n) x [] = omega arith
count-take (suc n) x (y ∷ ips) = ground (arith, count-take n x ips)

promote-Bounded : (ip : IpAddr) (ips : List IpAddr) → Bounded ips → Bounded (promote ip ips)
unfolding promote
promote-Bounded ip ips h = record {
  single = λ x.
      once (ip_discrete ip x) (h.single x) (count-remove_first ip x ips)
        (count_cons ip_discrete x ip (remove_first ip ips))
        (count-take 10 x (ip ∷ remove_first ip ips));
  short = omega (arith, length-take 10 (ip ∷ remove_first ip ips));
}
  where
    once :
        {P : Type 0} (e : Dec P) {a b c d : ℕ}
        → a ≤ 1
        → b ≡ a - ite e 1 0
        → c ≡ ite e 1 0 + b
        → d ≤ c
        → d ≤ 1
    once (yes p) h f g k = omega (arith, h, f, g, k)
    once (no n) h f g k = omega (arith, h, f, g, k)

module _ (dec : Discrete Text) (M : MapOps dec (List IpAddr)) where
  abbrev Store : Type 0
  Store = WorkingIpStore dec M

  -- Each list of the store is bounded.
  abbrev pub Sound : Store → Type 0
  Sound s = (domain : Text) → Bounded (get dec M s domain)

  inserted :
      (s : Store) (domain d : Text) (ips : List IpAddr)
      → or_empty dec M (M.get (M.insert s.entries domain ips) d)
        ≡ ite (dec domain d) ips (or_empty dec M (M.get s.entries d))
  inserted s domain d ips =
      ap (or_empty dec M) (M.get-insert s.entries domain ips d)
      ∙ pushed (M.get s.entries d) (dec domain d)
    where
      pushed :
          {P : Type 0} (o : Option (List IpAddr)) (e : Dec P)
          → or_empty dec M (ite e (some ips) o) ≡ ite e ips (or_empty dec M o)
      pushed o (yes p) = refl
      pushed o (no n) = refl

  get-record :
      (s : Store) (domain : Text) (ip : IpAddr) (now later : ℕ) (d : Text)
      → get dec M (record_success dec M s domain ip now later).1 d
        ≡ ite (dec domain d) (promote ip (get dec M s domain)) (get dec M s d)
  unfolding get record_success persist
  get-record s domain ip now later d = elim (Bool-cases (leb 5000000000 (now - s.last_persist))) [
    | inl e ↦ rw e (inserted s domain d (promote ip (get dec M s domain)))
    | inr e ↦ rw e (inserted s domain d (promote ip (get dec M s domain)))
  ]

  pub record_success-Sound :
      (s : Store) (domain : Text) (ip : IpAddr) (now later : ℕ)
      → Sound s
      → Sound (record_success dec M s domain ip now later).1
  record_success-Sound s domain ip now later h d =
      subst Bounded (sym (get-record s domain ip now later d))
        (either (dec domain d) (promote-Bounded ip _ (h domain)) (h d))
    where
      either :
          {P : Type 0} {xs ys : List IpAddr} (e : Dec P)
          → Bounded xs
          → Bounded ys
          → Bounded (ite e xs ys)
      either (yes p) h g = h
      either (no n) h g = g

  -- A success that is recorded: its domain, its address, and the two instants that are read.
  abbrev pub Success : Type 0
  Success = Text × IpAddr × ℕ × ℕ

  unfoldable pub record_all : Store → List Success → Store
  record_all s [] = s
  record_all s ((domain, ip, now, later) ∷ xs) =
      record_all (record_success dec M s domain ip now later).1 xs

  Sound-record_all : (xs : List Success) (s : Store) → Sound s → Sound (record_all s xs)
  unfolding record_all
  Sound-record_all [] s h = h
  Sound-record_all ((domain, ip, now, later) ∷ xs) s h =
      Sound-record_all xs (record_success dec M s domain ip now later).1
        (record_success-Sound s domain ip now later h)

  Sound-new : (now : ℕ) → Sound (new dec M none now)
  unfolding new get count
  Sound-new now d =
      subst Bounded (sym (ap (or_empty dec M) (M.get-empty d)))
        (record { single = λ ip. omega arith; short = omega arith })

  -- However many successes are recorded in a store that starts without a file, each domain has ten
  -- addresses at most and none twice.
  pub record_all-Bounded :
      (now : ℕ) (xs : List Success) (domain : Text)
      → Bounded (get dec M (record_all (new dec M none now) xs) domain)
  record_all-Bounded now xs domain = Sound-record_all xs (new dec M none now) (Sound-new now) domain

  -- The address of the last success stands in front of the list of its domain, the others keep
  -- their order behind it, and no other domain's list changes.
  pub record_success-first :
      (s : Store) (domain : Text) (ip : IpAddr) (now later : ℕ) (other : Text)
      → get dec M (record_success dec M s domain ip now later).1 other
        ≡ ite
            (dec domain other)
            (ip ∷ take 9 (remove_first ip (get dec M s domain)))
            (get dec M s other)
  record_success-first s domain ip now later other =
      get-record s domain ip now later other
      ∙ ap (λ l. ite (dec domain other) l (get dec M s other)) (promoted ip (get dec M s domain))
    where
      promoted :
          (ip : IpAddr) (ips : List IpAddr) → promote ip ips ≡ ip ∷ take 9 (remove_first ip ips)
      promoted ip ips = unfold promote in refl
