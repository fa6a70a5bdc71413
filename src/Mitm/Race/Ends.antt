-- ===== src/Mitm/Race/Ends.antt =====
-- src/mitm/sni_spoof.rs: the race ends, and gives up only when every candidate has failed.
use hakimi_hub.Prelude.{
  ltb, if◌then◌else◌, Bool-cases, Option-cases, &&-elim, length, get_elem?, take, drop, is_empty,
  length-append, length-take, length-drop, ℕ, zero, suc, ◌+◌, ◌*◌, ◌≤◌, ◌<◌, ◌≡◌, refl, sym, ap,
  ◌∙◌, ◌≢◌, inl, inr, Bool, true, false, not, ◌&&◌, Option, none, some, List, [], ◌∷◌, arith,
}
use mathlib.Core.Path.{subst}
use hakimi_hub.Dns.Ip.{IpAddr}
use hakimi_hub.Mitm.Race.{
  Race, Event, Turn, without_at, start, after_failure, start_next, turn, Reach, here, next,
}

pub in_range : {A : Type 0} (l : List A) (i : ℕ) (x : A) → get_elem? l i ≡ some x → i < length l
in_range [] i x e = absurd (cc e)
in_range (y ∷ l) zero x e = omega arith
in_range (y ∷ l) (suc i) x e = omega (arith, in_range l i x e)

in_list : {A : Type 0} (l : List A) (i : ℕ) → i < length l → (x : A) × (get_elem? l i ≡ some x)
in_list [] i h = absurd (omega (arith, h))
in_list (y ∷ l) zero h = (y, refl)
in_list (y ∷ l) (suc i) h = in_list l i (omega (arith, h))

pub length-without_at :
    (i : ℕ) (ips : List IpAddr) → i < length ips → suc (length (without_at i ips)) ≡ length ips
length-without_at i ips h = omega (
  arith,
  h,
  length-append (take i ips) (drop (suc i) ips),
  length-take i ips,
  length-drop (suc i) ips,
)

-- What holds in every state: each candidate that was started is under way or has failed, the flag
-- says whether one is left, and something can still happen.
pub record Fair (candidates : List IpAddr) (r : Race) (n : ℕ) : Type 0 where
  pub tried : length r.pending + r.failures ≡ r.next_idx
  pub in_bounds : r.next_idx ≤ length candidates
  pub flag : r.more_candidates ≡ ltb r.next_idx (length candidates)
  pub alive : (not r.more_candidates && is_empty r.pending) ≡ false
  pub turns : n + 1 ≡ r.next_idx + r.failures

failure_stop :
    (r : Race) (left : List IpAddr)
    → (not r.more_candidates && is_empty left) ≡ true
    → after_failure r left ≡ Turn.all_failed
unfolding after_failure
failure_stop r left h = rw h refl

failure_on :
    (r : Race) (left : List IpAddr)
    → (not r.more_candidates && is_empty left) ≡ false
    → after_failure r left ≡ Turn.running (record r { pending = left; failures = suc r.failures })
unfolding after_failure
failure_on r left h = rw h refl

turn-failed :
    (cs : List IpAddr) (r : Race) (i : ℕ) (ip : IpAddr)
    → get_elem? r.pending i ≡ some ip
    → turn cs r (Event.completed i false) ≡ some (after_failure r (without_at i r.pending))
unfolding turn
turn-failed cs r i ip e = rw (e, turn) refl

turn-connected :
    (cs : List IpAddr) (r : Race) (i : ℕ) (ip : IpAddr)
    → get_elem? r.pending i ≡ some ip
    → turn cs r (Event.completed i true) ≡ some (Turn.connected ip)
unfolding turn
turn-connected cs r i ip e = rw (e, turn) refl

turn-none :
    (cs : List IpAddr) (r : Race) (i : ℕ) (ok : Bool)
    → get_elem? r.pending i ≡ none
    → turn cs r (Event.completed i ok) ≡ none
unfolding turn
turn-none cs r i ok e = rw (e, turn) refl

pub if_true : {A : Type 0} {b : Bool} (x y : A) → b ≡ true → (if b then x else y) ≡ x
if_true x y e = rw e refl

pub if_false : {A : Type 0} {b : Bool} (x y : A) → b ≡ false → (if b then x else y) ≡ y
if_false x y e = rw e refl

abbrev advanced : List IpAddr → Race → IpAddr → Race
advanced cs r ip = record {
  pending = ip ∷ r.pending;
  next_idx = suc r.next_idx;
  more_candidates = ltb (suc r.next_idx) (length cs);
  failures = r.failures;
}

start_next-some :
    (cs : List IpAddr) (r : Race) (ip : IpAddr)
    → get_elem? cs r.next_idx ≡ some ip
    → start_next cs r ≡ Turn.running (advanced cs r ip)
unfolding start_next
start_next-some cs r ip e = rw (e, start_next) refl

turn-delay :
    (cs : List IpAddr) (r : Race) (ip : IpAddr)
    → r.more_candidates ≡ true
    → get_elem? cs r.next_idx ≡ some ip
    → turn cs r Event.delay_over ≡ some (Turn.running (advanced cs r ip))
unfolding turn
turn-delay cs r ip m e =
    if_true (some (start_next cs r)) none m ∙ ap (λ t. some t) (start_next-some cs r ip e)

turn-no_delay :
    (cs : List IpAddr) (r : Race) → r.more_candidates ≡ false → turn cs r Event.delay_over ≡ none
unfolding turn
turn-no_delay cs r m = if_false (some (start_next cs r)) none m

abbrev first_race : IpAddr → List IpAddr → Race
first_race ip ips = record {
  pending = ip ∷ [];
  next_idx = 1;
  more_candidates = ltb 1 (suc (length ips));
  failures = 0;
}

not_stuck : (b : Bool) → (not b && false) ≡ false
not_stuck true = refl
not_stuck false = refl

Fair-first : (ip : IpAddr) (ips : List IpAddr) → Fair (ip ∷ ips) (first_race ip ips) 0
Fair-first ip ips = record {
  tried = omega arith;
  in_bounds = omega arith;
  flag = refl;
  alive = not_stuck (ltb 1 (suc (length ips)));
  turns = omega arith;
}

Fair-start : (cs : List IpAddr) (r : Race) → start cs ≡ some r → Fair cs r 0
unfolding start
Fair-start [] r e = absurd (cc e)
Fair-start (ip ∷ ips) r e =
    let q : first_race ip ips ≡ r = cc e in subst (λ x. Fair (ip ∷ ips) x 0) q (Fair-first ip ips)

Fair-failed :
    (cs : List IpAddr) (r : Race) (n i : ℕ)
    → i < length r.pending
    → (not r.more_candidates && is_empty (without_at i r.pending)) ≡ false
    → Fair cs r n
    → Fair cs (record r { pending = without_at i r.pending; failures = suc r.failures }) (suc n)
Fair-failed cs r n i l a h = record {
  tried = omega (arith, length-without_at i r.pending l, h.tried);
  in_bounds = h.in_bounds;
  flag = h.flag;
  alive = a;
  turns = omega (arith, h.turns);
}

Fair-advanced :
    (cs : List IpAddr) (r : Race) (n : ℕ) (ip : IpAddr)
    → r.next_idx < length cs
    → Fair cs r n
    → Fair cs (advanced cs r ip) (suc n)
Fair-advanced cs r n ip l h = record {
  tried = omega (arith, h.tried);
  in_bounds = omega (arith, l);
  flag = refl;
  alive = not_stuck (ltb (suc r.next_idx) (length cs));
  turns = omega (arith, h.turns);
}

-- What a turn of a fair state gives: the next state, if there is one, is fair; the loop gives up
-- with the last failure, and no index is out of range.
abbrev Kept : List IpAddr → Race → ℕ → Option Turn → Type 0
Kept cs r n none = Unit
Kept cs r n (some (Turn.running s)) = Fair cs s (suc n)
Kept cs r n (some (Turn.connected ip)) = Unit
Kept cs r n (some Turn.all_failed) = suc r.failures ≡ length cs
Kept cs r n (some Turn.out_of_range) = ⊥

no_length : (l : List IpAddr) → is_empty l ≡ true → length l ≡ 0
no_length [] e = refl
no_length (x ∷ l) e = absurd (cc e)

no_more : (b : Bool) (n m : ℕ) → b ≡ ltb n m → not b ≡ true → m ≤ n
no_more b n m e f = ground (arith, e, f)

some_more : (b : Bool) (n m : ℕ) → b ≡ ltb n m → b ≡ true → n < m
some_more b n m e f = ground (arith, e, f)

last_failure :
    (cs : List IpAddr) (r : Race) (n i : ℕ)
    → i < length r.pending
    → (not r.more_candidates && is_empty (without_at i r.pending)) ≡ true
    → Fair cs r n
    → suc r.failures ≡ length cs
last_failure cs r n i l a h =
    let (m, e) = &&-elim (not r.more_candidates) (is_empty (without_at i r.pending)) a in
    omega (
      arith,
      length-without_at i r.pending l,
      no_length (without_at i r.pending) e,
      h.tried,
      h.in_bounds,
      no_more r.more_candidates r.next_idx (length cs) h.flag m,
    )

Kept-failed :
    (cs : List IpAddr) (r : Race) (n i : ℕ)
    → i < length r.pending
    → Fair cs r n
    → Kept cs r n (some (after_failure r (without_at i r.pending)))
Kept-failed cs r n i l h =
    elim (Bool-cases (not r.more_candidates && is_empty (without_at i r.pending))) [
      | inl a ↦
          subst (λ t. Kept cs r n (some t)) (sym (failure_stop r (without_at i r.pending) a))
            (last_failure cs r n i l a h)
      | inr a ↦
          subst (λ t. Kept cs r n (some t)) (sym (failure_on r (without_at i r.pending) a))
            (Fair-failed cs r n i l a h)
    ]

Kept-turn :
    (cs : List IpAddr) (r : Race) (n : ℕ) (e : Event) → Fair cs r n → Kept cs r n (turn cs r e)
Kept-turn cs r n (Event.completed i true) h = elim (Option-cases (get_elem? r.pending i)) [
  | inl e ↦ subst (λ o. Kept cs r n o) (sym (turn-none cs r i true e)) tt
  | inr (ip, e) ↦ subst (λ o. Kept cs r n o) (sym (turn-connected cs r i ip e)) tt
]
Kept-turn cs r n (Event.completed i false) h = elim (Option-cases (get_elem? r.pending i)) [
  | inl e ↦ subst (λ o. Kept cs r n o) (sym (turn-none cs r i false e)) tt
  | inr (ip, e) ↦
      subst (λ o. Kept cs r n o) (sym (turn-failed cs r i ip e))
        (Kept-failed cs r n i (in_range r.pending i ip e) h)
]
Kept-turn cs r n Event.delay_over h = elim (Bool-cases r.more_candidates) [
  | inl m ↦
      let l = some_more r.more_candidates r.next_idx (length cs) h.flag m in
      let (ip, e) = in_list cs r.next_idx l in
      subst (λ o. Kept cs r n o) (sym (turn-delay cs r ip m e)) (Fair-advanced cs r n ip l h)
  | inr m ↦ subst (λ o. Kept cs r n o) (sym (turn-no_delay cs r m)) tt
]

Fair-reach : {cs : List IpAddr} {r : Race} {n : ℕ} → Reach cs r n → Fair cs r n
Fair-reach {cs = cs} {r = r} (here e) = Fair-start cs r e
Fair-reach {cs = cs} (next {r = r} {n = n} e h q) =
    subst (λ o. Kept cs r n o) q (Kept-turn cs r n e (Fair-reach h))

-- The race ends: its loop makes fewer than two turns for each candidate, in whatever order the
-- attempts complete and the delays end.
pub race-ends : {cs : List IpAddr} {r : Race} {n : ℕ} → Reach cs r n → n < 2 * length cs
race-ends h = let f = Fair-reach h in omega (arith, f.turns, f.tried, f.in_bounds)

-- In every state of the race that is reached an attempt is under way or a candidate is left, so
-- that `select!` has a branch to wait for.
pub race-alive :
    {cs : List IpAddr} {r : Race} {n : ℕ}
    → Reach cs r n
    → (not r.more_candidates && is_empty r.pending) ≡ false
race-alive h = (Fair-reach h).alive

-- The race gives up only with the failure that makes as many failures as there are candidates.
pub race-gives_up :
    {cs : List IpAddr} {r : Race} {n : ℕ} (e : Event)
    → Reach cs r n
    → turn cs r e ≡ some Turn.all_failed
    → suc r.failures ≡ length cs
race-gives_up {cs = cs} {r = r} {n = n} e h q =
    subst (λ o. Kept cs r n o) q (Kept-turn cs r n e (Fair-reach h))

-- No turn of the race indexes past the last candidate.
pub race-in_range :
    {cs : List IpAddr} {r : Race} {n : ℕ} (e : Event)
    → Reach cs r n
    → turn cs r e ≢ some Turn.out_of_range
race-in_range {cs = cs} {r = r} {n = n} e h q =
    subst (λ o. Kept cs r n o) q (Kept-turn cs r n e (Fair-reach h))
