-- ===== src/Dns/Prober/Ranking.antt =====
-- src/dns/ip_prober.rs: the results that are gathered while probes complete.
use hakimi_hub.Prelude.{
  ltb, leb, Bool-cases, length, is_empty, select, ℕ, ◌+◌, ◌≡◌, refl, sym, ap, ◌∙◌, inl, inr, Bool,
  true, false, not, ◌&&◌, List, [], ◌∷◌, ◌++◌, map, arith,
}
use mathlib.Core.Path.{subst}
use hakimi_hub.Dns.Ip.{IpAddr}
use hakimi_hub.Dns.Prober.{Completion, probe_single_inner, push_result, collect, gather}

-- The probe got a connection within the timeout.
abbrev pub reaches : ℕ → Completion → Bool
reaches timeout e = ltb (probe_single_inner e.outcome) timeout

-- The results of all completions, in their order.
abbrev pub results_of : ℕ → List Completion → List (IpAddr × ℕ)
results_of timeout es =
    map (λ e. (e.ip, probe_single_inner e.outcome)) (select (reaches timeout) es)

pub push-reached :
    (t : ℕ) (rs : List (IpAddr × ℕ)) (e : Completion)
    → reaches t e ≡ true
    → push_result t rs e ≡ rs ++ (e.ip, probe_single_inner e.outcome) ∷ []
unfolding push_result
push-reached t rs e h = rw h refl

push-missed :
    (t : ℕ) (rs : List (IpAddr × ℕ)) (e : Completion)
    → reaches t e ≡ false
    → push_result t rs e ≡ rs
unfolding push_result
push-missed t rs e h = rw h refl

append_nil : {A : Type 0} (xs : List A) → xs ++ [] ≡ xs
append_nil [] = refl
append_nil (x ∷ xs) = ap (λ l. x ∷ l) (append_nil xs)

append_assoc : {A : Type 0} (xs ys zs : List A) → (xs ++ ys) ++ zs ≡ xs ++ (ys ++ zs)
append_assoc [] ys zs = refl
append_assoc (x ∷ xs) ys zs = ap (λ l. x ∷ l) (append_assoc xs ys zs)

results_of-reached :
    (t : ℕ) (e : Completion) (es : List Completion)
    → reaches t e ≡ true
    → results_of t (e ∷ es) ≡ (e.ip, probe_single_inner e.outcome) ∷ results_of t es
results_of-reached t e es h = rw h refl

results_of-missed :
    (t : ℕ) (e : Completion) (es : List Completion)
    → reaches t e ≡ false
    → results_of t (e ∷ es) ≡ results_of t es
results_of-missed t e es h = rw h refl

-- Pushing one result and then those of the rest is adding those of all.
push-results_of :
    (t : ℕ) (rs : List (IpAddr × ℕ)) (e : Completion) (es : List Completion)
    → push_result t rs e ++ results_of t es ≡ rs ++ results_of t (e ∷ es)
push-results_of t rs e es = elim (Bool-cases (reaches t e)) [
  | inl h ↦
      ap (λ l. l ++ results_of t es) (push-reached t rs e h)
      ∙ append_assoc rs ((e.ip, probe_single_inner e.outcome) ∷ []) (results_of t es)
      ∙ ap (λ l. rs ++ l) (sym (results_of-reached t e es h))
  | inr h ↦
      ap (λ l. l ++ results_of t es) (push-missed t rs e h)
      ∙ ap (λ l. rs ++ l) (sym (results_of-missed t e es h))
]

abbrev pub leaves : Bool → ℕ → ℕ → List (IpAddr × ℕ) → Completion → Bool
leaves fast deadline t rs e = fast && leb 3 (length (push_result t rs e)) && leb deadline e.now

pub collect-left :
    (fast : Bool) (deadline t : ℕ) (rs : List (IpAddr × ℕ)) (e : Completion) (es : List Completion)
    → leaves fast deadline t rs e ≡ true
    → collect fast deadline t rs (e ∷ es) ≡ (push_result t rs e, es)
unfolding collect
collect-left fast deadline t rs e es h = rw h refl

pub collect-on :
    (fast : Bool) (deadline t : ℕ) (rs : List (IpAddr × ℕ)) (e : Completion) (es : List Completion)
    → leaves fast deadline t rs e ≡ false
    → collect fast deadline t rs (e ∷ es) ≡ collect fast deadline t (push_result t rs e) es
unfolding collect
collect-on fast deadline t rs e es h = rw h refl

collect_nil :
    (fast : Bool) (deadline t : ℕ) (rs : List (IpAddr × ℕ))
    → collect fast deadline t rs [] ≡ (rs, [])
unfolding collect
collect_nil fast deadline t rs = refl

-- What the loop has gathered and what it left add up to the results of all completions, and it
-- leaves something only with three results.
pub collect-all :
    (fast : Bool) (deadline t : ℕ) (es : List Completion) (rs : List (IpAddr × ℕ))
    → ((collect fast deadline t rs es).0 ++ results_of t (collect fast deadline t rs es).1
        ≡ rs ++ results_of t es)
      × ((ltb (length (collect fast deadline t rs es).0) 3
            && not (is_empty (collect fast deadline t rs es).1))
          ≡ false)
collect-all fast deadline t [] rs =
    subst
      (λ c.
        (c.0 ++ results_of t c.1 ≡ rs ++ []) × ((ltb (length c.0) 3 && not (is_empty c.1)) ≡ false))
      (sym (collect_nil fast deadline t rs)) (refl, none_left (ltb (length rs) 3))
  where
    none_left : (b : Bool) → (b && false) ≡ false
    none_left true = refl
    none_left false = refl
collect-all fast deadline t (e ∷ es) rs = elim (Bool-cases (leaves fast deadline t rs e)) [
  | inl h ↦
      subst
        (λ c.
          (c.0 ++ results_of t c.1 ≡ rs ++ results_of t (e ∷ es))
          × ((ltb (length c.0) 3 && not (is_empty c.1)) ≡ false))
        (sym (collect-left fast deadline t rs e es h))
        (
          push-results_of t rs e es,
          three fast (leb deadline e.now) (not (is_empty es)) (length (push_result t rs e)) h,
        )
  | inr h ↦
      let r = collect-all fast deadline t es (push_result t rs e) in
      subst
        (λ c.
          (c.0 ++ results_of t c.1 ≡ rs ++ results_of t (e ∷ es))
          × ((ltb (length c.0) 3 && not (is_empty c.1)) ≡ false))
        (sym (collect-on fast deadline t rs e es h)) (r.0 ∙ push-results_of t rs e es, r.1)
]
  where
    three :
        (fast late rest : Bool) (n : ℕ)
        → (fast && leb 3 n && late) ≡ true
        → (ltb n 3 && rest) ≡ false
    three fast late rest n h = ground (arith, h)

abbrev Split :
    List (IpAddr × ℕ) → ℕ → List Completion → List (IpAddr × ℕ) × List Completion → Type 0
Split rs t es c = (seen : List Completion) × (es ≡ seen ++ c.1) × (c.0 ≡ rs ++ results_of t seen)

Split-on :
    (rs : List (IpAddr × ℕ)) (t : ℕ) (e : Completion) (es : List Completion)
    (c : List (IpAddr × ℕ) × List Completion)
    → Split (push_result t rs e) t es c
    → Split rs t (e ∷ es) c
Split-on rs t e es c (seen, p, q) = (e ∷ seen, ap (λ l. e ∷ l) p, q ∙ push-results_of t rs e seen)

-- The loop takes completions from the front, and adds their results to what it had.
pub collect-Split :
    (fast : Bool) (deadline t : ℕ) (es : List Completion) (rs : List (IpAddr × ℕ))
    → Split rs t es (collect fast deadline t rs es)
collect-Split fast deadline t [] rs =
    subst (λ c. Split rs t [] c) (sym (collect_nil fast deadline t rs))
      ([], refl, sym (append_nil rs))
collect-Split fast deadline t (e ∷ es) rs = elim (Bool-cases (leaves fast deadline t rs e)) [
  | inl h ↦
      subst (λ c. Split rs t (e ∷ es) c) (sym (collect-left fast deadline t rs e es h))
        (Split-on rs t e es (push_result t rs e, es)
          ([], refl, sym (append_nil (push_result t rs e))))
  | inr h ↦
      subst (λ c. Split rs t (e ∷ es) c) (sym (collect-on fast deadline t rs e es h))
        (Split-on rs t e es (collect fast deadline t (push_result t rs e) es)
          (collect-Split fast deadline t es (push_result t rs e)))
]

pub gather-collect :
    (t started total : ℕ) (es : List Completion)
    → gather t started total es ≡ (collect (ltb 3 total) (started + 200000000) t [] es).0
unfolding gather
gather-collect t started total es =
    rw ((collect-all (ltb 3 total) (started + 200000000) t es []).1) refl
