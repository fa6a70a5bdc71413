-- ===== src/Mitm/Streaming/Ends.antt =====
-- src/mitm/sni_spoof.rs: the loop of `connect_stream` ends, and with which error.
use hakimi_hub.Prelude.{
  Bool-cases, Option-cases, length, get_elem?, is_empty, ℕ, suc, ◌+◌, ◌*◌, ◌≤◌, ◌≡◌, refl, sym, ◌≢◌,
  ◌⊎◌, inl, inr, Bool, true, false, not, ◌||◌, Option, none, some, List, [], ◌∷◌, arith,
}
use mathlib.Core.Path.{subst}
use hakimi_hub.Dns.Ip.{IpAddr}
use hakimi_hub.Mitm.Race.{without_at}
use hakimi_hub.Mitm.Race.Ends.{in_range, length-without_at, if_true, if_false}
use hakimi_hub.Mitm.Streaming.{
  Streaming, Event, Turn, is_seen, begin_stream, after_failure, start_dns, on_resolved,
  on_no_branch, awaits_trial, awaits_dns, turn, delivered, Reach, here, next,
}

abbrev one_if : Bool → ℕ
one_if true = 1
one_if false = 0

one_if_bound : (b : Bool) → one_if b ≤ 1
one_if_bound true = omega arith
one_if_bound false = omega arith

abbrev state : List IpAddr → List IpAddr → Bool → Bool → Bool → Bool → Streaming
state p se rx st dn tr = record {
  pending = p;
  seen_ips = se;
  ip_rx = rx;
  dns_started = st;
  dns_done = dn;
  trial_deadline = tr;
}

abbrev added : Streaming → IpAddr → Streaming
added r ip = record r { pending = ip ∷ r.pending; seen_ips = ip ∷ r.seen_ips }

-- What holds in every state: DoH is not known to be done, its channel is there once it is asked, it
-- will be asked, and each turn was an attempt that failed, an address or the end of the trial.
pub record Fair (w : List IpAddr) (r : Streaming) (n d : ℕ) : Type 0 where
  pub not_done : r.dns_done ≡ false
  pub channel : r.ip_rx ≡ r.dns_started
  pub will_ask : (r.dns_started || r.trial_deadline) ≡ true
  pub turns : n + length r.pending ≤ length w + 2 * d + one_if r.dns_started

asks : (w : List IpAddr) → (is_empty w || not (is_empty w)) ≡ true
asks [] = refl
asks (x ∷ w) = refl

Fair-begin : (w : List IpAddr) → Fair w (begin_stream w) 0 0
unfolding begin_stream
Fair-begin w = record { not_done = refl; channel = refl; will_ask = asks w; turns = omega arith }

-- What a turn gives: a fair state again, or the end, which is never the error that all addresses
-- failed.
abbrev Kept : List IpAddr → ℕ → ℕ → Option Turn → Type 0
Kept w n d none = Unit
Kept w n d (some (Turn.running s)) = Fair w s (suc n) d
Kept w n d (some (Turn.connected ip)) = Unit
Kept w n d (some Turn.all_failed) = ⊥
Kept w n d (some Turn.no_address) = Unit

Kept-after_failure :
    (w p se left : List IpAddr) (rx st dn tr : Bool) (n d : ℕ)
    → suc (length left) ≡ length p
    → Fair w (state p se rx st dn tr) n d
    → Kept w n d (some (after_failure (state p se rx st dn tr) left))
unfolding after_failure
Kept-after_failure w p se left rx st true tr n d e h = absurd (cc h.not_done)
Kept-after_failure w p se left rx st false tr n d e h = record {
  not_done = refl;
  channel = h.channel;
  will_ask = h.will_ask;
  turns = omega (arith, e, h.turns);
}

Kept-trial_over :
    (w p se : List IpAddr) (rx st dn tr : Bool) (n d : ℕ)
    → Fair w (state p se rx st dn tr) n d
    → Kept w n d (turn (state p se rx st dn tr) Event.trial_over)
unfolding turn awaits_trial start_dns
Kept-trial_over w p se rx true dn true n d h = tt
Kept-trial_over w p se rx true dn false n d h = tt
Kept-trial_over w p se rx false dn false n d h = tt
Kept-trial_over w p se rx false dn true n d h = record {
  not_done = h.not_done;
  channel = refl;
  will_ask = refl;
  turns = omega (arith, h.turns);
}

resolved-seen : (r : Streaming) (ip : IpAddr) → is_seen ip r.seen_ips ≡ true → on_resolved r ip ≡ r
unfolding on_resolved
resolved-seen r ip e = if_true r (added r ip) e

resolved-new :
    (r : Streaming) (ip : IpAddr) → is_seen ip r.seen_ips ≡ false → on_resolved r ip ≡ added r ip
unfolding on_resolved
resolved-new r ip e = if_false r (added r ip) e

Fair-same : (w : List IpAddr) (r : Streaming) (n d : ℕ) → Fair w r n d → Fair w r (suc n) (1 + d)
Fair-same w r n d h = record {
  not_done = h.not_done;
  channel = h.channel;
  will_ask = h.will_ask;
  turns = omega (arith, h.turns);
}

Fair-added :
    (w : List IpAddr) (r : Streaming) (ip : IpAddr) (n d : ℕ)
    → Fair w r n d
    → Fair w (added r ip) (suc n) (1 + d)
Fair-added w r ip n d h = record {
  not_done = h.not_done;
  channel = h.channel;
  will_ask = h.will_ask;
  turns = omega (arith, h.turns);
}

Fair-on_resolved :
    (w : List IpAddr) (r : Streaming) (ip : IpAddr) (n d : ℕ)
    → Fair w r n d
    → Fair w (on_resolved r ip) (suc n) (1 + d)
Fair-on_resolved w r ip n d h = elim (Bool-cases (is_seen ip r.seen_ips)) [
  | inl e ↦ subst (λ s. Fair w s (suc n) (1 + d)) (sym (resolved-seen r ip e)) (Fair-same w r n d h)
  | inr e ↦
      subst (λ s. Fair w s (suc n) (1 + d)) (sym (resolved-new r ip e)) (Fair-added w r ip n d h)
]

Kept-resolved :
    (w p se : List IpAddr) (rx st dn tr : Bool) (ip : IpAddr) (n d : ℕ)
    → Fair w (state p se rx st dn tr) n d
    → Kept w n (1 + d) (turn (state p se rx st dn tr) (Event.resolved ip))
unfolding turn awaits_dns
Kept-resolved w p se rx false dn tr ip n d h = tt
Kept-resolved w p se rx true true tr ip n d h = tt
Kept-resolved w p se false true false tr ip n d h = tt
Kept-resolved w p se true true false tr ip n d h =
    Fair-on_resolved w (state p se true true false tr) ip n d h

-- The last branch of `select!`, taken when no other can be, ends the loop.
abbrev Ends : Streaming → Option Turn → Type 0
Ends r o = (o ≡ none) ⊎ ((o ≡ some Turn.no_address) × (r.dns_started ≡ true) × (r.pending ≡ []))

Ends-no_branch :
    (w p se : List IpAddr) (rx st dn tr : Bool) (n d : ℕ)
    → Fair w (state p se rx st dn tr) n d
    → Ends (state p se rx st dn tr) (turn (state p se rx st dn tr) Event.no_branch)
unfolding turn awaits_trial awaits_dns on_no_branch
Ends-no_branch w p se rx st true tr n d h = absurd (cc h.not_done)
Ends-no_branch w (x ∷ p) se rx st false tr n d h = inl refl
Ends-no_branch w [] se rx false false false n d h = absurd (cc h.will_ask)
Ends-no_branch w [] se rx false false true n d h = inl refl
Ends-no_branch w [] se false true false tr n d h = absurd (cc h.channel)
Ends-no_branch w [] se true true false true n d h = inr (refl, refl, refl)
Ends-no_branch w [] se true true false false n d h = inr (refl, refl, refl)

turn-none :
    (r : Streaming) (i : ℕ) (ok : Bool)
    → get_elem? r.pending i ≡ none
    → turn r (Event.completed i ok) ≡ none
unfolding turn
turn-none r i ok e = rw (e, turn) refl

turn-connected :
    (r : Streaming) (i : ℕ) (ip : IpAddr)
    → get_elem? r.pending i ≡ some ip
    → turn r (Event.completed i true) ≡ some (Turn.connected ip)
unfolding turn
turn-connected r i ip e = rw (e, turn) refl

turn-failed :
    (r : Streaming) (i : ℕ) (ip : IpAddr)
    → get_elem? r.pending i ≡ some ip
    → turn r (Event.completed i false) ≡ some (after_failure r (without_at i r.pending))
unfolding turn
turn-failed r i ip e = rw (e, turn) refl

Kept-completed :
    (w : List IpAddr) (r : Streaming) (i : ℕ) (ok : Bool) (n d : ℕ)
    → Fair w r n d
    → Kept w n d (turn r (Event.completed i ok))
Kept-completed w r i true n d h = elim (Option-cases (get_elem? r.pending i)) [
  | inl e ↦ subst (λ o. Kept w n d o) (sym (turn-none r i true e)) tt
  | inr (ip, e) ↦ subst (λ o. Kept w n d o) (sym (turn-connected r i ip e)) tt
]
Kept-completed w r i false n d h = elim (Option-cases (get_elem? r.pending i)) [
  | inl e ↦ subst (λ o. Kept w n d o) (sym (turn-none r i false e)) tt
  | inr (ip, e) ↦
      subst (λ o. Kept w n d o) (sym (turn-failed r i ip e))
        (Kept-after_failure w r.pending r.seen_ips (without_at i r.pending) r.ip_rx r.dns_started
          r.dns_done r.trial_deadline n d
          (length-without_at i r.pending (in_range r.pending i ip e)) h)
]

turn-Ends :
    {w : List IpAddr} {n d : ℕ} (r : Streaming) → Fair w r n d → Ends r (turn r Event.no_branch)
turn-Ends {w = w} {n = n} {d = d} r h =
    Ends-no_branch w r.pending r.seen_ips r.ip_rx r.dns_started r.dns_done r.trial_deadline n d h

Kept-turn :
    (w : List IpAddr) (r : Streaming) (e : Event) (n d : ℕ)
    → Fair w r n d
    → Kept w n (delivered e d) (turn r e)
Kept-turn w r (Event.completed i ok) n d h = Kept-completed w r i ok n d h
Kept-turn w r Event.trial_over n d h =
    Kept-trial_over w r.pending r.seen_ips r.ip_rx r.dns_started r.dns_done r.trial_deadline n d h
Kept-turn w r (Event.resolved ip) n d h =
    Kept-resolved w r.pending r.seen_ips r.ip_rx r.dns_started r.dns_done r.trial_deadline ip n d h
Kept-turn w r Event.no_branch n d h = elim (turn-Ends r h) [
  | inl e ↦ subst (λ o. Kept w n d o) (sym e) tt
  | inr q ↦ subst (λ o. Kept w n d o) (sym q.0) tt
]

Fair-reach : {w : List IpAddr} {r : Streaming} {n d : ℕ} → Reach w r n d → Fair w r n d
Fair-reach {w = w} here = Fair-begin w
Fair-reach {w = w} (next {r = r} {n = n} {d = d} e h q) =
    subst (λ o. Kept w n (delivered e d) o) q (Kept-turn w r e n d (Fair-reach h))

-- The turns after which the loop goes on are at most one for each address that worked, two for
-- each address that DoH has delivered, and one more, in whatever order they come.
pub stream-ends :
    {w : List IpAddr} {r : Streaming} {n d : ℕ} → Reach w r n d → n ≤ length w + 2 * d + 1
stream-ends {r = r} h = let f = Fair-reach h in omega (arith, f.turns, one_if_bound r.dns_started)

-- The error that all addresses failed is never reported.
pub stream-all_failed :
    {w : List IpAddr} {r : Streaming} {n d : ℕ} (e : Event)
    → Reach w r n d
    → turn r e ≢ some Turn.all_failed
stream-all_failed {w = w} {r = r} {n = n} {d = d} e h q =
    subst (λ o. Kept w n (delivered e d) o) q (Kept-turn w r e n d (Fair-reach h))

-- The branch that is taken when no other one can be is taken only after DoH was asked and with no
-- attempt under way, and ends the loop with the error that there is no address.
pub stream-no_branch :
    {w : List IpAddr} {r : Streaming} {n d : ℕ} {t : Turn}
    → Reach w r n d
    → turn r Event.no_branch ≡ some t
    → (t ≡ Turn.no_address) × (r.dns_started ≡ true) × (r.pending ≡ [])
stream-no_branch {r = r} {t = t} h q = elim (turn-Ends r (Fair-reach h)) [
  | inl e ↦ absurd (cc (e, q))
  | inr p ↦ let same : t ≡ Turn.no_address = cc (p.0, q) in (same, p.1, p.2)
]
