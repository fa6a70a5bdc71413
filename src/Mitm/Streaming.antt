-- ===== src/Mitm/Streaming.antt =====
-- src/mitm/sni_spoof.rs: the loop of `connect_stream`. The addresses that worked are tried first,
-- and DoH is asked when there are none or they take too long. A turn of the loop is a step for the
-- event that `select!` takes; no step is an event that cannot come. `pending` and `seen_ips` hold
-- addresses in an order that the program does not look at.
use hakimi_hub.Prelude.{
  ltb, leb, ◌==◌, if◌then◌else◌, ltb→lt, lt→ltb, leb→le, le→leb, ==_iff, ==_refl, Bool-cases,
  Option-cases, &&-elim, &&-intro, ||-elim, is_some, present, length, get_elem?, take, drop,
  is_empty, any, all, select, All, length-append, take-append-drop, length-take, length-drop,
  take-length_append, drop-length_append, All-append, ℕ, zero, suc, ◌+◌, ◌-◌, ◌*◌, ◌/◌, ◌%◌, ◌^◌,
  ◌≤◌, ◌<◌, ◌≡◌, refl, sym, ap, ◌∙◌, ◌≢◌, ◌↔◌, ◌⊎◌, inl, inr, Bool, true, false, not, ◌&&◌, ◌||◌,
  Option, none, some, List, [], ◌∷◌, ◌++◌, map, arith,
}
use hakimi_hub.Prelude.Str.{Text, codes}
use hakimi_hub.Prelude.Str
use mathlib.Core.Option
use mathlib.Core.List
use hakimi_hub.Dns.Ip.{IpAddr}
use hakimi_hub.Dns.Ip.Equality.{ip_discrete}
use hakimi_hub.Mitm.Race.{without_at}
use mathlib.Core.Logic.{ite}
pub mod Ends

-- The locals: `ip_rx` and `trial_deadline` say whether the option holds a value.
pub record Streaming : Type 0 where
  pub pending : List IpAddr
  pub seen_ips : List IpAddr
  pub ip_rx : Bool
  pub dns_started : Bool
  pub dns_done : Bool
  pub trial_deadline : Bool

-- An attempt completes, the trial ends, the channel delivers an address, or no branch is enabled
-- any more, the channel being closed if it was asked.
pub data Event : Type 0 where
  completed : ℕ → Bool → Event
  trial_over : Event
  resolved : IpAddr → Event
  no_branch : Event

-- The address of `connected` is the one that is passed to `record_success`.
pub data Turn : Type 0 where
  running : Streaming → Turn
  connected : IpAddr → Turn
  all_failed : Turn
  no_address : Turn

unfoldable pub is_seen : IpAddr → List IpAddr → Bool
is_seen ip [] = false
is_seen ip (x ∷ xs) = let rest = is_seen ip xs in ite (ip_discrete x ip) true rest

-- `insert` of a set.
unfoldable pub see : IpAddr → List IpAddr → List IpAddr
unfolding is_seen
see ip seen = if is_seen ip seen then seen else ip ∷ seen

unfoldable pub see_all : List IpAddr → List IpAddr → List IpAddr
unfolding see
see_all [] seen = seen
see_all (ip ∷ ips) seen = see_all ips (see ip seen)

unfoldable pub begin_stream : List IpAddr → Streaming
unfolding see_all
begin_stream working_ips = record {
  pending = working_ips;
  seen_ips = see_all working_ips [];
  ip_rx = is_empty working_ips;
  dns_started = is_empty working_ips;
  dns_done = false;
  trial_deadline = not (is_empty working_ips);
}

unfoldable pub after_failure : Streaming → List IpAddr → Turn
after_failure r left =
    if r.dns_done && is_empty left
    then Turn.all_failed
    else Turn.running (record r { pending = left })

unfoldable pub start_dns : Streaming → Streaming
start_dns r = record r { ip_rx = true; dns_started = true }

unfoldable pub on_resolved : Streaming → IpAddr → Streaming
unfolding is_seen
on_resolved r ip =
    if is_seen ip r.seen_ips
    then r
    else record r { pending = ip ∷ r.pending; seen_ips = ip ∷ r.seen_ips }

unfoldable pub on_no_branch : Streaming → Turn
on_no_branch r =
    if r.dns_started
    then if is_empty r.pending then Turn.no_address else Turn.running (record r { dns_done = true })
    else Turn.running r

-- The conditions of the second and the third branch.
unfoldable pub awaits_trial : Streaming → Bool
awaits_trial r = r.trial_deadline && not r.dns_started

unfoldable pub awaits_dns : Streaming → Bool
awaits_dns r = r.dns_started && not r.dns_done

unfoldable pub turn : Streaming → Event → Option Turn
unfolding after_failure start_dns on_resolved on_no_branch awaits_trial awaits_dns
turn r (Event.completed i ok) = elim (get_elem? r.pending i) [
  | none ↦ none
  | some ip ↦ some (if ok then Turn.connected ip else after_failure r (without_at i r.pending))
]
turn r Event.trial_over = if awaits_trial r then some (Turn.running (start_dns r)) else none
turn r (Event.resolved ip) =
    if awaits_dns r && r.ip_rx then some (Turn.running (on_resolved r ip)) else none
turn r Event.no_branch =
    if is_empty r.pending && not (awaits_trial r) && (not (awaits_dns r) || r.ip_rx)
    then some (on_no_branch r)
    else none

-- The number of addresses that the channel has delivered after an event.
abbrev pub delivered : Event → ℕ → ℕ
delivered (Event.completed i ok) d = d
delivered Event.trial_over d = d
delivered (Event.resolved ip) d = 1 + d
delivered Event.no_branch d = d

-- The states that the loop can be in after a number of turns, with the number of addresses that
-- the channel delivered in them.
pub data Reach (working_ips : List IpAddr) : Streaming → ℕ → ℕ → Type 0 where
  here : Reach working_ips (begin_stream working_ips) 0 0
  next :
      {r s : Streaming} {n d : ℕ} (e : Event)
      → Reach working_ips r n d
      → turn r e ≡ some (Turn.running s)
      → Reach working_ips s (suc n) (delivered e d)
