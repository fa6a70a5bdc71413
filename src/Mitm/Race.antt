-- ===== src/Mitm/Race.antt =====
-- src/mitm/sni_spoof.rs: the race of `run_sni_happy_eyeballs`. A turn of its loop is a step on
-- the state, for the event that `select!` takes; no step is an event that cannot come.
use hakimi_hub.Prelude.{
  ltb, leb, ◌==◌, if◌then◌else◌, ltb→lt, lt→ltb, leb→le, le→leb, ==_iff, ==_refl, Bool-cases,
  Option-cases, &&-elim, &&-intro, ||-elim, is_some, present, length, get_elem?, take, drop,
  is_empty, any, all, select, All, length-append, take-append-drop, length-take, length-drop,
  take-length_append, drop-length_append, All-append, ℕ, zero, suc, ◌+◌, ◌-◌, ◌*◌, ◌/◌, ◌%◌, ◌^◌,
  ◌≤◌, ◌<◌, ◌≡◌, refl, sym, ap, ◌∙◌, ◌≢◌, ◌↔◌, ◌⊎◌, inl, inr, Bool, true, false, not, ◌&&◌, ◌||◌,
  Option, none, some, List, [], ◌∷◌, ◌++◌, map, arith,
}
use hakimi_hub.Prelude.Str.{Text, codes}
use hakimi_hub.Prelude.Str
use mathlib.Core.Option
use mathlib.Core.List
use hakimi_hub.Dns.Ip.{IpAddr}
pub mod Ends

-- The locals of the loop: the attempts under way, the index of the next candidate and whether
-- there is one; `failures` counts the attempts that failed.
pub record Race : Type 0 where
  pub pending : List IpAddr
  pub next_idx : ℕ
  pub more_candidates : Bool
  pub failures : ℕ

-- The attempt at a place of `pending` completes, or the delay ends.
pub data Event : Type 0 where
  completed : ℕ → Bool → Event
  delay_over : Event

pub data Turn : Type 0 where
  running : Race → Turn
  connected : IpAddr → Turn
  all_failed : Turn
  out_of_range : Turn

-- What is left of `pending` when the attempt at a place has completed.
abbrev pub without_at : ℕ → List IpAddr → List IpAddr
without_at i ips = take i ips ++ drop (suc i) ips

-- The first candidate is started before the loop.
unfoldable pub start : List IpAddr → Option Race
start [] = none
start (ip ∷ ips) = some (record {
  pending = ip ∷ [];
  next_idx = 1;
  more_candidates = ltb 1 (suc (length ips));
  failures = 0;
})

-- A failed attempt: the loop ends if it was the last one.
unfoldable pub after_failure : Race → List IpAddr → Turn
after_failure r left =
    if not r.more_candidates && is_empty left
    then Turn.all_failed
    else Turn.running (record r { pending = left; failures = suc r.failures })

-- The candidate at `next_idx` is started.
unfoldable pub start_next : List IpAddr → Race → Turn
start_next candidates r = elim (get_elem? candidates r.next_idx) [
  | none ↦ Turn.out_of_range
  | some ip ↦ Turn.running (record {
    pending = ip ∷ r.pending;
    next_idx = suc r.next_idx;
    more_candidates = ltb (suc r.next_idx) (length candidates);
    failures = r.failures;
  })
]

unfoldable pub turn : List IpAddr → Race → Event → Option Turn
unfolding after_failure start_next
turn candidates r (Event.completed i ok) = elim (get_elem? r.pending i) [
  | none ↦ none
  | some ip ↦ some (if ok then Turn.connected ip else after_failure r (without_at i r.pending))
]
turn candidates r Event.delay_over =
    if r.more_candidates then some (start_next candidates r) else none

-- The states that the loop can be in after a number of turns.
pub data Reach (candidates : List IpAddr) : Race → ℕ → Type 0 where
  here : {r : Race} → start candidates ≡ some r → Reach candidates r 0
  next :
      {r s : Race} {n : ℕ} (e : Event)
      → Reach candidates r n
      → turn candidates r e ≡ some (Turn.running s)
      → Reach candidates s (suc n)
