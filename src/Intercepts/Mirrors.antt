-- ===== src/Intercepts/Mirrors.antt =====
-- src/intercepts/mirror_health.rs: the health of the mirrors. Instants and durations are in
-- nanoseconds, and the floating point numbers are a parameter.
use hakimi_hub.Prelude.{
  ltb, leb, ◌==◌, if◌then◌else◌, ltb→lt, lt→ltb, leb→le, le→leb, ==_iff, ==_refl, Bool-cases,
  Option-cases, &&-elim, &&-intro, ||-elim, is_some, present, length, get_elem?, take, drop,
  is_empty, any, all, select, All, length-append, take-append-drop, length-take, length-drop,
  take-length_append, drop-length_append, All-append, ℕ, zero, suc, ◌+◌, ◌-◌, ◌*◌, ◌/◌, ◌%◌, ◌^◌,
  ◌≤◌, ◌<◌, ◌≡◌, refl, sym, ap, ◌∙◌, ◌≢◌, ◌↔◌, ◌⊎◌, inl, inr, Bool, true, false, not, ◌&&◌, ◌||◌,
  Option, none, some, List, [], ◌∷◌, ◌++◌, map, arith,
}
use hakimi_hub.Prelude.Str.{Text, codes}
use hakimi_hub.Prelude.Str
use mathlib.Core.Option
use mathlib.Core.List
use hakimi_hub.Utils.Containers.{MapOps}
use Prim.Native.Nat.{max}
pub mod Recovery
pub mod Best

-- `f64`: the operations and the literals that the code uses, and the test that `partial_cmp`
-- gives `Greater`.
pub record F64 : Type 1 where
  pub Carrier : Type 0
  pub add : Carrier → Carrier → Carrier
  pub mul : Carrier → Carrier → Carrier
  pub of_0_0 : Carrier
  pub of_0_3 : Carrier
  pub of_0_7 : Carrier
  pub max_value : Carrier
  pub is_greater : Carrier → Carrier → Bool

pub record MirrorHealth (F : F64) : Type 0 where
  pub consecutive_failures : ℕ
  pub total_successes : ℕ
  pub total_failures : ℕ
  pub last_response_time_ms : Option F.Carrier
  pub avg_response_time_ms : F.Carrier
  pub response_time_count : ℕ
  pub disabled_at : Option ℕ

abbrev pub default : (F : F64) → MirrorHealth F
default F = record {
  consecutive_failures = 0;
  total_successes = 0;
  total_failures = 0;
  last_response_time_ms = none;
  avg_response_time_ms = F.of_0_0;
  response_time_count = 0;
  disabled_at = none;
}

-- What `get_stats` shows of a mirror.
pub record MirrorStats (F : F64) : Type 0 where
  pub mirror : Text
  pub consecutive_failures : ℕ
  pub total_successes : ℕ
  pub total_failures : ℕ
  pub avg_response_time_ms : F.Carrier
  pub last_response_time_ms : Option F.Carrier
  pub is_disabled : Bool

module _ (F : F64) where
  -- `record_success` on the entry.
  unfoldable pub on_success : MirrorHealth F → F.Carrier → MirrorHealth F
  on_success h ms = record h {
    consecutive_failures = 0;
    total_successes = (h.total_successes + 1) % 2 ^ 64;
    last_response_time_ms = some ms;
    avg_response_time_ms =
        if h.response_time_count == 0
        then ms
        else F.add (F.mul F.of_0_3 ms) (F.mul F.of_0_7 h.avg_response_time_ms);
    response_time_count = (h.response_time_count + 1) % 2 ^ 64;
    disabled_at = none;
  }

  -- `record_failure` on the entry.
  unfoldable pub on_failure : ℕ → MirrorHealth F → ℕ → MirrorHealth F
  on_failure failure_threshold h now =
      let n = (h.consecutive_failures + 1) % 2 ^ 32 in
      record h {
        consecutive_failures = n;
        total_failures = (h.total_failures + 1) % 2 ^ 64;
        disabled_at =
            if leb failure_threshold n && not (is_some h.disabled_at)
            then some now
            else h.disabled_at;
      }

  module _ (dec : Discrete Text) (M : MapOps dec (MirrorHealth F)) where
    pub record MirrorHealthTracker : Type 0 where
      pub health : M.Map
      pub failure_threshold : ℕ
      pub recovery_timeout : ℕ

    unfoldable pub new : ℕ → ℕ → MirrorHealthTracker
    new failure_threshold recovery_timeout_secs = record {
      health = M.empty;
      failure_threshold = max failure_threshold 1;
      recovery_timeout = recovery_timeout_secs * 1000000000;
    }

    unfoldable pub default_tracker : MirrorHealthTracker
    unfolding new
    default_tracker = new 3 300

    -- `entry(mirror).or_default()`
    unfoldable pub entry : MirrorHealthTracker → Text → MirrorHealth F
    entry t mirror = Option.get_or (M.get t.health mirror) (default F)

    unfoldable pub record_success : MirrorHealthTracker → Text → F.Carrier → MirrorHealthTracker
    record_success t mirror ms = record t {
      health = M.insert t.health mirror (on_success (entry t mirror) ms);
    }

    unfoldable pub record_failure : MirrorHealthTracker → Text → ℕ → MirrorHealthTracker
    record_failure t mirror now = record t {
      health = M.insert t.health mirror (on_failure t.failure_threshold (entry t mirror) now);
    }

    -- The tracker with a mirror whose time-out is over.
    unfoldable pub recovered : MirrorHealthTracker → Text → MirrorHealth F → MirrorHealthTracker
    recovered t mirror h = record t {
      health = M.insert t.health mirror (record h { disabled_at = none; consecutive_failures = 0 });
    }

    -- The test changes the tracker where a time-out is over.
    unfoldable pub is_available : MirrorHealthTracker → Text → ℕ → Bool × MirrorHealthTracker
    is_available t mirror now = elim (M.get t.health mirror) [
      | none ↦ (true, t)
      | some h ↦ elim h.disabled_at [
        | none ↦ (true, t)
        | some disabled_at ↦
            if leb t.recovery_timeout (now - disabled_at)
            then (true, recovered t mirror h)
            else (false, t)
      ]
    ]

    -- `mirrors.iter().filter(is_available)`: the clock is read once for a mirror that is disabled,
    -- `clock i` at the mirror in position `i`.
    unfoldable pub available :
        MirrorHealthTracker → (ℕ → ℕ) → ℕ → List Text → List Text × MirrorHealthTracker
    available t clock i [] = ([], t)
    available t clock i (m ∷ ms) =
        let r = is_available t m (clock i) in
        let rest = available r.1 clock (suc i) ms in (if r.0 then m ∷ rest.0 else rest.0, rest.1)

    -- The average that the comparison goes by.
    unfoldable pub response_time : MirrorHealthTracker → Text → F.Carrier
    response_time t m =
        Option.get_or (Option.map (λ h. h.avg_response_time_ms) (M.get t.health m)) F.max_value

    -- `min_by` from a first candidate: a later one wins only where it is strictly faster.
    unfoldable pub min_by : MirrorHealthTracker → Text → List Text → Text
    min_by t best [] = best
    min_by t best (m ∷ ms) =
        min_by t (if F.is_greater (response_time t best) (response_time t m) then m else best) ms

    unfoldable pub best_of : MirrorHealthTracker → List Text → Option Text
    best_of t [] = none
    best_of t (m ∷ ms) = some (min_by t m ms)

    unfoldable pub get_best_mirror :
        MirrorHealthTracker → (ℕ → ℕ) → List Text → Option Text × MirrorHealthTracker
    get_best_mirror t clock mirrors = let r = available t clock 0 mirrors in (best_of r.1 r.0, r.1)

    unfoldable pub stats : Text → MirrorHealth F → MirrorStats F
    stats mirror h = record {
      mirror = mirror;
      consecutive_failures = h.consecutive_failures;
      total_successes = h.total_successes;
      total_failures = h.total_failures;
      avg_response_time_ms = h.avg_response_time_ms;
      last_response_time_ms = h.last_response_time_ms;
      is_disabled = is_some h.disabled_at;
    }

    unfoldable pub get_stats : MirrorHealthTracker → Text → Option (MirrorStats F)
    get_stats t mirror = Option.map (stats mirror) (M.get t.health mirror)
