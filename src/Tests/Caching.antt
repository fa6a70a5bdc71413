-- ===== src/Tests/Caching.antt =====
-- Runs of the evictable cache and of the health of mirrors.
use hakimi_hub.Prelude.{
  none, ◌⊎◌, ltb, take, ℕ, ◌+◌, ◌-◌, ◌*◌, ◌≤◌, ◌≡◌, refl, true, false, some, List, [], ◌∷◌, arith,
}
use hakimi_hub.Prelude.Str.{Text, codes}
use native.Mathlib.Decide.{ℕ_discrete}
use mathlib.Core.List.{List-discrete}
use hakimi_hub.Utils.Containers.{without, MapOps, LruOps}
use hakimi_hub.Utils.Containers.Lists.{list_map, list_index}
use hakimi_hub.Utils.Evictable.{Entry, EvictableCache, new, insert, get, store}
use hakimi_hub.Utils.Evictable.Evict.{Synced, insert-lru, Synced-store}
use hakimi_hub.Utils.Evictable.Sync.{Synced-new}
use hakimi_hub.Utils.Evictable.Runs.{Op, run, run-InSync}
use hakimi_hub.Utils.Evictable.Ttl.{get-ttl}
use hakimi_hub.Intercepts.Mirrors.Best.{StandsIn, NoneFaster, get_best_mirror-NoneFaster}
use hakimi_hub.Intercepts.Mirrors.{
  get_best_mirror, available, F64, MirrorHealth, MirrorHealthTracker, default, entry, is_available,
  record_success, record_failure,
}
use hakimi_hub.Proxy.Fallback.{Attempt, attempts, attempts-available}

abbrev entries : MapOps ℕ_discrete (Entry ℕ)
entries = list_map ℕ_discrete

abbrev order : LruOps ℕ_discrete
order = list_index ℕ_discrete

abbrev Cache : Type 0
Cache = EvictableCache {V = ℕ} ℕ_discrete entries order

abbrev empty : Cache
empty = new ℕ_discrete entries order 1

abbrev one : Cache
one = store ℕ_discrete entries order empty 7 70 5

one-Synced : Synced ℕ_discrete entries order one
one-Synced =
    Synced-store ℕ_discrete entries order empty 7 70 5 (Synced-new ℕ_discrete entries order 1)

throttle_over : 1000000 ≤ 2000000 - one.last_evict_ns
unfolding new store
throttle_over = omega arith

insert-lru_example :
    (insert ℕ_discrete entries order one 8 80 6 2000000).lru_index
    ≡ take one.max_entries (8 ∷ without ℕ_discrete 8 one.lru_index)
insert-lru_example =
    (insert-lru ℕ_discrete entries order one 8 80 6 2000000 one-Synced throttle_over).0

abbrev ops : List (Op ℕ ℕ)
ops =
    Op.call_insert 7 70 5 5
    ∷ Op.call_insert 8 80 6 2000000
    ∷ Op.call_get 7 7 7
    ∷ Op.call_evict (some 3) 9 9
    ∷ []

run-InSync_example :
    Synced ℕ_discrete entries order
      (run ℕ_discrete entries order (new ℕ_discrete entries order 1) ops)
run-InSync_example = (run-InSync ℕ_discrete entries order 1 3 ops).0

abbrev timed : Cache
timed = record one { ttl = some 10 }

abbrev stored : Entry ℕ
stored = record { value = 70; last_accessed = 5; created_at = 5 }

has_entry : entries.get timed.inner 7 ≡ some stored
unfolding store new
has_entry = ground (arith, entries.get-insert entries.empty 7 stored 7)

get-ttl_example : (get ℕ_discrete entries order timed 7 9 9).0 ≡ some 70
get-ttl_example = (get-ttl ℕ_discrete entries order timed 7 stored 10 9 9 refl has_entry).0

-- Floating point numbers are used through their interface alone, so numbers stand for them.
abbrev numbers : F64
numbers = record {
  Carrier = ℕ;
  add = λ a b. a + b;
  mul = λ a b. a * b;
  of_0_0 = 0;
  of_0_3 = 3;
  of_0_7 = 7;
  max_value = 1000000;
  is_greater = λ a b. ltb b a;
}

abbrev text_discrete : Discrete Text
text_discrete = List-discrete ℕ_discrete

abbrev mirrors : MapOps text_discrete (MirrorHealth numbers)
mirrors = list_map text_discrete

abbrev tracker : MirrorHealthTracker numbers text_discrete mirrors
tracker = hakimi_hub.Intercepts.Mirrors.new numbers text_discrete mirrors 3 300

abbrev mirror : Text
mirror = codes "v4.gh-proxy.org"

abbrev disabled : MirrorHealth numbers
disabled = record (default numbers) { disabled_at = some 30; consecutive_failures = 3 }

abbrev broken : MirrorHealthTracker numbers text_discrete mirrors
broken = record {
  health = mirrors.insert mirrors.empty mirror disabled;
  failure_threshold = 3;
  recovery_timeout = 100;
}

is_disabled : mirrors.get broken.health mirror ≡ some disabled
is_disabled = ground (arith, mirrors.get-insert mirrors.empty mirror disabled mirror)

abbrev failing : Attempt numbers
failing = record { mirror_ok = false; origin_ok = true; now = 7; response_time = 9 }

attempts-available_example :
    (is_available numbers text_discrete mirrors
      (attempts numbers text_discrete mirrors tracker mirror
        (failing ∷ failing ∷ failing ∷ failing ∷ []))
      mirror
      8).0
    ≡ true
attempts-available_example =
    (attempts-available numbers text_discrete mirrors tracker mirror failing
      (failing ∷ failing ∷ failing ∷ []) 8 (refl, (refl, (refl, (refl, tt))))).0

get_best_mirror-NoneFaster_example :
    (((get_best_mirror numbers text_discrete mirrors broken (λ i. 31) (mirror ∷ codes "b" ∷ [])).0
        ≡ none)
      × ((available numbers text_discrete mirrors broken (λ i. 31) 0 (mirror ∷ codes "b" ∷ [])).0
          ≡ []))
    ⊎ ((best : Text) × ((get_best_mirror numbers text_discrete mirrors broken
            (λ i. 31)
            (mirror ∷ codes "b" ∷ [])).0
          ≡ some best)
        × StandsIn numbers text_discrete mirrors best
            (available numbers text_discrete mirrors broken (λ i. 31) 0 (mirror ∷ codes "b" ∷ [])).0
        × NoneFaster numbers text_discrete mirrors
            (get_best_mirror numbers text_discrete mirrors broken
              (λ i. 31)
              (mirror ∷ codes "b" ∷ [])).1
            best
            (available numbers text_discrete mirrors broken
              (λ i. 31)
              0
              (mirror ∷ codes "b" ∷ [])).0)
get_best_mirror-NoneFaster_example =
    get_best_mirror-NoneFaster numbers text_discrete mirrors (λ a. ground arith)
      (λ a b c h k. ground (arith, h, k)) broken (λ i. 31) (mirror ∷ codes "b" ∷ [])
