-- ===== src/Intercepts/Mirrors/Recovery.antt =====
-- The life of a mirror: when it is disabled, and when it is available again.
use hakimi_hub.Prelude.{
  leb, if◌then◌else◌, Bool-cases, length, get_elem?, ℕ, suc, ◌+◌, ◌-◌, ◌%◌, ◌^◌, ◌<◌, ◌≡◌, refl, ap,
  ◌∙◌, inl, inr, true, ◌||◌, none, some, List, [], ◌∷◌, arith,
}
use hakimi_hub.Prelude.Str.{Text}
use Prim.Native.Nat.{max}
use hakimi_hub.Utils.Containers.{MapOps}
use hakimi_hub.Intercepts.Mirrors.{
  F64, MirrorHealth, MirrorHealthTracker, default, on_failure, on_success, new, entry,
  record_failure, record_success, recovered, is_available,
}

module _ (F : F64) where
  -- Failures one after another on an entry.
  unfoldable fail_all : ℕ → MirrorHealth F → List ℕ → MirrorHealth F
  fail_all k h [] = h
  fail_all k h (now ∷ times) = fail_all k (on_failure F k h now) times

  fail_all-disabled :
      (k : ℕ) (h : MirrorHealth F) (times : List ℕ) (at : ℕ)
      → h.disabled_at ≡ some at
      → (fail_all k h times).disabled_at ≡ some at
  unfolding fail_all on_failure
  fail_all-disabled k h [] at e = e
  fail_all-disabled k h (now ∷ times) at e =
      fail_all-disabled k (on_failure F k h now) times at (ground (arith, e))

  fail_all-enabled :
      (k c : ℕ) (h : MirrorHealth F) (times : List ℕ)
      → h.consecutive_failures ≡ c
      → h.disabled_at ≡ none
      → c < k
      → c + length times < 2 ^ 32
      → (fail_all k h times).disabled_at ≡ get_elem? times (k - suc c)
  unfolding fail_all on_failure
  fail_all-enabled k c h [] e f l b = f
  fail_all-enabled k c h (now ∷ times) e f l b =
      let n : (h.consecutive_failures + 1) % 2 ^ 32 ≡ suc c = ground (arith, e, b) in
      elim (Bool-cases (leb k (suc c))) [
        | inl q ↦
            let z : k - suc c ≡ 0 = ground (arith, q) in
            rw z (fail_all-disabled k (on_failure F k h now) times now (ground (arith, n, f, q)))
        | inr q ↦
            let z : k - suc c ≡ suc (k - suc (suc c)) = ground (arith, q, l) in
            rw z (
              fail_all-enabled k (suc c) (on_failure F k h now) times n (ground (arith, n, f, q))
                (ground (arith, q)) (omega (arith, b)))
      ]

  module _ (dec : Discrete Text) (M : MapOps dec (MirrorHealth F)) where
    unfoldable pub record_failures :
        MirrorHealthTracker F dec M → Text → List ℕ → MirrorHealthTracker F dec M
    record_failures t mirror [] = t
    record_failures t mirror (now ∷ times) =
        record_failures (record_failure F dec M t mirror now) mirror times

    entry-record_failure :
        (t : MirrorHealthTracker F dec M) (mirror : Text) (now : ℕ)
        → entry F dec M (record_failure F dec M t mirror now) mirror
          ≡ on_failure F t.failure_threshold (entry F dec M t mirror) now
    unfolding entry record_failure
    entry-record_failure t mirror now = ground (
      arith,
      M.get-insert t.health mirror (on_failure F t.failure_threshold (entry F dec M t mirror) now)
          mirror,
    )

    entry-record_failures :
        (t : MirrorHealthTracker F dec M) (mirror : Text) (times : List ℕ)
        → entry F dec M (record_failures t mirror times) mirror
          ≡ fail_all t.failure_threshold (entry F dec M t mirror) times
    unfolding record_failures fail_all record_failure
    entry-record_failures t mirror [] = refl
    entry-record_failures t mirror (now ∷ times) =
        entry-record_failures (record_failure F dec M t mirror now) mirror times
        ∙ ap (λ h. fail_all t.failure_threshold h times) (entry-record_failure t mirror now)

    -- On a new tracker, a mirror that fails without a success in between is disabled by the failure
    -- that reaches the threshold (at least one), since the time of that failure, and by no earlier
    -- one; further failures do not move that time. Below 2^32 failures.
    pub record_failures-disabled_at :
        (failure_threshold secs : ℕ) (mirror : Text) (times : List ℕ)
        → length times < 2 ^ 32
        → (entry F dec M
            (record_failures (new F dec M failure_threshold secs) mirror times)
            mirror).disabled_at
          ≡ get_elem? times (max failure_threshold 1 - 1)
    unfolding new entry
    record_failures-disabled_at failure_threshold secs mirror times b =
        let t = new F dec M failure_threshold secs in
        let e : entry F dec M t mirror ≡ default F = ground (arith, M.get-empty mirror) in
        ap (λ h. h.disabled_at) (entry-record_failures t mirror times)
        ∙ fail_all-enabled t.failure_threshold 0 (entry F dec M t mirror) times (rw e refl)
            (rw e refl) (omega arith) (omega (arith, b))

    -- A mirror that is disabled is available exactly from the end of its time-out on, and the test
    -- that finds it so takes its failures away; a later test finds it available if the time-out
    -- was over at either of the two.
    pub is_available-timeout :
        (t : MirrorHealthTracker F dec M) (mirror : Text) (h : MirrorHealth F) (at now later : ℕ)
        → M.get t.health mirror ≡ some h
        → h.disabled_at ≡ some at
        → ((is_available F dec M t mirror now).0 ≡ leb t.recovery_timeout (now - at))
          × ((entry F dec M (is_available F dec M t mirror now).1 mirror).consecutive_failures
              ≡ (if leb t.recovery_timeout (now - at) then 0 else h.consecutive_failures))
          × ((is_available F dec M (is_available F dec M t mirror now).1 mirror later).0
              ≡ (leb t.recovery_timeout (now - at) || leb t.recovery_timeout (later - at)))
    unfolding is_available recovered entry
    is_available-timeout t mirror h at now later e f =
        let g =
          M.get-insert t.health mirror (record h { disabled_at = none; consecutive_failures = 0 })
            mirror in
        (ground (arith, e, f), ground (arith, e, f, g), ground (arith, e, f, g))

    -- A success makes a mirror available whatever went before, with no failures counted.
    pub record_success-available :
        (t : MirrorHealthTracker F dec M) (mirror : Text) (ms : F.Carrier) (now : ℕ)
        → ((is_available F dec M (record_success F dec M t mirror ms) mirror now).0 ≡ true)
          × ((entry F dec M (record_success F dec M t mirror ms) mirror).consecutive_failures ≡ 0)
    unfolding is_available record_success entry on_success
    record_success-available t mirror ms now =
        let s = on_success F (entry F dec M t mirror) ms in
        (
          ground (arith, M.get-insert t.health mirror s mirror),
          ground (arith, M.get-insert t.health mirror s mirror),
        )
