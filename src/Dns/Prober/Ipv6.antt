-- ===== src/Dns/Prober/Ipv6.antt =====
-- src/dns/ip_prober.rs: IPv6 is disabled for a while after failures in a row.
use hakimi_hub.Prelude.{
  leb, ◌==◌, if◌then◌else◌, Bool-cases, ℕ, ◌+◌, ◌%◌, ◌^◌, ◌<◌, ◌≡◌, refl, inl, inr, true, false,
  none, some, List, [], ◌∷◌, arith,
}
use hakimi_hub.Prelude.Str.{Text}
use hakimi_hub.Utils.Containers.{MapOps, LruOps}
use hakimi_hub.Utils.Evictable.{Entry}
use hakimi_hub.Dns.Prober.{
  IpProber, BestIpValue, Ipv6Status, should_probe_ipv6, record_ipv6_probe_result,
}

module _ (dec : Discrete Text) (M : MapOps dec (Entry BestIpValue)) (L : LruOps dec) where
  abbrev pub Prober : Type 0
  Prober = IpProber dec M L

  -- Failures in a row, each at its instant, the last one first.
  abbrev pub failures : Prober → List ℕ → Prober
  failures p [] = p
  failures p (now ∷ earlier) = record_ipv6_probe_result dec M L (failures p earlier) false now

  -- The status after one more failure.
  abbrev pub failed_status : Prober → ℕ → Ipv6Status
  failed_status p now =
      let count = (p.ipv6_status.consecutive_failures + 1) % 2 ^ 32 in
      record {
        consecutive_failures = count;
        disabled_until =
            if leb p.ipv6_failure_threshold count
            then some (now + p.ipv6_recovery_duration)
            else p.ipv6_status.disabled_until;
      }

  pub positive_test : (n : ℕ) → 0 < n → (n == 0) ≡ false
  positive_test n h = ground (arith, h)

  pub record-failed :
      (p : Prober) (now : ℕ)
      → 0 < p.ipv6_failure_threshold
      → record_ipv6_probe_result dec M L p false now
        ≡ record p { ipv6_status = failed_status p now }
  unfolding record_ipv6_probe_result
  record-failed p now h = rw (positive_test p.ipv6_failure_threshold h) refl

  -- What is left as it was, the count, and the term.
  record After (p : Prober) (n now : ℕ) (q : Prober) : Type 0 where
    counted : q.ipv6_status.consecutive_failures ≡ n
    threshold : q.ipv6_failure_threshold ≡ p.ipv6_failure_threshold
    recovery : q.ipv6_recovery_duration ≡ p.ipv6_recovery_duration
    enabled : q.ipv6_enabled ≡ p.ipv6_enabled
    term :
        q.ipv6_status.disabled_until
        ≡ (if leb p.ipv6_failure_threshold n then some (now + p.ipv6_recovery_duration) else none)

  abbrev last_or : ℕ → List ℕ → ℕ
  last_or t [] = t
  last_or t (now ∷ earlier) = now

  -- A success ends the term at once, whatever was recorded before.
  pub should_probe_ipv6-success :
      (p : Prober) (now later : ℕ)
      → p.ipv6_enabled ≡ true
      → should_probe_ipv6 dec M L (record_ipv6_probe_result dec M L p true now) later ≡ true
  unfolding should_probe_ipv6 record_ipv6_probe_result
  should_probe_ipv6-success p now later e = elim (Bool-cases (p.ipv6_failure_threshold == 0)) [
    | inl z ↦ rw z (rw e (rw z refl))
    | inr z ↦ rw z (rw e (rw z refl))
  ]
