-- ===== src/Proxy/Fallback.antt =====
-- src/proxy/handler.rs: the connection to a mirror, the fallback to the original host, and what
-- both do to the mirror's health.
use hakimi_hub.Prelude.{if◌then◌else◌, Bool-cases, All, ℕ, ◌≡◌, inl, inr, Bool, true, List, [], ◌∷◌}
use hakimi_hub.Prelude.Str.{Text}
use hakimi_hub.Utils.Containers.{MapOps}
use hakimi_hub.Intercepts.Mirrors.{
  F64, MirrorHealth, MirrorHealthTracker, entry, record_failure, record_success, is_available,
}
use hakimi_hub.Intercepts.Mirrors.Recovery.{record_success-available}

-- Where the rewritten request is written to, if anywhere.
pub data Connected : Type 0 where
  to_mirror to_origin nowhere : Connected

-- What an attempt meets: whether each of the two connections can be made, the clock at a failure,
-- and the response time.
pub record Attempt (F : F64) : Type 0 where
  pub mirror_ok : Bool
  pub origin_ok : Bool
  pub now : ℕ
  pub response_time : F.Carrier

module _ (F : F64) (dec : Discrete Text) (M : MapOps dec (MirrorHealth F)) where
  unfoldable pub connect_mirror :
      MirrorHealthTracker F dec M → Text → Attempt F → Connected × MirrorHealthTracker F dec M
  unfolding record_failure record_success
  connect_mirror t mirror a =
      if a.mirror_ok
      then (Connected.to_mirror, record_success F dec M t mirror a.response_time)
      else let failed = record_failure F dec M t mirror a.now in
        if a.origin_ok
        then (Connected.to_origin, record_success F dec M failed mirror a.response_time)
        else (Connected.nowhere, failed)

  unfoldable pub attempts :
      MirrorHealthTracker F dec M → Text → List (Attempt F) → MirrorHealthTracker F dec M
  unfolding connect_mirror
  attempts t mirror [] = t
  attempts t mirror (a ∷ more) = attempts (connect_mirror t mirror a).1 mirror more

  -- After an attempt that reached either host the mirror is available, with no failure counted.
  connect_mirror-available :
      (t : MirrorHealthTracker F dec M) (mirror : Text) (a : Attempt F) (now : ℕ)
      → a.origin_ok ≡ true
      → ((is_available F dec M (connect_mirror t mirror a).1 mirror now).0 ≡ true)
        × ((entry F dec M (connect_mirror t mirror a).1 mirror).consecutive_failures ≡ 0)
  unfolding connect_mirror
  connect_mirror-available t mirror a now h = elim (Bool-cases a.mirror_ok) [
    | inl e ↦
        let s = record_success-available F dec M t mirror a.response_time now in rw e (s.0, s.1)
    | inr e ↦
        let s =
          record_success-available F dec M (record_failure F dec M t mirror a.now) mirror
            a.response_time now in
        rw (e, h) (s.0, s.1)
  ]

  -- A mirror that cannot be reached is never disabled while the original host can: however many
  -- attempts fail over to that host, at least one, the mirror is available and has no failure
  -- counted, since the success of the fallback is recorded for the mirror.
  pub attempts-available :
      (t : MirrorHealthTracker F dec M) (mirror : Text) (a : Attempt F) (more : List (Attempt F))
      (now : ℕ)
      → All (λ b. b.origin_ok ≡ true) (a ∷ more)
      → ((is_available F dec M (attempts t mirror (a ∷ more)) mirror now).0 ≡ true)
        × ((entry F dec M (attempts t mirror (a ∷ more)) mirror).consecutive_failures ≡ 0)
  unfolding attempts
  attempts-available t mirror a [] now h = connect_mirror-available t mirror a now h.0
  attempts-available t mirror a (b ∷ more) now h =
      attempts-available (connect_mirror t mirror a).1 mirror b more now h.1
