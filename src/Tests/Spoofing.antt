-- ===== src/Tests/Spoofing.antt =====
-- Runs of the race of connections with a false SNI.
use hakimi_hub.Prelude.{length, ◌*◌, ◌<◌, ◌≡◌, refl, true, false, some, List, [], ◌∷◌}
use hakimi_hub.Prelude.{length, ◌*◌, ◌<◌, ◌≡◌, refl, true, false, some, List, [], ◌∷◌}
use hakimi_hub.Dns.Ip.{IpAddr, v4}
use hakimi_hub.Mitm.Race.{
  Race, Event, Turn, start, after_failure, start_next, turn, Reach, here, next,
}
use hakimi_hub.Mitm.Race.Ends.{race-ends, race-gives_up}
use hakimi_hub.Mitm.Streaming
use hakimi_hub.Mitm.Streaming.Ends.{stream-ends, stream-all_failed, stream-no_branch}
use hakimi_hub.Prelude.{◌+◌, ◌≤◌, ◌≢◌}

abbrev two_candidates : List IpAddr
two_candidates = v4 140 82 112 3 ∷ v4 140 82 112 4 ∷ []

abbrev last_pending : Race
last_pending = record {
  pending = v4 140 82 112 3 ∷ [];
  next_idx = 2;
  more_candidates = false;
  failures = 1;
}

abbrev last_attempt : Reach two_candidates last_pending 2
unfolding start after_failure start_next turn
last_attempt = next (Event.completed 0 false) (next Event.delay_over (here refl) refl) refl

gives_up : turn two_candidates last_pending (Event.completed 0 false) ≡ some Turn.all_failed
unfolding after_failure turn
gives_up = refl

connects :
    turn two_candidates last_pending (Event.completed 0 true)
    ≡ some (Turn.connected (v4 140 82 112 3))
unfolding turn
connects = refl

race-ends_example : 2 < 2 * length two_candidates
race-ends_example = race-ends last_attempt

race-gives_up_example : 2 ≡ length two_candidates
race-gives_up_example = race-gives_up (Event.completed 0 false) last_attempt gives_up

abbrev worked : List IpAddr
worked = v4 140 82 112 3 ∷ []

abbrev begun : Streaming.Streaming
begun = record {
  pending = worked;
  seen_ips = worked;
  ip_rx = false;
  dns_started = false;
  dns_done = false;
  trial_deadline = true;
}

abbrev trying : Streaming.Reach worked begun 0 0
unfolding Streaming.begin_stream
trying = Streaming.here

abbrev unanswered : Streaming.Streaming
unanswered = record {
  pending = [];
  seen_ips = v4 140 82 112 3 ∷ [];
  ip_rx = true;
  dns_started = true;
  dns_done = false;
  trial_deadline = true;
}

abbrev tried : Streaming.Reach worked unanswered 2 0
unfolding Streaming.begin_stream Streaming.turn
tried =
    Streaming.next Streaming.Event.trial_over
      (Streaming.next (Streaming.Event.completed 0 false) Streaming.here refl) refl

abbrev answered : Streaming.Reach worked (Streaming.on_resolved unanswered (v4 140 82 112 4)) 3 1
unfolding Streaming.turn
answered = Streaming.next (Streaming.Event.resolved (v4 140 82 112 4)) tried refl

stream-ends_example : 3 ≤ length worked + 2 * 1 + 1
stream-ends_example = stream-ends answered

stream-all_failed_example :
    Streaming.turn begun (Streaming.Event.completed 0 false) ≢ some Streaming.Turn.all_failed
stream-all_failed_example = stream-all_failed (Streaming.Event.completed 0 false) trying

no_answer : Streaming.turn unanswered Streaming.Event.no_branch ≡ some Streaming.Turn.no_address
unfolding Streaming.turn
no_answer = refl

stream-no_branch_example :
    (Streaming.Turn.no_address ≡ Streaming.Turn.no_address)
    × (unanswered.dns_started ≡ true)
    × (unanswered.pending ≡ [])
stream-no_branch_example = stream-no_branch tried no_answer
