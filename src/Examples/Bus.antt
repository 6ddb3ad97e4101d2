-- ===== src/Examples/Bus.antt =====
-- internal/bus at concrete inputs.
use aicrme.Prelude.{
  ℕ, ◌+◌, ◌≡◌, ◌↔◌, refl, String, true, false, List, [], ◌∷◌, ◌++◌, some, arith, drop, length,
}
use aicrme.Bus.Event.{Event, zero_event}
use aicrme.Bus.Cluster.{ClusterData, Severity, supersedes}
use aicrme.Bus.Cluster.Order.{SameCondition, Later, supersedes-iff_Later}
use aicrme.Bus.Hub.{new, publish, retain, subscriber_buffer, since, subscribe, channel_of}
use aicrme.Bus.Hub.History.{publish_all, stamp_from}
use aicrme.Bus.Hub.Replay.{hub_after, since_exact, subscribe_lossless}

abbrev said : String → Event
said message = record zero_event { message = message }

-- Three events, at the times 10, 11 and 12.
abbrev three : List (ℕ × Event)
three = (10, said "a") ∷ (11, said "b") ∷ (12, said "c") ∷ []

abbrev two_more : List (ℕ × Event)
two_more = (13, said "d") ∷ (14, said "e") ∷ []

-- With room for two, the third event has overwritten the first.
since_exact_example : since 0 (hub_after 2 "epoch" three) ≡ drop 1 (stamp_from 0 three)
since_exact_example = since_exact 2 "epoch" three 0 (omega arith)

three_numbered : (hub_after 2 "epoch" three).next_id ≡ 3
unfolding publish_all publish retain new
three_numbered = refl

subscribe_lossless_example :
    channel_of 0 (publish_all two_more (subscribe 2 (hub_after 2 "epoch" three)).0).subs
    ≡ some (record {
      queue =
          since 2 (hub_after 2 "epoch" three)
          ++ stamp_from (hub_after 2 "epoch" three).next_id two_more;
      size = length (since 2 (hub_after 2 "epoch" three)) + subscriber_buffer;
    })
unfolding subscribe new publish_all publish retain
subscribe_lossless_example =
    subscribe_lossless 2 two_more (hub_after 2 "epoch" three) (omega (arith, three_numbered))
      (omega arith)

abbrev condition : Severity → ClusterData
condition severity = record {
  kind = "node";
  namespace = "";
  name = "gpu-0";
  uid = "uid-1";
  container = "";
  reason = "NotReady";
  ready = 0;
  desired = 1;
  severity = severity;
  resolved = false;
  at = 5;
}

abbrev observed : ClusterData
observed = condition Severity.warn

abbrev worse : ClusterData
worse = condition Severity.err

abbrev recovered : ClusterData
recovered = record worse { resolved = true; at = 6 }

supersedes-iff_Later_example :
    (supersedes recovered worse ≡ true) ↔ (SameCondition recovered worse × Later recovered worse)
supersedes-iff_Later_example = supersedes-iff_Later recovered worse
