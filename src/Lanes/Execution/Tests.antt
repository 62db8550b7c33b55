-- ===== src/Lanes/Execution/Tests.antt =====
-- memu/lane_lock.py: the theorems on lanes at concrete buckets.
use fumemory.Base.{ℕ, String, ◌≡◌, refl, true, Option, none, some, [], ◌∷◌, ok, err}
use fumemory.Base.Dict.{get, put, remove}
use fumemory.Hardening.{
  len, has_wildcard, is_safe_char, matches_rest, matches_safe, sanitize_nats_subject,
}
use fumemory.Nats.KeyValue.{KeyValue}
use fumemory.Nats.Values.{value_of}
use fumemory.Nats.Memory.{memory, empty}
use fumemory.Lanes.Model.{LaneValue, LaneLock, other, Task, World, Executor, publish}
use fumemory.Lanes.Acquire.{lock_data, advance, advances, outcome, acquire_lane}
use fumemory.Lanes.Acquire.Steps.{claimed}
use fumemory.Lanes.Acquire.Laws.{acquire_taken}
use fumemory.Lanes.Execution.{release_all, run, hydrate, with_lock, Agent}
use fumemory.Lanes.Execution.Release.{release_all_lem, AllForeign, IsLock, Holds, payload_at}
use fumemory.Lanes.Execution.Failure.{run_committed, Current}

abbrev Lanes : KeyValue LaneValue
Lanes = memory LaneValue

abbrev Counters : KeyValue (Option ℕ)
Counters = memory (Option ℕ)

abbrev start : World Lanes Counters
start = record { lanes = empty LaneValue; fencing = empty (Option ℕ); events = [] }

abbrev job : Task
job = record {
  task_id = "t";
  resource_lanes = "l" ∷ [];
  rollback_instruction = some "undo";
  checkpoint_state = none;
  failure_count = 2;
  last_error = none;
}

abbrev agent_x : Executor
agent_x = record {
  gateway_id = "g";
  task = job;
  connected = true;
  acquired_locks = [];
  checkpoint_seq = 0;
}

abbrev lock_l : LaneLock
lock_l = claimed 7 agent_x "l" 1

abbrev holding : Executor
holding = with_lock agent_x lock_l

abbrev after : World Lanes Counters
after = (acquire_lane Lanes Counters 7 agent_x "l" start).1

acquire_taken_example : sanitize_nats_subject "l" ≡ ok "l"
unfolding acquire_lane sanitize_nats_subject len has_wildcard matches_safe matches_rest is_safe_char
    advance advances outcome publish get put remove lock_data
acquire_taken_example = (acquire_taken {N = Lanes} {F = Counters} 7 agent_x "l" start lock_l refl).0

release_all_lem_example :
    (AllForeign holding (lock_l ∷ []) "l" (payload_at (value_of (Lanes.get after.lanes "l")))
      → value_of (Lanes.get (release_all Lanes Counters holding after).1.lanes "l")
        ≡ value_of (Lanes.get after.lanes "l"))
    × ((lock : LaneLock)
        → Holds lock (lock_l ∷ [])
        → ◌≡◌ {A = String} lock.lane_id "l"
        → IsLock holding lock (payload_at (value_of (Lanes.get after.lanes "l")))
        → value_of (Lanes.get (release_all Lanes Counters holding after).1.lanes "l") ≡ none)
unfolding with_lock
release_all_lem_example = release_all_lem {N = Lanes} {F = Counters} holding after "l"

abbrev fails : Agent Lanes Counters
fails x w = (err (other "ValueError"), x, w)

abbrev works : Agent Lanes Counters
works x w = (ok "done", x, w)

run_committed_example : Current Counters after.fencing (lock_l ∷ [])
unfolding hydrate run with_lock get acquire_lane sanitize_nats_subject advance publish put
run_committed_example = (run_committed {N = Lanes} {F = Counters} works holding after "done" refl).2

-- The second lane is refused, and the first stays held.
abbrev two_lanes : Executor
two_lanes = record agent_x { task = record job { resource_lanes = "l" ∷ "a*" ∷ [] } }
