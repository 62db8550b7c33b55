-- ===== src/Lanes/Execution.antt =====
-- memu/lane_lock.py: the methods of `LaneLockedExecution` over the buckets.
-- `clock i` is the time that the i-th reading of the clock gives.
pub mod Release
pub mod Entering
pub mod Failure
mod Tests
use fumemory.Base.{
  ℕ, zero, suc, ◌+◌, ◌-◌, ◌/◌, ◌==◌, ltb, String, str_eq, Bool, true, false, ◌&&◌, Option, none,
  some, List, [], ◌∷◌, ◌++◌, map, Result, ok, err, if◌then◌else◌,
}
use fumemory.Nats.KeyValue.{KeyValue, Entry}
use fumemory.Lanes.Model.{
  lane_ttl, Payload, LaneValue, blank, garbled, payload, LaneLock, Raised, bad_json, fencing_token,
  other, is_structural, Task, is_poison_pill, Event, lane_released, heartbeat, checkpoint_saved,
  task_hydrated, task_completed, task_failed, rollback_executed, dlq_enqueued, task_orphaned, World,
  Executor, is_text, is_token, publish,
}
use fumemory.Lanes.Acquire.{acquire_lane}

-- `_get_lock_state`: the payload, if there is a value; text that is no JSON raises.
unfoldable pub lock_state : Option (Entry LaneValue) → Result Raised (Option Payload)
lock_state none = ok none
lock_state (some e) = elim e.value [
  | blank ↦ ok none
  | garbled ↦ err bad_json
  | payload p ↦ ok (some p)
]

-- The test of `_release_all_lanes`: still this gateway's lock, for this task, under this token.
unfoldable pub is_ours : Executor → LaneLock → Option Payload → Bool
is_ours x lock none = false
is_ours x lock (some p) =
    is_text p.gateway_id x.gateway_id
    && (is_text p.task_id x.task.task_id && is_token p.fencing_token lock.fencing_token)

-- `list(self.task.resource_lanes)`, or the synthetic lane of the task.
unfoldable pub lanes_of : (String → String) → Task → List String
lanes_of task_lane t = elim t.resource_lanes [ [] ↦ task_lane t.task_id ∷ [] | l ∷ ls ↦ l ∷ ls ]

unfoldable pub with_lock : Executor → LaneLock → Executor
with_lock x lock = record x { acquired_locks = x.acquired_locks ++ lock ∷ [] }

-- A counter that is missing, or is no number, raises an exception that is not structural.
read_counter : Option (Entry (Option ℕ)) → Result Raised ℕ
read_counter none = err (other "KeyNotFoundError")
read_counter (some e) = elim e.value [ none ↦ err (other "ValueError") | some n ↦ ok n ]

module _ (N : KeyValue LaneValue) (F : KeyValue (Option ℕ)) where
  -- The loop of `_acquire_all_lanes`; an exception leaves it, with what was acquired before.
  unfoldable pub acquire_each :
      (ℕ → ℕ) → ℕ → List String → Executor → World N F → Option Raised × Executor × World N F
  acquire_each clock i [] x w = (none, x, w)
  acquire_each clock i (lane ∷ lanes) x w = elim (acquire_lane N F (clock i) x lane w).0 [
    | err e ↦ (some e, x, (acquire_lane N F (clock i) x lane w).1)
    | ok lock ↦
        acquire_each clock (suc i) lanes (with_lock x lock) (acquire_lane N F (clock i) x lane w).1
  ]

  release_lane : Executor → LaneLock → World N F → World N F
  release_lane x lock w = elim (lock_state (N.get w.lanes lock.lane_id)) [
    | err e ↦ w
    | ok p ↦
        if is_ours x lock p
        then publish x (lane_released lock.lane_id lock.fencing_token)
            (record w { lanes = N.delete w.lanes lock.lane_id })
        else w
  ]

  release_each : Executor → List LaneLock → World N F → World N F
  release_each x [] w = w
  release_each x (lock ∷ locks) w = release_each x locks (release_lane x lock w)

  -- `_release_all_lanes`
  unfoldable pub release_all : Executor → World N F → Executor × World N F
  unfolding release_each release_lane lock_state is_ours
  release_all x w = (record x { acquired_locks = [] }, release_each x x.acquired_locks w)

  renewed : ℕ → Executor → LaneLock → Payload
  renewed now x lock = record {
    gateway_id = some x.gateway_id;
    task_id = some x.task.task_id;
    fencing_token = some lock.fencing_token;
    acquired_at = some now;
  }

  renew_payload : ℕ → Executor → LaneLock → Option Payload → World N F → Option Raised × World N F
  renew_payload now x lock none w = (some fencing_token, w)
  renew_payload now x lock (some p) w =
      if is_token p.fencing_token lock.fencing_token
      then (none, record w { lanes = N.put w.lanes lock.lane_id (payload (renewed now x lock)) })
      else (some fencing_token, w)

  -- `_renew_lane_lock`
  unfoldable pub renew_lane_lock : ℕ → Executor → LaneLock → World N F → Option Raised × World N F
  unfolding renew_payload renewed lock_state
  renew_lane_lock now x lock w = elim (lock_state (N.get w.lanes lock.lane_id)) [
    | err e ↦ (some e, w)
    | ok p ↦ renew_payload now x lock p w
  ]

  renew_each : ℕ → Executor → List LaneLock → World N F → Option Raised × World N F
  renew_each now x [] w = (none, w)
  renew_each now x (lock ∷ locks) w = elim (renew_lane_lock now x lock w).0 [
    | some e ↦ (some e, (renew_lane_lock now x lock w).1)
    | none ↦ renew_each now x locks (renew_lane_lock now x lock w).1
  ]

  prolong : ℕ → LaneLock → LaneLock
  prolong now lock = record lock { expires_at = now + lane_ttl }

  -- One round of `_heartbeat_loop`; an exception is logged, and the loop goes on at the next round.
  unfoldable pub heartbeat_round : ℕ → Executor → World N F → Executor × World N F
  unfolding renew_each prolong
  heartbeat_round now x w = elim (renew_each now x x.acquired_locks w).0 [
    | some e ↦ (x, (renew_each now x x.acquired_locks w).1)
    | none ↦ (
      record x { acquired_locks = map (prolong now) x.acquired_locks },
      publish x (heartbeat (map (λ (l : LaneLock). l.lane_id) x.acquired_locks))
          (renew_each now x x.acquired_locks w).1,
    )
  ]

  -- `save_checkpoint`
  unfoldable pub save_checkpoint : String → Executor → World N F → Executor × World N F
  save_checkpoint scratchpad x w =
      let n = x.checkpoint_seq + 1 in
      (record x { checkpoint_seq = n }, publish x (checkpoint_saved n scratchpad) w)

  -- `if self.task.rollback_instruction:`
  rollback : Executor → World N F → World N F
  rollback x w = elim x.task.rollback_instruction [
    | none ↦ w
    | some i ↦ if str_eq i "" then w else publish x (rollback_executed i) w
  ]

  -- `_handle_failure`
  unfoldable pub handle_failure : Raised → Executor → World N F → Executor × World N F
  unfolding rollback is_poison_pill
  handle_failure e x w =
      let failed : Task = record (x.task) {
        failure_count = x.task.failure_count + 1;
        last_error = some e;
      } in
      let x' : Executor = record x { task = failed } in
      let w' = publish x' (task_failed e failed.failure_count) (rollback x' w) in
      (x', if is_poison_pill failed then publish x' (dlq_enqueued failed.failure_count) w' else w')

  -- The loop of `run` that validates the fencing tokens before the commit.
  validate : List LaneLock → World N F → Option Raised
  validate [] w = none
  validate (lock ∷ locks) w =
      let rest = validate locks w in
      elim (read_counter (F.get w.fencing lock.lane_id)) [
        | err e ↦ some e
        | ok current ↦ if current == lock.fencing_token then rest else some fencing_token
      ]

  abbrev pub Agent : Type 0
  Agent = Executor → World N F → Result Raised String × Executor × World N F

  -- The handlers of `run`: what is structural passes, anything else is handled and passes too.
  unfoldable pub raise_from_run :
      Raised → Executor → World N F → Result Raised String × Executor × World N F
  raise_from_run e x w =
      if is_structural e
      then (err e, x, w)
      else (err e, (handle_failure e x w).0, (handle_failure e x w).1)

  commit : Result Raised String → Executor → World N F → Result Raised String × Executor × World N F
  commit (err e) x w = raise_from_run e x w
  commit (ok result) x w = elim (validate x.acquired_locks w) [
    | some e ↦ raise_from_run e x w
    | none ↦ (ok result, x, publish x (task_completed result) w)
  ]

  pub hydrate : Executor → World N F → World N F
  hydrate x w = elim x.task.checkpoint_state [ none ↦ w | some c ↦ publish x (task_hydrated c) w ]

  -- `run`: the agent works on the world as the hydration left it.
  unfoldable pub run : Agent → Executor → World N F → Result Raised String × Executor × World N F
  unfolding commit validate read_counter hydrate raise_from_run
  run agent x w = let (r, x', w') = agent x (hydrate x w) in commit r x' w'

  -- `__aexit__`: the second part says whether the exception is suppressed.
  unfoldable pub aexit : Option Raised → Executor → World N F → Bool × Executor × World N F
  aexit none x w = (false, (release_all x w).0, (release_all x w).1)
  aexit (some e) x w =
      let (x', w') = release_all x w in
      (true, (handle_failure e x' w').0, (handle_failure e x' w').1)

  leave : Result Raised String × Executor × World N F → Option String × Executor × World N F
  leave (ok result, x, w) = (some result, (aexit none x w).1, (aexit none x w).2)
  leave (err e, x, w) = (none, (aexit (some e) x w).1, (aexit (some e) x w).2)

  -- `async with LaneLockedExecution(...) as executor: await executor.run(agent)`, once the lanes
  -- are acquired.
  unfoldable pub run_in_context :
      Agent → Executor → World N F → Option String × Executor × World N F
  unfolding leave aexit
  run_in_context agent x w = leave (run agent x w)

  -- `__aenter__` raises what the acquisition raises; nothing is released then.
  unfoldable pub aenter :
      (String → String) → (ℕ → ℕ) → Executor → World N F → Option Raised × Executor × World N F
  aenter task_lane clock x w = acquire_each clock 0 (lanes_of task_lane x.task) x w
