-- ===== src/Lanes/Execution/Failure.antt =====
-- memu/lane_lock.py: `_handle_failure`, the commit of `run`, and how failures are counted.
use mathlib.Core.List.{append-nil, append_assoc}
use fumemory.Base.{
  ℕ, ◌+◌, leb, String, str_eq, ◌≡◌, refl, ap, ◌∙◌, true, false, Option, none, some, Option-cases,
  Bool-cases, Result-cases, List, [], ◌∷◌, ◌++◌, Result, ok, err, arith, inl, inr, if◌then◌else◌,
}
use fumemory.Nats.KeyValue.{KeyValue, Entry}
use fumemory.Nats.Values.{value_of}
use fumemory.Lanes.Model.{
  LaneValue, LaneLock, Raised, is_structural, is_poison_pill, Event, task_completed, task_failed,
  rollback_executed, dlq_enqueued, World, Executor, publish,
}
use fumemory.Lanes.Execution.{
  Agent, handle_failure, rollback, raise_from_run, release_all, run, run_in_context, read_counter,
  validate, commit, hydrate,
}

unfoldable pub rollback_events : Option String → List Event
rollback_events none = []
rollback_events (some i) = if str_eq i "" then [] else rollback_executed i ∷ []

unfoldable pub dlq_events : ℕ → List Event
dlq_events n = if leb 3 n then dlq_enqueued n ∷ [] else []

-- The counter of every lock's lane is the lock's token.
abbrev pub Current : (F : KeyValue (Option ℕ)) → F.Bucket → List LaneLock → Type 0
Current F b [] = Unit
Current F b (lock ∷ locks) =
    (value_of (F.get b lock.lane_id) ≡ some (some lock.fencing_token)) × Current F b locks

read_counter_ok :
    (o : Option (Entry (Option ℕ))) (n : ℕ) → read_counter o ≡ ok n → value_of o ≡ some (some n)
unfolding read_counter
read_counter_ok none n h = cc
read_counter_ok (some e) n h = ground arith

module _ {N : KeyValue LaneValue} {F : KeyValue (Option ℕ)} where
  events-publish :
      (x : Executor) (e : Event) (w : World N F)
      → x.connected ≡ true
      → (publish x e w).events ≡ w.events ++ e ∷ []
  unfolding publish
  events-publish x e w on = ground arith

  lanes-publish : (x : Executor) (e : Event) (w : World N F) → (publish x e w).lanes ≡ w.lanes
  unfolding publish
  lanes-publish x e w = ground arith

  fencing-publish : (x : Executor) (e : Event) (w : World N F) → (publish x e w).fencing ≡ w.fencing
  unfolding publish
  fencing-publish x e w = ground arith

  rollback-events :
      (x : Executor) (w : World N F)
      → x.connected ≡ true
      → (rollback N F x w).events ≡ w.events ++ rollback_events x.task.rollback_instruction
  unfolding rollback publish rollback_events
  rollback-events x w on = elim (Option-cases x.task.rollback_instruction) [
    | inl e ↦ ground (arith, append-nil w.events)
    | inr (i, e) ↦ ground (arith, append-nil w.events)
  ]

  rollback-quiet :
      (x : Executor) (w : World N F)
      → ((rollback N F x w).lanes ≡ w.lanes)
        × ((rollback N F x w).fencing ≡ w.fencing)
        × (x.connected ≡ false → (rollback N F x w).events ≡ w.events)
  unfolding rollback publish
  rollback-quiet x w = elim (Option-cases x.task.rollback_instruction) [
    | inl e ↦ (ground arith, ground arith, λ off. ground arith)
    | inr (i, e) ↦ (ground arith, ground arith, λ off. ground arith)
  ]

  -- The rest of a failure, for the executor `x'` with the failed task.
  finish : Raised → Executor → World N F → World N F
  finish e x' w =
      let w' = publish x' (task_failed e x'.task.failure_count) (rollback N F x' w) in
      if is_poison_pill x'.task then publish x' (dlq_enqueued x'.task.failure_count) w' else w'

  events-finish :
      (e : Raised) (x' : Executor) (w : World N F)
      → x'.connected ≡ true
      → (finish e x' w).events
        ≡ w.events
          ++ rollback_events x'.task.rollback_instruction
          ++ task_failed e x'.task.failure_count ∷ dlq_events x'.task.failure_count
  events-finish e x' w on =
      last
      ∙ ap (λ es. es ++ dlq_events n)
          (events-publish x' (task_failed e n) (rollback N F x' w) on
            ∙ ap (λ es. es ++ task_failed e n ∷ []) (rollback-events x' w on))
      ∙ simp append_assoc
    where
      n : ℕ
      n = x'.task.failure_count

      failed : World N F
      failed = publish x' (task_failed e n) (rollback N F x' w)

      last : (finish e x' w).events ≡ failed.events ++ dlq_events n
      last =
          unfold finish is_poison_pill dlq_events in
          ground (arith, events-publish x' (dlq_enqueued n) failed on, append-nil failed.events)

  finish-quiet :
      (e : Raised) (x' : Executor) (w : World N F)
      → ((finish e x' w).lanes ≡ w.lanes)
        × ((finish e x' w).fencing ≡ w.fencing)
        × (x'.connected ≡ false → (finish e x' w).events ≡ w.events)
  unfolding finish publish
  finish-quiet e x' w = (
    ground (arith, rollback-quiet x' w),
    ground (arith, rollback-quiet x' w),
    λ off. ground (arith, (rollback-quiet x' w).2 off),
  )

  -- A failure counts once, keeps the rest of the executor and both buckets, and publishes exactly
  -- its events if the gateway is connected: the rollback if there is an instruction, the failure
  -- with its new number, and from the third failure on the dead letter queue.
  pub handle_failure_lem :
      (x : Executor) (w : World N F) (e : Raised)
      → let (x', w') = handle_failure N F e x w in
        let n = x.task.failure_count + 1 in
        (x' ≡ record x { task = record (x.task) { failure_count = n; last_error = some e } })
        × (w'.lanes ≡ w.lanes)
        × (w'.fencing ≡ w.fencing)
        × (x.connected ≡ true
            → w'.events
              ≡ w.events
                ++ rollback_events x.task.rollback_instruction
                ++ task_failed e n ∷ dlq_events n)
        × (x.connected ≡ false → w'.events ≡ w.events)
  unfolding handle_failure finish
  handle_failure_lem x w e = (
    refl,
    (finish-quiet e failed w).0,
    (finish-quiet e failed w).1,
    events-finish e failed w,
    (finish-quiet e failed w).2,
  )
    where
      failed : Executor
      failed = record x {
        task = record (x.task) { failure_count = x.task.failure_count + 1; last_error = some e };
      }

  acquired_locks-release_all :
      (x : Executor) (w : World N F) → (release_all N F x w).0 ≡ record x { acquired_locks = [] }
  unfolding release_all
  acquired_locks-release_all x w = refl

  run_raised :
      (agent : Agent N F) (x : Executor) (w v : World N F) (x' : Executor) (e : Raised)
      → agent x (hydrate N F x w) ≡ (err e, x', v)
      → run N F agent x w ≡ raise_from_run N F e x' v
  unfolding run
  run_raised agent x w v x' e h = rw h

  -- Under `async with`, an agent that raises what is not structural fails twice: `run` counts the
  -- exception and raises it again, and `__aexit__` counts it once more. A structural exception is
  -- counted once, by `__aexit__`. Either way the exception ends there, and no lock is held.
  run_in_context_failed :
      (agent : Agent N F) (x : Executor) (w v : World N F) (x' : Executor) (e : Raised)
      → agent x (hydrate N F x w) ≡ (err e, x', v)
      → let out = run_in_context N F agent x w in
        (out.0 ≡ none)
        × (out.1.acquired_locks ≡ [])
        × (out.1.task.failure_count
            ≡ (if is_structural e then x'.task.failure_count + 1 else x'.task.failure_count + 2))
  unfolding run_in_context
  run_in_context_failed agent x w v x' e h = elim (Bool-cases (is_structural e)) [
    | inl s ↦
        rw (run_raised agent x w v x' e h)
          (unfold raise_from_run in rw s (unfold handle_failure release_all in (refl, refl, refl)))
    | inr s ↦ rw (run_raised agent x w v x' e h) (
        unfold raise_from_run in
        rw s (unfold handle_failure release_all in (refl, refl, omega arith)))
  ]

  validate-Current :
      (locks : List LaneLock) (w : World N F)
      → validate N F locks w ≡ none
      → Current F w.fencing locks
  unfolding validate
  validate-Current [] w h = tt
  validate-Current (lock ∷ locks) w h =
      elim (Result-cases (read_counter (F.get w.fencing lock.lane_id))) [
        | inr (e, bad) ↦ ground arith
        | inl (n, good) ↦
            let same : n ≡ lock.fencing_token = ground arith in
            (rw (← same) (read_counter_ok _ n good), validate-Current locks w (ground arith))
      ]

  commit_ok :
      (r : Result Raised String) (x' : Executor) (v : World N F) (result : String)
      → (commit N F r x' v).0 ≡ ok result
      → (r ≡ ok result)
        × (validate N F x'.acquired_locks v ≡ none)
        × (commit N F r x' v ≡ (ok result, x', publish x' (task_completed result) v))
  unfolding commit raise_from_run
  commit_ok (err e) x' v result h = ground arith
  commit_ok (ok r) x' v result h = elim (Option-cases (validate N F x'.acquired_locks v)) [
    | inl e ↦ (ground arith, e, ground arith)
    | inr (raised, e) ↦ ground arith
  ]

  -- A run that returns has the agent's result, and every lock's token was the lane's counter.
  pub run_committed :
      (agent : Agent N F) (x : Executor) (w : World N F) (result : String)
      → (run N F agent x w).0 ≡ ok result
      → let (r, x', v) = agent x (hydrate N F x w) in
        (r ≡ ok result)
        × (run N F agent x w ≡ (ok result, x', publish x' (task_completed result) v))
        × Current F v.fencing x'.acquired_locks
  unfolding run
  run_committed agent x w result h =
      let (r, x', v) = agent x (hydrate N F x w) in
      let (same, valid, whole) = commit_ok r x' v result h in
      (same, whole, validate-Current x'.acquired_locks v valid)
