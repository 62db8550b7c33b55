-- ===== src/Router/Tests.antt =====
-- memu/parallel_worker_router.py with a few workers.
use fumemory.Base.{ℕ, ltb, String, ◌≡◌, refl, Bool, true, some, [], ◌∷◌, arith}
use fumemory.Base.Dict
use fumemory.Base.Dict.{Dict}
use fumemory.Base.Lists.{length, contains}
use fumemory.Router.Counts.{ℤ, pos, negsuc, up, down, below}
use fumemory.Router.{
  WorkerInfo, Subtask, Batch, Router, worker_ready, has_all, candidates, least, find_best_worker,
  dispatch_subtask, discard_task, count_down, finish_task, without,
}
use fumemory.Router.Selection.{IsOrder}
use fumemory.Router.Limits.{Limited, Steps, announced, dispatched, stop, more, Steps-Limited}
use fumemory.Router.Batches.{
  subtask_of, find_batch, close_batch, check_batch_completion, store_result, store_error,
  worker_result, after_error, worker_error, spawn_parallel_batch,
}

abbrev worker : String → ℕ → WorkerInfo
worker id n = record {
  worker_id = id;
  gateway_id = "g";
  supported_capabilities = "python" ∷ [];
  max_concurrent_tasks = 2;
  current_task_count = pos n;
  available_memory_mb = 1024;
  last_heartbeat = 0;
  ready_for_work = true;
}

-- The number of tasks; below zero counts as zero.
abbrev load : ℤ → ℕ
load (pos n) = n
load (negsuc n) = 0

abbrev lighter : WorkerInfo → WorkerInfo → Bool
lighter v w = ltb (load v.current_task_count) (load w.current_task_count)

lighter-IsOrder : IsOrder lighter
lighter-IsOrder = record {
  asymmetric = λ v w h. ground (arith, h);
  coarse = λ u v w h k. ground (arith, h, k);
}

abbrev subtask : String → Subtask
subtask id = record { subtask_id = id; required_capabilities = "python" ∷ []; max_memory_mb = 512 }

abbrev two : Dict WorkerInfo
two = ("w1", worker "w1" 1) ∷ ("w2", worker "w2" 0) ∷ []

chosen : find_best_worker lighter (subtask "a") two ≡ some (worker "w2" 0)
unfolding find_best_worker candidates below has_all contains least
chosen = refl

abbrev start : Router
start = record {
  workers = [];
  worker_tasks = [];
  active_batches = [];
  batch_results = [];
  batch_errors = [];
  published = [];
  reported = [];
}

abbrev hired : Router
hired = worker_ready (worker "w1" 1) start

abbrev path : Steps lighter start (dispatch_subtask lighter (subtask "a") hired)
path =
    more start hired (dispatch_subtask lighter (subtask "a") hired)
      (announced (worker "w1" 1) start (omega arith))
      (more hired (dispatch_subtask lighter (subtask "a") hired)
        (dispatch_subtask lighter (subtask "a") hired) (dispatched (subtask "a") hired)
        (stop (dispatch_subtask lighter (subtask "a") hired)))

steps-Limited_example : Limited (dispatch_subtask lighter (subtask "a") hired)
steps-Limited_example =
    Steps-Limited lighter start (dispatch_subtask lighter (subtask "a") hired) path tt

abbrev batch : Batch
batch = record { batch_id = "b"; subtasks = subtask "a" ∷ subtask "c" ∷ [] }

abbrev spawned : Router
spawned = spawn_parallel_batch lighter batch hired

-- The task "a" fails, is tried again and succeeds: the batch is reported with both outcomes of "a", and
-- without the task "c".
abbrev retried : Router
retried = worker_result "w1" "a" "done" (worker_error lighter "w1" "a" "failed" true 0 spawned)

reported_early : retried.reported ≡ ("b", ("a", "done") ∷ [], ("a", "failed") ∷ []) ∷ []
unfolding worker_result find_batch worker_error spawn_parallel_batch dispatch_subtask
    find_best_worker candidates worker_ready Dict.put below has_all contains least up subtask_of
    after_error Dict.get Dict.remove length check_batch_completion close_batch store_error
    store_result down count_down discard_task finish_task without
reported_early = refl
