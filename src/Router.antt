-- ===== src/Router.antt =====
-- memu/parallel_worker_router.py: the registry of workers and the routing of subtasks to them. Of the
-- messages stand the fields that are read. `lighter` compares two workers by the quotient of their
-- tasks and their limit, a floating-point number; times are counted in seconds.
pub mod Counts
pub mod Selection
pub mod Limits
pub mod Batches
mod Tests
use fumemory.Base.{
  ℕ, ◌+◌, leb, ltb, String, str_eq, Bool, true, false, ◌&&◌, not, Option, none, some, List, [], ◌∷◌,
  ◌++◌, if◌then◌else◌,
}
use fumemory.Base.Dict
use fumemory.Base.Dict.{Dict}
use fumemory.Base.Lists.{contains}
use fumemory.Router.Counts.{ℤ, up, down, below}

pub record WorkerInfo : Type 0 where
  pub worker_id : String
  pub gateway_id : String
  pub supported_capabilities : List String
  pub max_concurrent_tasks : ℕ
  pub current_task_count : ℤ
  pub available_memory_mb : ℕ
  pub last_heartbeat : ℕ
  pub ready_for_work : Bool

pub record Subtask : Type 0 where
  pub subtask_id : String
  pub required_capabilities : List String
  pub max_memory_mb : ℕ

pub record Batch : Type 0 where
  pub batch_id : String
  pub subtasks : List Subtask

pub record Router : Type 0 where
  pub workers : Dict WorkerInfo
  pub worker_tasks : Dict (List String)
  pub active_batches : Dict Batch
  pub batch_results : Dict (Dict String)
  pub batch_errors : Dict (Dict String)
  pub published : List (String × String)
  pub reported : List (String × Dict String × Dict String)

-- `_handle_worker_ready`: the worker that the message announces.
unfoldable pub worker_ready : WorkerInfo → Router → Router
worker_ready w r = record r { workers = Dict.put r.workers w.worker_id w }

-- `_handle_worker_heartbeat`
unfoldable pub worker_heartbeat : String → ℕ → Router → Router
worker_heartbeat worker_id at r = elim (Dict.get r.workers worker_id) [
  | none ↦ r
  | some w ↦ record r { workers = Dict.put r.workers worker_id (record w { last_heartbeat = at }) }
]

unfoldable pub has_all : List String → List String → Bool
has_all [] supported = true
has_all (cap ∷ caps) supported = contains cap supported && has_all caps supported

-- The tests of the loop of `_find_best_worker`
abbrev pub is_candidate : Subtask → WorkerInfo → Bool
is_candidate t w =
    w.ready_for_work
    && (below w.current_task_count w.max_concurrent_tasks
        && (has_all t.required_capabilities w.supported_capabilities
            && leb t.max_memory_mb w.available_memory_mb))

unfoldable pub candidates : Subtask → Dict WorkerInfo → List WorkerInfo
candidates t [] = []
candidates t ((k, w) ∷ workers) =
    let rest = candidates t workers in if is_candidate t w then w ∷ rest else rest

-- What a stable sort by the load puts first.
unfoldable pub least : (WorkerInfo → WorkerInfo → Bool) → WorkerInfo → List WorkerInfo → WorkerInfo
least lighter w [] = w
least lighter w (v ∷ vs) = least lighter (if lighter v w then v else w) vs

first_of : (WorkerInfo → WorkerInfo → Bool) → List WorkerInfo → Option WorkerInfo
first_of lighter [] = none
first_of lighter (w ∷ ws) = some (least lighter w ws)

-- `_find_best_worker`
unfoldable pub find_best_worker :
    (WorkerInfo → WorkerInfo → Bool) → Subtask → Dict WorkerInfo → Option WorkerInfo
unfolding first_of
find_best_worker lighter t workers = first_of lighter (candidates t workers)

abbrev pub tasks_at : Option (List String) → List String
tasks_at none = []
tasks_at (some ids) = ids

abbrev pub with_task : String → List String → List String
with_task id ids = if contains id ids then ids else ids ++ id ∷ []

-- `_dispatch_subtask`: without a worker, the subtask is dropped.
unfoldable pub dispatch_subtask : (WorkerInfo → WorkerInfo → Bool) → Subtask → Router → Router
dispatch_subtask lighter t r = elim (find_best_worker lighter t r.workers) [
  | none ↦ r
  | some w ↦ record r {
    worker_tasks =
        Dict.put r.worker_tasks w.worker_id
          (with_task t.subtask_id (tasks_at (Dict.get r.worker_tasks w.worker_id)));
    workers =
        Dict.put r.workers w.worker_id (record w { current_task_count = up w.current_task_count });
    published = r.published ++ (w.worker_id, t.subtask_id) ∷ [];
  }
]

unfoldable pub without : String → List String → List String
without id [] = []
without id (x ∷ xs) = let rest = without id xs in if str_eq x id then rest else x ∷ rest

unfoldable pub discard_task : String → String → Router → Router
discard_task worker_id task_id r = elim (Dict.get r.worker_tasks worker_id) [
  | none ↦ r
  | some ids ↦ record r { worker_tasks = Dict.put r.worker_tasks worker_id (without task_id ids) }
]

unfoldable pub count_down : String → Router → Router
count_down worker_id r = elim (Dict.get r.workers worker_id) [
  | none ↦ r
  | some w ↦ record r {
    workers =
        Dict.put r.workers worker_id (record w { current_task_count = down w.current_task_count });
  }
]

-- `_handle_worker_result` and `_handle_worker_error`: the task leaves its worker.
unfoldable pub finish_task : String → String → Router → Router
finish_task worker_id task_id r = count_down worker_id (discard_task worker_id task_id r)

-- A round of `_monitor_worker_health`
unfoldable pub is_stale : ℕ → WorkerInfo → Bool
is_stale now w = ltb (w.last_heartbeat + 60) now

unfoldable pub stale_workers : ℕ → Dict WorkerInfo → List String
stale_workers now [] = []
stale_workers now ((k, w) ∷ workers) =
    let rest = stale_workers now workers in if is_stale now w then k ∷ rest else rest

unfoldable pub drop_workers : List String → Router → Router
drop_workers [] r = r
drop_workers (k ∷ ks) r =
    drop_workers ks
      (record r { workers = Dict.remove r.workers k; worker_tasks = Dict.remove r.worker_tasks k })

unfoldable pub monitor_round : ℕ → Router → Router
monitor_round now r = drop_workers (stale_workers now r.workers) r
