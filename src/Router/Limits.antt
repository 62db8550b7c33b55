-- ===== src/Router/Limits.antt =====
-- memu/parallel_worker_router.py: the counts of the workers' tasks stay within their limits.
use fumemory.Base.{
  ℕ, String, ◌≡◌, subst, sym, Bool, true, List, [], ◌∷◌, arith, inl, inr, Option-cases,
}
use fumemory.Base.Dict
use fumemory.Base.Dict.{Dict, All-put, All-get}
use fumemory.Base.Dict.Keys.{All-remove}
use fumemory.Base.Lists.{All, IfSome}
use fumemory.Router.Counts.{up, down, AtMost, up-AtMost, down-AtMost}
use fumemory.Router.{
  WorkerInfo, Subtask, Router, worker_ready, worker_heartbeat, is_candidate, find_best_worker,
  dispatch_subtask, discard_task, count_down, finish_task, stale_workers, drop_workers,
  monitor_round,
}
use fumemory.Router.Selection.{find_best_worker-Candidate}

-- The worker's count of tasks is at most its limit.
abbrev pub Within : String × WorkerInfo → Type 0
Within (k, w) = AtMost w.current_task_count w.max_concurrent_tasks

abbrev pub Limited : Router → Type 0
Limited r = All Within r.workers

worker_heartbeat-Limited :
    (worker_id : String) (at : ℕ) (r : Router)
    → Limited r
    → Limited (worker_heartbeat worker_id at r)
unfolding worker_heartbeat
worker_heartbeat-Limited worker_id at r h = elim (Option-cases (Dict.get r.workers worker_id)) [
  | inl e ↦ rw (e, worker_heartbeat) h
  | inr (w, e) ↦
      rw (e, worker_heartbeat)
        (All-put Within r.workers worker_id (record w { last_heartbeat = at }) h
          (All-get Within r.workers worker_id w h e))
]

dispatch_subtask-Limited :
    (lighter : WorkerInfo → WorkerInfo → Bool) (t : Subtask) (r : Router)
    → Limited r
    → Limited (dispatch_subtask lighter t r)
unfolding dispatch_subtask
dispatch_subtask-Limited lighter t r h =
    elim (Option-cases (find_best_worker lighter t r.workers)) [
      | inl e ↦ rw (e, dispatch_subtask) h
      | inr (w, e) ↦
          let chosen : is_candidate t w ≡ true =
            subst (IfSome (λ (w : WorkerInfo). is_candidate t w ≡ true)) e
              (find_best_worker-Candidate lighter t r.workers) in
          rw (e, dispatch_subtask)
            (All-put Within r.workers w.worker_id
              (record w { current_task_count = up w.current_task_count }) h
              (up-AtMost w.current_task_count w.max_concurrent_tasks (ground (arith, chosen))))
    ]

discard_task-workers :
    (worker_id task_id : String) (r : Router)
    → (discard_task worker_id task_id r).workers ≡ r.workers
unfolding discard_task
discard_task-workers worker_id task_id r = ground arith

count_down-Limited :
    (worker_id : String) (r : Router) → Limited r → Limited (count_down worker_id r)
unfolding count_down
count_down-Limited worker_id r h = elim (Option-cases (Dict.get r.workers worker_id)) [
  | inl e ↦ rw (e, count_down) h
  | inr (w, e) ↦
      rw (e, count_down)
        (All-put Within r.workers worker_id
          (record w { current_task_count = down w.current_task_count }) h
          (down-AtMost w.current_task_count w.max_concurrent_tasks
            (All-get Within r.workers worker_id w h e)))
]

finish_task-Limited :
    (worker_id task_id : String) (r : Router)
    → Limited r
    → Limited (finish_task worker_id task_id r)
unfolding finish_task
finish_task-Limited worker_id task_id r h =
    count_down-Limited worker_id (discard_task worker_id task_id r)
      (subst (All Within) (sym (discard_task-workers worker_id task_id r)) h)

drop_workers-Limited : (ks : List String) (r : Router) → Limited r → Limited (drop_workers ks r)
unfolding drop_workers
drop_workers-Limited [] r h = h
drop_workers-Limited (k ∷ ks) r h =
    drop_workers-Limited ks
      (record r { workers = Dict.remove r.workers k; worker_tasks = Dict.remove r.worker_tasks k })
      (All-remove Within r.workers k h)

-- What happens to the registry of workers, as data.
pub data Step (lighter : WorkerInfo → WorkerInfo → Bool) : Router → Router → Type 0 where
  announced :
      (w : WorkerInfo) (r : Router)
      → AtMost w.current_task_count w.max_concurrent_tasks
      → Step lighter r (worker_ready w r)
  alive :
      (worker_id : String) (at : ℕ) (r : Router) → Step lighter r (worker_heartbeat worker_id at r)
  dispatched : (t : Subtask) (r : Router) → Step lighter r (dispatch_subtask lighter t r)
  finished :
      (worker_id task_id : String) (r : Router) → Step lighter r (finish_task worker_id task_id r)
  monitored : (now : ℕ) (r : Router) → Step lighter r (monitor_round now r)

pub data Steps (lighter : WorkerInfo → WorkerInfo → Bool) : Router → Router → Type 0 where
  stop : (r : Router) → Steps lighter r r
  more : (r s t : Router) → Step lighter r s → Steps lighter s t → Steps lighter r t

Step-Limited :
    (lighter : WorkerInfo → WorkerInfo → Bool) (r s : Router)
    → Step lighter r s
    → Limited r
    → Limited s
unfolding worker_ready monitor_round
Step-Limited lighter _ _ (announced w r le) h = All-put Within r.workers w.worker_id w h le
Step-Limited lighter _ _ (alive worker_id at r) h = worker_heartbeat-Limited worker_id at r h
Step-Limited lighter _ _ (dispatched t r) h = dispatch_subtask-Limited lighter t r h
Step-Limited lighter _ _ (finished worker_id task_id r) h =
    finish_task-Limited worker_id task_id r h
Step-Limited lighter _ _ (monitored now r) h =
    drop_workers-Limited (stale_workers now r.workers) r h

-- Through any sequence of announcements, heartbeats, dispatches, results or errors, and rounds of the
-- monitor, a registry in which no worker's `current_task_count` is over its limit stays so, as long as
-- no worker announces a count over its limit. The sets of tasks may be larger than the counts.
pub Steps-Limited :
    (lighter : WorkerInfo → WorkerInfo → Bool) (r s : Router)
    → Steps lighter r s
    → Limited r
    → Limited s
Steps-Limited lighter _ _ (stop r) h = h
Steps-Limited lighter _ _ (more r s t first rest) h =
    Steps-Limited lighter s t rest (Step-Limited lighter r s first h)
