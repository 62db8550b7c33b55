-- ===== src/Router/Batches.antt =====
-- memu/parallel_worker_router.py: batches, their results and errors, and when they are reported. A
-- report is what `_aggregate_results` and the callback of the batch are given.
use fumemory.Base.{
  ℕ, ◌+◌, ltb, ◌<◌, String, str_eq, eq_refl, ◌≡◌, refl, Bool, false, ◌&&◌, Option, none, some,
  is_some, List, [], ◌∷◌, ◌++◌, arith, inl, inr, Bool-cases, Option-cases, if◌then◌else◌,
}
use fumemory.Base.Dict
use fumemory.Base.Dict.{Dict, get-put, get-remove}
use fumemory.Base.Lists.{length}
use fumemory.Router.{WorkerInfo, Subtask, Batch, Router, dispatch_subtask, finish_task}

unfoldable pub subtask_of : List Subtask → String → Option Subtask
subtask_of [] id = none
subtask_of (t ∷ ts) id = if str_eq t.subtask_id id then some t else subtask_of ts id

-- `_find_batch_for_task`
unfoldable pub find_batch : Dict Batch → String → Option String
find_batch [] id = none
find_batch ((b, batch) ∷ batches) id =
    if is_some (subtask_of batch.subtasks id) then some b else find_batch batches id

abbrev pub dict_at {ℓ} : {V : Type ℓ} → Option (Dict V) → Dict V
dict_at none = []
dict_at (some d) = d

-- How many outcomes `_check_batch_completion` counts.
abbrev pub outcomes : Router → String → ℕ
outcomes r b =
    length (dict_at (Dict.get r.batch_results b)) + length (dict_at (Dict.get r.batch_errors b))

-- The report and the cleanup
unfoldable pub close_batch : String → Router → Router
close_batch b r = record r {
  reported =
      r.reported
      ++ (b, dict_at (Dict.get r.batch_results b), dict_at (Dict.get r.batch_errors b)) ∷ [];
  active_batches = Dict.remove r.active_batches b;
  batch_results = Dict.remove r.batch_results b;
  batch_errors = Dict.remove r.batch_errors b;
}

-- `_check_batch_completion`
unfoldable pub check_batch_completion : String → Router → Router
check_batch_completion b r = elim (Dict.get r.active_batches b) [
  | none ↦ r
  | some batch ↦ if ltb (outcomes r b) (length batch.subtasks) then r else close_batch b r
]

unfoldable pub store_result : String → String → String → Router → Router
store_result b task_id value r = record r {
  batch_results =
      Dict.put r.batch_results b (Dict.put (dict_at (Dict.get r.batch_results b)) task_id value);
}

unfoldable pub store_error : String → String → String → Router → Router
store_error b task_id value r = record r {
  batch_errors =
      Dict.put r.batch_errors b (Dict.put (dict_at (Dict.get r.batch_errors b)) task_id value);
}

-- `_handle_worker_result`
unfoldable pub worker_result : String → String → String → Router → Router
worker_result worker_id task_id value r = elim (find_batch r.active_batches task_id) [
  | none ↦ r
  | some b ↦
      check_batch_completion b (finish_task worker_id task_id (store_result b task_id value r))
]

retry : (WorkerInfo → WorkerInfo → Bool) → Option Subtask → Router → Router
retry lighter none r = r
retry lighter (some t) r = dispatch_subtask lighter t r

-- After the error is stored: a retry, or the test whether the batch is complete.
unfoldable pub after_error :
    (WorkerInfo → WorkerInfo → Bool) → String → String → Bool → ℕ → Router → Router
unfolding retry
after_error lighter b task_id is_retryable retry_count r = elim (Dict.get r.active_batches b) [
  | none ↦ check_batch_completion b r
  | some batch ↦
      if is_retryable && ltb retry_count 3
      then retry lighter (subtask_of batch.subtasks task_id) r
      else check_batch_completion b r
]

-- `_handle_worker_error`
unfoldable pub worker_error :
    (WorkerInfo → WorkerInfo → Bool) → String → String → String → Bool → ℕ → Router → Router
worker_error lighter worker_id task_id message is_retryable retry_count r =
    elim (find_batch r.active_batches task_id) [
      | none ↦ r
      | some b ↦
          after_error lighter b task_id is_retryable retry_count
            (finish_task worker_id task_id (store_error b task_id message r))
    ]

dispatch_each : (WorkerInfo → WorkerInfo → Bool) → List Subtask → Router → Router
dispatch_each lighter [] r = r
dispatch_each lighter (t ∷ ts) r = dispatch_each lighter ts (dispatch_subtask lighter t r)

-- `spawn_parallel_batch` in the mode "parallel", whose dispatches run one after the other.
unfoldable pub spawn_parallel_batch : (WorkerInfo → WorkerInfo → Bool) → Batch → Router → Router
unfolding dispatch_each
spawn_parallel_batch lighter batch r = dispatch_each lighter batch.subtasks (record r {
  active_batches = Dict.put r.active_batches batch.batch_id batch;
  batch_results = Dict.put r.batch_results batch.batch_id [];
  batch_errors = Dict.put r.batch_errors batch.batch_id [];
})

-- After the test, the batch waits for more outcomes, or it is gone and its outcomes were reported.
pub record Settled (b : String) (r s : Router) : Type 0 where
  pub waits :
      (batch : Batch)
      → Dict.get s.active_batches b ≡ some batch
      → outcomes s b < length batch.subtasks
  pub others :
      (c : String) → str_eq b c ≡ false → Dict.get s.active_batches c ≡ Dict.get r.active_batches c

-- A batch that is still active after `_check_batch_completion` has fewer outcomes than subtasks, and
-- no other batch is closed by it.
pub check_batch_completion_lem :
    (b : String) (r : Router) → Settled b r (check_batch_completion b r)
unfolding check_batch_completion close_batch
check_batch_completion_lem b r = elim (Option-cases (Dict.get r.active_batches b)) [
  | inl e ↦
      rw (e, check_batch_completion)
        (record { waits = λ batch h. ground (arith, e, h); others = λ c apart. refl })
  | inr (batch, e) ↦ elim (Bool-cases (ltb (outcomes r b) (length batch.subtasks))) [
    | inl few ↦
        rw (e, few, check_batch_completion)
          (record { waits = λ other h. ground (arith, e, h, few); others = λ c apart. refl })
    | inr all ↦
        rw (e, all, check_batch_completion)
          (record {
            waits = λ other h. ground (arith, h, get-remove r.active_batches b b, eq_refl b);
            others = λ c apart. ground (arith, apart, get-remove r.active_batches b c);
          })
  ]
]
