-- ===== src/Projection/Tests.antt =====
-- memu/projection.py on a small history.
use fumemory.Base.{ℕ, ◌+◌, String, ◌≡◌, refl, Option, none, some, List, [], ◌∷◌, map, arith}
use fumemory.Base.Dict
use fumemory.Base.Lists.{All}
use fumemory.Ledger.{EventType, task_drafted, task_claimed, task_completed, BridgeLedger}
use fumemory.Ledger.Window.{process_all}
use fumemory.Projection.{Row, TaskNode, project_task_dag, project_rows, project_row, read_parent}
use fumemory.Projection.Agrees.{Plain, of_node, of_task, raw_of, project_task_dag_lem}

abbrev row : EventType → String → Option String → Row ℕ
row type id parent = record {
  event_id = "e";
  timestamp = "now";
  task_id = id;
  gateway_id = "g";
  event_type = type;
  payload = record {
    title = some "T";
    root_prompt_id = none;
    parent_task_id = parent;
    compute_budget = some 9;
    gateway_id = none;
    lane = none;
  };
  compute_cost = some 3;
}

abbrev rows : List (Row ℕ)
rows =
    row task_drafted "p" none
    ∷ row task_drafted "c" (some "p")
    ∷ row task_claimed "c" none
    ∷ row task_completed "c" none
    ∷ []

abbrev plus : ℕ → ℕ → ℕ
plus a b = a + b

abbrev empty : BridgeLedger ℕ
empty = record {
  max_events = 2;
  events = [];
  tasks = [];
  root_prompts = [];
  lane_locks = [];
  dlq_entries = [];
  gateway_heartbeats = [];
}

abbrev nodes : Option (Dict.Dict (TaskNode ℕ)) → Dict.Dict (TaskNode ℕ)
nodes none = []
nodes (some d) = d

abbrev graph : Dict.Dict (TaskNode ℕ)
graph = nodes (project_task_dag 0 plus some "root" rows)

rows-Plain : All Plain rows
rows-Plain = (
  record { task = refl; running = λ h. ground (arith, h); lease = λ h. ground (arith, h) },
  (
    record { task = refl; running = λ h. ground (arith, h); lease = λ h. ground (arith, h) },
    (
      record { task = refl; running = λ h. ground (arith, h); lease = λ h. ground (arith, h) },
      (
        record { task = refl; running = λ h. ground (arith, h); lease = λ h. ground (arith, h) },
        tt,
      ),
    ),
  ),
)

project_task_dag_lem_example :
    of_node (Dict.get graph "c")
    ≡ of_task (Dict.get (process_all 0 plus empty (map raw_of rows)).tasks "c")
unfolding Dict.get project_task_dag project_rows project_row read_parent
project_task_dag_lem_example =
    project_task_dag_lem 0 plus some "root" rows graph empty "c" rows-Plain refl refl
