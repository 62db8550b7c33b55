-- ===== src/Ledger/Views.antt =====
-- memu/bridge_ledger.py: what the ledger answers to the UI. The set of root prompts is passed on as
-- the list that the model keeps; Python's `list` of the set may be in another order.
use fumemory.Base.{
  ℕ, String, str_eq, Bool, false, Option, none, some, List, [], ◌∷◌, map, if◌then◌else◌,
}
use fumemory.Base.Dict
use fumemory.Base.Dict.{Dict}
use fumemory.Base.Lists.{length, take, drop, reverse, filter}
use fumemory.Ledger.{Status, Raw, InMemoryTask, LaneEntry, BridgeLedger}

pub record Node (Cost : Type 0) : Type 0 where
  pub id : String
  pub label : String
  pub status : Status
  pub gateway : Option String
  pub compute_budget : Cost
  pub compute_spent : Cost
  pub event_count : ℕ

-- The edge's own name is made of these two.
pub record Edge : Type 0 where
  pub source : String
  pub target : String

pub record Stats (Cost : Type 0) : Type 0 where
  pub total_tasks : ℕ
  pub total_events : ℕ
  pub root_prompts : List String
  pub compute_budget : Cost
  pub compute_spent : Cost
  pub gateways_active : ℕ
  pub lane_locks : Dict LaneEntry
  pub dlq_count : ℕ

pub record Dag (Cost : Type 0) : Type 0 where
  pub nodes : List (Node Cost)
  pub edges : List Edge
  pub stats : Stats Cost

-- A child that the ledger does not know has no details: the answer then says "?".
pub record Child : Type 0 where
  pub task_id : String
  pub details : Option (String × Status)

pub record Trajectory (Cost : Type 0) : Type 0 where
  pub task : InMemoryTask Cost
  pub events : List (Raw Cost)
  pub children : List Child

abbrev values : {V : Type 0} → Dict V → List V
values = map (λ e. e.1)

module _ {Cost : Type 0} where
  unfoldable pub node_of : InMemoryTask Cost → Node Cost
  node_of t = record {
    id = t.task_id;
    label = t.title;
    status = t.status;
    gateway = t.assigned_gateway;
    compute_budget = t.compute_budget;
    compute_spent = t.compute_spent;
    event_count = length t.events;
  }

  unfoldable pub edges_of : List (InMemoryTask Cost) → List Edge
  edges_of [] = []
  edges_of (t ∷ ts) =
      let rest = edges_of ts in
      elim t.parent_task_id [
        | none ↦ rest
        | some p ↦ if str_eq p "" then rest else record { source = p; target = t.task_id } ∷ rest
      ]

  is_under : String → InMemoryTask Cost → Bool
  is_under root t = elim t.root_prompt_id [ none ↦ false | some r ↦ str_eq r root ]

  -- The tasks of a root prompt; without one, or with the empty text, all tasks.
  unfoldable pub selected : Option String → Dict (InMemoryTask Cost) → List (InMemoryTask Cost)
  unfolding is_under
  selected none tasks = values tasks
  selected (some root) tasks =
      if str_eq root "" then values tasks else filter (is_under root) (values tasks)

  total : (Cost → Cost → Cost) → Cost → List Cost → Cost
  total add sum [] = sum
  total add sum (c ∷ cs) = total add (add sum c) cs

  -- `get_dag`
  unfoldable pub get_dag :
      Cost → (Cost → Cost → Cost) → Option String → BridgeLedger Cost → Dag Cost
  unfolding total
  get_dag zero_cost add root l = record {
    nodes = map node_of (selected root l.tasks);
    edges = edges_of (selected root l.tasks);
    stats = record {
      total_tasks = length l.tasks;
      total_events = length l.events;
      root_prompts = l.root_prompts;
      compute_budget = total add zero_cost (map (λ t. t.compute_budget) (values l.tasks));
      compute_spent = total add zero_cost (map (λ t. t.compute_spent) (values l.tasks));
      gateways_active = length l.gateway_heartbeats;
      lane_locks = l.lane_locks;
      dlq_count = length l.dlq_entries;
    };
  }

  -- `get_event_log`
  unfoldable pub get_event_log : ℕ → ℕ → BridgeLedger Cost → List (Raw Cost)
  get_event_log limit offset l = take limit (drop offset (reverse l.events))

  child_of : Dict (InMemoryTask Cost) → String → Child
  child_of tasks c = elim (Dict.get tasks c) [
    | none ↦ record { task_id = c; details = none }
    | some t ↦ record { task_id = c; details = some (t.title, t.status) }
  ]

  -- `get_trajectory`: the task's fields are passed on with the task.
  unfoldable pub get_trajectory : String → BridgeLedger Cost → Option (Trajectory Cost)
  unfolding child_of
  get_trajectory task_id l = elim (Dict.get l.tasks task_id) [
    | none ↦ none
    | some t ↦ some (record {
      task = t;
      events = filter (λ (e : Raw Cost). str_eq e.task_id task_id) l.events;
      children = map (child_of l.tasks) t.children;
    })
  ]
