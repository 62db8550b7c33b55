-- ===== src/Projection.antt =====
-- memu/projection.py: `project_task_dag` over the rows that its query returns, and the fields of
-- `TaskNode` (memu/swarm_models.py) that it sets. `uuid` stands for Python's `UUID`, which raises on a
-- text that is no identifier; the database's identifiers are texts.
pub mod Agrees
mod Tests
use fumemory.Base.{
  ℕ, String, str_eq, Bool, true, false, Option, none, some, List, [], ◌∷◌, ◌++◌, map, if◌then◌else◌,
}
use fumemory.Base.Dict
use fumemory.Base.Dict.{Dict}
use fumemory.Base.Lists.{contains}
use fumemory.Ledger.{
  EventType, task_drafted, bid_submitted, lease_granted, task_claimed, task_completed, task_failed,
  task_cancelled, task_amended, audit_proposed, audit_accepted, audit_rejected, lease_expired,
  circuit_breaker, Status, pending, bidding, claimed, executing, completed, failed, cancelled,
  audit_pending, Payload, or_else,
}

pub record Row (Cost : Type 0) : Type 0 where
  pub event_id : String
  pub timestamp : String
  pub task_id : String
  pub gateway_id : String
  pub event_type : EventType
  pub payload : Payload Cost
  pub compute_cost : Option Cost

pub record TaskNode (Cost : Type 0) : Type 0 where
  pub task_id : String
  pub root_prompt_id : String
  pub parent_task_id : Option String
  pub children : List String
  pub title : String
  pub status : Status
  pub assigned_gateway : Option String
  pub compute_budget : Cost
  pub compute_spent : Cost
  pub events : List String
  pub created_at : Option String
  pub completed_at : Option String

-- The parent that a draft names; `none` when `UUID` raises.
unfoldable pub read_parent : (String → Option String) → Option String → Option (Option String)
read_parent uuid none = some none
read_parent uuid (some p) =
    if str_eq p "" then some none else elim (uuid p) [ none ↦ none | some u ↦ some (some u) ]

module _ {Cost : Type 0} where
  unfoldable pub with_child : String → TaskNode Cost → TaskNode Cost
  with_child child parent =
      if contains child parent.children
      then parent
      else record parent { children = parent.children ++ child ∷ [] }

  -- `if node.parent_task_id and node.parent_task_id in nodes: ...`
  unfoldable pub link : String → Option String → Dict (TaskNode Cost) → Dict (TaskNode Cost)
  link child none nodes = nodes
  link child (some p) nodes = elim (Dict.get nodes p) [
    | none ↦ nodes
    | some parent ↦ Dict.put nodes p (with_child child parent)
  ]

  -- The second pass
  unfoldable pub link_all : Dict (TaskNode Cost) → Dict (TaskNode Cost) → Dict (TaskNode Cost)
  link_all [] nodes = nodes
  link_all ((task_id, node) ∷ items) nodes = link_all items (link task_id node.parent_task_id nodes)

  -- The cases of the `match` but for the draft.
  unfoldable pub advance : EventType → Row Cost → TaskNode Cost → TaskNode Cost
  advance bid_submitted row n = record n { status = bidding }
  advance lease_granted row n = record n {
    status = claimed;
    assigned_gateway = some row.gateway_id;
  }
  advance task_claimed row n = record n {
    status = executing;
    assigned_gateway = some (or_else row.payload.gateway_id row.gateway_id);
  }
  advance task_completed row n = record n { status = completed; completed_at = some row.timestamp }
  advance task_failed row n = record n { status = failed }
  advance task_cancelled row n = record n { status = cancelled }
  advance task_amended row n = record n { title = or_else row.payload.title n.title }
  advance audit_proposed row n = record n { status = audit_pending }
  advance audit_accepted row n = record n { status = completed }
  advance audit_rejected row n = record n { status = pending; assigned_gateway = none }
  advance lease_expired row n = record n { status = pending; assigned_gateway = none }
  advance circuit_breaker row n = record n { status = failed }
  advance _ row n = n

abbrev pub is_draft : EventType → Bool
is_draft task_drafted = true
is_draft _ = false

module _ {Cost : Type 0} (zero_cost : Cost) (add : Cost → Cost → Cost) where
  -- `TaskNode(…)`, for a title that is a text; for another one the validation raises, which is not
  -- modelled.
  unfoldable pub new_node : String → Row Cost → TaskNode Cost
  new_node root row = record {
    task_id = row.task_id;
    root_prompt_id = root;
    parent_task_id = none;
    children = [];
    title = or_else row.payload.title "Unknown";
    status = pending;
    assigned_gateway = none;
    compute_budget = zero_cost;
    compute_spent = zero_cost;
    events = [];
    created_at = some row.timestamp;
    completed_at = none;
  }

  unfoldable pub touch : Row Cost → TaskNode Cost → TaskNode Cost
  touch row n = record n {
    events = n.events ++ row.event_id ∷ [];
    compute_spent = add n.compute_spent (or_else row.compute_cost zero_cost);
  }

  unfoldable pub draft : Row Cost → Option String → TaskNode Cost → TaskNode Cost
  draft row parent n = record n {
    title = or_else row.payload.title n.title;
    status = pending;
    parent_task_id = parent;
    compute_budget = or_else row.payload.compute_budget zero_cost;
  }

  -- The node of the row's task, with the row counted.
  unfoldable pub touched : String → Row Cost → Dict (TaskNode Cost) → TaskNode Cost
  touched root row nodes = touch row (or_else (Dict.get nodes row.task_id) (new_node root row))

  -- One row; `none` when it raises.
  unfoldable pub project_row :
      (String → Option String)
      → String
      → Row Cost
      → Dict (TaskNode Cost)
      → Option (Dict (TaskNode Cost))
  project_row uuid root row nodes =
      if is_draft row.event_type
      then elim (read_parent uuid row.payload.parent_task_id) [
        | none ↦ none
        | some parent ↦ some (
            link row.task_id parent
              (Dict.put nodes row.task_id (draft row parent (touched root row nodes))))
      ]
      else some (Dict.put nodes row.task_id (advance row.event_type row (touched root row nodes)))

  unfoldable pub project_rows :
      (String → Option String)
      → String
      → List (Row Cost)
      → Dict (TaskNode Cost)
      → Option (Dict (TaskNode Cost))
  project_rows uuid root [] nodes = some nodes
  project_rows uuid root (row ∷ rows) nodes = elim (project_row uuid root row nodes) [
    | none ↦ none
    | some nodes' ↦ project_rows uuid root rows nodes'
  ]

  -- `project_task_dag`
  unfoldable pub project_task_dag :
      (String → Option String) → String → List (Row Cost) → Option (Dict (TaskNode Cost))
  project_task_dag uuid root rows = elim (project_rows uuid root rows []) [
    | none ↦ none
    | some nodes ↦ some (link_all nodes nodes)
  ]
