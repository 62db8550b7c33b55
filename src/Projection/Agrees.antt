-- ===== src/Projection/Agrees.antt =====
-- memu/projection.py and memu/bridge_ledger.py: the two projections of one history.
use fumemory.Base.{
  String, str_eq, eq_iff, ◌≡◌, ◌≢◌, refl, sym, ap, ◌∙◌, true, false, Option, none, some, List, [],
  ◌∷◌, map, arith, Option-cases, Bool-cases, inl, inr, subst,
}
use fumemory.Base.Dict
use fumemory.Base.Dict.{Dict, get-put}
use fumemory.Base.Lists.{All, IfSome, foldl}
use fumemory.Ledger.{
  EventType, lease_granted, system_halt, Status, Raw, InMemoryTask, BridgeLedger, or_else,
  projected, apply, touch, new_task,
}
use fumemory.Ledger.Window.{process_all}
use fumemory.Ledger.Tasks.{bare, observe, task_history}
use fumemory.Projection
use fumemory.Projection.{
  Row, TaskNode, with_child, link, link_all, advance, is_draft, draft, touched, read_parent,
  project_row, project_rows, project_task_dag,
}

-- What both projections say of a task.
pub record Shared (Cost : Type 0) : Type 0 where
  pub status : Status
  pub assigned_gateway : Option String
  pub compute_budget : Cost
  pub compute_spent : Cost
  pub events : List String
  pub completed_at : Option String

module _ {Cost : Type 0} where
  abbrev pub of_node : Option (TaskNode Cost) → Option (Shared Cost)
  of_node none = none
  of_node (some n) = some (record {
    status = n.status;
    assigned_gateway = n.assigned_gateway;
    compute_budget = n.compute_budget;
    compute_spent = n.compute_spent;
    events = n.events;
    completed_at = n.completed_at;
  })

  abbrev pub of_task : Option (InMemoryTask Cost) → Option (Shared Cost)
  of_task none = none
  of_task (some t) = some (record {
    status = t.status;
    assigned_gateway = t.assigned_gateway;
    compute_budget = t.compute_budget;
    compute_spent = t.compute_spent;
    events = t.events;
    completed_at = t.completed_at;
  })

  -- The event of the bridge that says what a row of the database says.
  abbrev pub raw_of : Row Cost → String × Raw Cost
  raw_of row = (
    row.timestamp,
    record {
      event_id = row.event_id;
      event_type = row.event_type;
      task_id = row.task_id;
      payload = row.payload;
      compute_cost = row.compute_cost;
      source_gateway = some row.gateway_id;
      timestamp = some row.timestamp;
    },
  )

  -- No halt, of which the database's projection knows nothing; a task; and a lease that names no
  -- gateway but the row's.
  pub record Plain (row : Row Cost) : Type 0 where
    pub task : str_eq row.task_id "" ≡ false
    pub running : row.event_type ≢ system_halt
    pub lease : row.event_type ≡ lease_granted → row.payload.gateway_id ≡ none

  link-Shared :
      (c : String) (p : Option String) (nodes : Dict (TaskNode Cost)) (k : String)
      → of_node (Dict.get (link c p nodes) k) ≡ of_node (Dict.get nodes k)
  unfolding link with_child
  link-Shared c none nodes k = refl
  link-Shared c (some p) nodes k = elim (Option-cases (Dict.get nodes p)) [
    | inl e ↦ ground (arith, e)
    | inr (n, e) ↦ ground (arith, e, eq_iff p k, get-put nodes p (with_child c n) k)
  ]

  link_all-Shared :
      (items nodes : Dict (TaskNode Cost)) (k : String)
      → of_node (Dict.get (link_all items nodes) k) ≡ of_node (Dict.get nodes k)
  unfolding link_all
  link_all-Shared [] nodes k = refl
  link_all-Shared ((c, n) ∷ items) nodes k =
      link_all-Shared items (link c n.parent_task_id nodes) k
      ∙ link-Shared c n.parent_task_id nodes k

module _ {Cost : Type 0} (zero_cost : Cost) (add : Cost → Cost → Cost)
    (uuid : String → Option String) (root : String) where
  abbrev Same : TaskNode Cost → InMemoryTask Cost → Type 0
  Same n t = of_node (some n) ≡ of_task (some t)

  touch-Same :
      (row : Row Cost) (nodes : Dict (TaskNode Cost)) (o : Option (InMemoryTask Cost))
      → of_node (Dict.get nodes row.task_id) ≡ of_task o
      → Same (touched zero_cost add root row nodes) (
          touch zero_cost add
            (raw_of row).1
            row.timestamp
            (or_else o (new_task zero_cost add row.task_id row.timestamp)))
  unfolding touched touch new_task Projection.touch Projection.new_node
  touch-Same row nodes o same = ground (arith, same)

  advance-Same :
      (et : EventType) (row : Row Cost) (n : TaskNode Cost) (t : InMemoryTask Cost)
      → is_draft et ≡ false
      → (et ≡ lease_granted → row.payload.gateway_id ≡ none)
      → Same n t
      → Same (advance et row n) (apply zero_cost add et row.payload row.gateway_id row.timestamp t)
  unfolding advance apply
  advance-Same et row n t other lease same = ground (arith, same, other, lease)

  draft-Same :
      (et : EventType) (row : Row Cost) (parent : Option String) (n : TaskNode Cost)
      (t : InMemoryTask Cost)
      → is_draft et ≡ true
      → Same n t
      → Same
          (draft zero_cost add row parent n)
          (apply zero_cost add et row.payload row.gateway_id row.timestamp t)
  unfolding draft apply
  draft-Same et row parent n t e same = ground (arith, same, e)

  put-Same :
      (row : Row Cost) (nodes : Dict (TaskNode Cost)) (k : String) (o : Option (InMemoryTask Cost))
      (n : TaskNode Cost)
      → Plain row
      → of_node (Dict.get nodes k) ≡ of_task o
      → (str_eq row.task_id k ≡ true
          → Same n (projected zero_cost add (raw_of row).1 row.timestamp o))
      → of_node (Dict.get (Dict.put nodes row.task_id n) k)
        ≡ of_task (observe zero_cost add k (raw_of row) o)
  unfolding observe
  put-Same row nodes k o n plain same own =
      let task = plain.task in
      let running = plain.running in
      ground (arith, get-put nodes row.task_id n k, task, running, same, own)

  row_same :
      (row : Row Cost) (nodes : Dict (TaskNode Cost)) (k : String) (o : Option (InMemoryTask Cost))
      → Plain row
      → of_node (Dict.get nodes k) ≡ of_task o
      → IfSome
          (λ nodes'. of_node (Dict.get nodes' k) ≡ of_task (observe zero_cost add k (raw_of row) o))
          (project_row zero_cost add uuid root row nodes)
  unfolding project_row
  row_same row nodes k o plain same =
      let n = touched zero_cost add root row nodes in
      let t =
        touch zero_cost add (raw_of row).1 row.timestamp
          (or_else o (new_task zero_cost add row.task_id row.timestamp)) in
      let touches : str_eq row.task_id k ≡ true → Same n t = λ e. touch-Same row nodes o (
        subst (λ j. of_node (Dict.get nodes j) ≡ of_task o) (sym ((eq_iff row.task_id k).0 e))
          same) in
      elim (Bool-cases (is_draft row.event_type)) [
        | inl e ↦ elim (Option-cases (read_parent uuid row.payload.parent_task_id)) [
          | inl raised ↦ rw (e, raised, project_row) tt
          | inr (parent, read) ↦
              let drafted = draft zero_cost add row parent n in
              rw (e, read, project_row)
                (link-Shared row.task_id parent (Dict.put nodes row.task_id drafted) k
                  ∙ put-Same row nodes k o drafted plain same (λ own.
                    unfold projected in draft-Same row.event_type row parent n t e (touches own)))
        ]
        | inr e ↦
            rw (e, project_row)
              (put-Same row nodes k o (advance row.event_type row n) plain same (λ own.
                unfold projected in
                advance-Same row.event_type row n t e plain.lease (touches own)))
      ]

  rows_same :
      (rows : List (Row Cost)) (nodes : Dict (TaskNode Cost)) (k : String)
      (o : Option (InMemoryTask Cost))
      → All Plain rows
      → of_node (Dict.get nodes k) ≡ of_task o
      → IfSome
          (λ nodes'.
            of_node (Dict.get nodes' k)
            ≡ of_task (foldl (λ o e. observe zero_cost add k e o) o (map raw_of rows)))
          (project_rows zero_cost add uuid root rows nodes)
  unfolding project_rows foldl
  rows_same [] nodes k o plain same = same
  rows_same (row ∷ rows) nodes k o plain same =
      elim (Option-cases (project_row zero_cost add uuid root row nodes)) [
        | inl e ↦ rw (e, project_rows) tt
        | inr (nodes', e) ↦
            rw (e, project_rows)
              (rows_same rows nodes' k (observe zero_cost add k (raw_of row) o) plain.1 (
                subst
                  (IfSome (λ nodes'.
                    of_node (Dict.get nodes' k) ≡ of_task (observe zero_cost add k (raw_of row) o)))
                  e (row_same row nodes k o plain.0 same)))
      ]

  bare-Shared : (o : Option (InMemoryTask Cost)) → of_task (bare o) ≡ of_task o
  bare-Shared none = refl
  bare-Shared (some t) = refl

  finish-Shared :
      (o : Option (Dict (TaskNode Cost))) (nodes : Dict (TaskNode Cost)) (k : String)
      (v : Option (Shared Cost))
      → IfSome (λ nodes'. of_node (Dict.get nodes' k) ≡ v) o
      → elim o [ none ↦ none | some all ↦ some (link_all all all) ] ≡ some nodes
      → of_node (Dict.get nodes k) ≡ v
  finish-Shared none nodes k v h e = ground (arith, e)
  finish-Shared (some all) nodes k v h e =
      let same : some (link_all all all) ≡ some nodes = e in
      let own : link_all all all ≡ nodes = ground (arith, same) in
      ap (λ d. of_node (Dict.get d k)) (sym own) ∙ link_all-Shared all all k ∙ h

-- The database's projection and the bridge's agree: when `project_task_dag` returns on rows that each
-- name a task, that are no halts, and whose leases name no gateway but the row's, then every task has
-- the same status, gateway, budget, cost, events and time of completion in the graph and in a ledger
-- that knew nothing of it and has processed the events that say the same; or it is in neither.
pub project_task_dag_lem :
    {Cost : Type 0} (zero_cost : Cost) (add : Cost → Cost → Cost) (uuid : String → Option String)
    (root : String) (rows : List (Row Cost)) (nodes : Dict (TaskNode Cost)) (l : BridgeLedger Cost)
    (k : String)
    → All Plain rows
    → Dict.get l.tasks k ≡ none
    → project_task_dag zero_cost add uuid root rows ≡ some nodes
    → of_node (Dict.get nodes k)
      ≡ of_task (Dict.get (process_all zero_cost add l (map raw_of rows)).tasks k)
unfolding project_task_dag Dict.get
project_task_dag_lem zero_cost add uuid root rows nodes l k plain new e =
    let history : List (String × Raw _) = map raw_of rows in
    let after = Dict.get (process_all zero_cost add l history).tasks k in
    let start : bare (Dict.get l.tasks k) ≡ none = ap bare new in
    let spec = foldl (λ o e. observe zero_cost add k e o) none history in
    let same : of_task spec ≡ of_task after =
      ap of_task (
        ap (λ o. foldl (λ o e. observe zero_cost add k e o) o history) (sym start)
        ∙ sym (task_history zero_cost add l history k))
      ∙ bare-Shared zero_cost add uuid root after in
    finish-Shared zero_cost add uuid root (project_rows zero_cost add uuid root rows []) nodes k
      (of_task spec) (rows_same zero_cost add uuid root rows [] k none plain refl) e
    ∙ same
