-- ===== src/Ledger.antt =====
-- memu/bridge_ledger.py: the event log of the bridge and the task graph that it projects from it.
-- `Cost` stands for Python's floats: only their zero and their addition are used.
pub mod Views
pub mod Tasks
pub mod Window
pub mod Graph
pub mod Links
mod Tests
use fumemory.Base.{
  ℕ, zero, suc, ◌+◌, ◌-◌, ◌==◌, ltb, String, str_eq, Bool, true, false, ◌&&◌, ◌||◌, not, Option,
  none, some, List, [], ◌∷◌, ◌++◌, if◌then◌else◌,
}
use fumemory.Base.Dict
use fumemory.Base.Dict.{Dict}
use fumemory.Base.Lists.{length, drop, contains}

-- The texts that `process_event` and `_process_system_event` match on.
pub data EventType : Type 0 where
  task_drafted bid_submitted lease_granted task_claimed task_completed task_failed task_cancelled :
      EventType
  task_amended audit_proposed audit_accepted audit_rejected lease_expired circuit_breaker :
      EventType
  system_halt heartbeat_ping lane_contested lane_acquired dlq_entry : EventType
  unknown : String → EventType

pub data Status : Type 0 where
  pending bidding claimed executing completed failed cancelled audit_pending halted : Status

-- The keys of `payload` that are read; a missing one is `none`. The values are texts and numbers: an
-- explicit null, for which `get` does not answer the default, is not modelled.
pub record Payload (Cost : Type 0) : Type 0 where
  pub title : Option String
  pub root_prompt_id : Option String
  pub parent_task_id : Option String
  pub compute_budget : Option Cost
  pub gateway_id : Option String
  pub lane : Option String

-- The raw event. A missing `task_id` or `event_id` is read as the empty text.
pub record Raw (Cost : Type 0) : Type 0 where
  pub event_id : String
  pub event_type : EventType
  pub task_id : String
  pub payload : Payload Cost
  pub compute_cost : Option Cost
  pub source_gateway : Option String
  pub timestamp : Option String

pub record InMemoryTask (Cost : Type 0) : Type 0 where
  pub task_id : String
  pub title : String
  pub status : Status
  pub parent_task_id : Option String
  pub root_prompt_id : Option String
  pub assigned_gateway : Option String
  pub compute_budget : Cost
  pub compute_spent : Cost
  pub children : List String
  pub events : List String
  pub created_at : Option String
  pub completed_at : Option String
  pub last_updated : Option String

pub record LaneEntry : Type 0 where
  pub lane : String
  pub holder : String
  pub event : EventType
  pub timestamp : String

pub record SourceEntry (Cost : Type 0) : Type 0 where
  pub source : String
  pub payload : Payload Cost
  pub timestamp : String

pub record BridgeLedger (Cost : Type 0) : Type 0 where
  pub max_events : ℕ
  pub events : List (Raw Cost)
  pub tasks : Dict (InMemoryTask Cost)
  pub root_prompts : List String
  pub lane_locks : Dict LaneEntry
  pub dlq_entries : List (SourceEntry Cost)
  pub gateway_heartbeats : Dict (SourceEntry Cost)

abbrev pub or_else {ℓ} : {A : Type ℓ} → Option A → A → A
or_else none d = d
or_else (some a) d = a

-- `self.events[-self.max_events:]`: from -0, the slice is the whole list.
unfoldable pub trim {ℓ} : {A : Type ℓ} → ℕ → List A → List A
trim n xs = if ltb n (length xs) then (if n == 0 then xs else drop (length xs - n) xs) else xs

-- Add to a set.
unfoldable pub add_root : Option String → List String → List String
add_root none roots = roots
add_root (some r) roots =
    if str_eq r "" then roots else if contains r roots then roots else roots ++ r ∷ []

module _ {Cost : Type 0} where
  -- `if child not in parent.children: parent.children.append(child)`
  unfoldable pub with_child : String → InMemoryTask Cost → InMemoryTask Cost
  with_child child parent =
      if contains child parent.children
      then parent
      else record parent { children = parent.children ++ child ∷ [] }

  link_to : String → String → Dict (InMemoryTask Cost) → Dict (InMemoryTask Cost)
  unfolding with_child
  link_to child p tasks = elim (Dict.get tasks p) [
    | none ↦ tasks
    | some parent ↦ Dict.put tasks p (with_child child parent)
  ]

  -- `if task.parent_task_id and task.parent_task_id in self.tasks: ...`
  unfoldable pub link : String → Option String → Dict (InMemoryTask Cost) → Dict (InMemoryTask Cost)
  unfolding link_to
  link child none tasks = tasks
  link child (some p) tasks = if str_eq p "" then tasks else link_to child p tasks

  unfoldable pub halt_task : InMemoryTask Cost → InMemoryTask Cost
  halt_task t = elim t.status [ executing ↦ record t { status = halted } | _ ↦ t ]

  unfoldable pub halt_all : Dict (InMemoryTask Cost) → Dict (InMemoryTask Cost)
  unfolding halt_task
  halt_all [] = []
  halt_all ((k, t) ∷ tasks) = (k, halt_task t) ∷ halt_all tasks

module _ {Cost : Type 0} (zero_cost : Cost) (add : Cost → Cost → Cost) where
  -- `InMemoryTask(task_id=task_id, created_at=ts)`
  unfoldable pub new_task : String → String → InMemoryTask Cost
  new_task task_id ts = record {
    task_id = task_id;
    title = "Unknown";
    status = pending;
    parent_task_id = none;
    root_prompt_id = none;
    assigned_gateway = none;
    compute_budget = zero_cost;
    compute_spent = zero_cost;
    children = [];
    events = [];
    created_at = some ts;
    completed_at = none;
    last_updated = none;
  }

  -- What every event of the task does to it.
  unfoldable pub touch : Raw Cost → String → InMemoryTask Cost → InMemoryTask Cost
  touch raw ts t = record t {
    events = t.events ++ raw.event_id ∷ [];
    compute_spent = add t.compute_spent (or_else raw.compute_cost zero_cost);
    last_updated = some ts;
  }

  -- What the cases of the `match` do to the task itself.
  unfoldable pub apply :
      EventType → Payload Cost → String → String → InMemoryTask Cost → InMemoryTask Cost
  apply task_drafted p source ts t = record t {
    title = or_else p.title t.title;
    status = pending;
    root_prompt_id = p.root_prompt_id;
    parent_task_id = p.parent_task_id;
    compute_budget = or_else p.compute_budget zero_cost;
  }
  apply bid_submitted p source ts t = record t { status = bidding }
  apply lease_granted p source ts t = record t {
    status = claimed;
    assigned_gateway = some (or_else p.gateway_id source);
  }
  apply task_claimed p source ts t = record t {
    status = executing;
    assigned_gateway = some (or_else p.gateway_id source);
  }
  apply task_completed p source ts t = record t { status = completed; completed_at = some ts }
  apply task_failed p source ts t = record t { status = failed }
  apply task_cancelled p source ts t = record t { status = cancelled }
  apply task_amended p source ts t = record t { title = or_else p.title t.title }
  apply audit_proposed p source ts t = record t { status = audit_pending }
  apply audit_accepted p source ts t = record t { status = completed }
  apply audit_rejected p source ts t = record t { status = pending; assigned_gateway = none }
  apply lease_expired p source ts t = record t { status = pending; assigned_gateway = none }
  apply circuit_breaker p source ts t = record t { status = failed }
  apply _ p source ts t = t

  -- `_process_system_event`
  unfoldable pub process_system_event :
      EventType → Payload Cost → String → String → BridgeLedger Cost → BridgeLedger Cost
  process_system_event heartbeat_ping p source ts l = record l {
    gateway_heartbeats =
        Dict.put l.gateway_heartbeats source
          (record { source = source; payload = p; timestamp = ts });
  }
  process_system_event lane_contested p source ts l = record l {
    lane_locks = Dict.put l.lane_locks (or_else p.lane "unknown") (record {
      lane = or_else p.lane "unknown";
      holder = or_else p.gateway_id source;
      event = lane_contested;
      timestamp = ts;
    });
  }
  process_system_event lane_acquired p source ts l = record l {
    lane_locks = Dict.put l.lane_locks (or_else p.lane "unknown") (record {
      lane = or_else p.lane "unknown";
      holder = or_else p.gateway_id source;
      event = lane_acquired;
      timestamp = ts;
    });
  }
  process_system_event dlq_entry p source ts l = record l {
    dlq_entries = l.dlq_entries ++ record { source = source; payload = p; timestamp = ts } ∷ [];
  }
  process_system_event _ p source ts l = l

  -- The task after the event, before any link is made.
  unfoldable pub projected : Raw Cost → String → Option (InMemoryTask Cost) → InMemoryTask Cost
  unfolding new_task touch apply
  projected raw ts o =
      apply raw.event_type raw.payload (or_else raw.source_gateway "unknown") ts
        (touch raw ts (or_else o (new_task raw.task_id ts)))

  -- The rest of the `match`: the new root prompt and the first link, or the halt.
  unfoldable pub spread :
      EventType → InMemoryTask Cost → String → BridgeLedger Cost → BridgeLedger Cost
  unfolding add_root
  spread task_drafted t id l = record l {
    root_prompts = add_root t.root_prompt_id l.root_prompts;
    tasks = link id t.parent_task_id l.tasks;
  }
  spread system_halt t id l = record l { tasks = halt_all l.tasks }
  spread _ t id l = l

  process_task : Raw Cost → String → BridgeLedger Cost → BridgeLedger Cost
  unfolding projected spread
  process_task raw ts l =
      let t = projected raw ts (Dict.get l.tasks raw.task_id) in
      let l' =
        spread raw.event_type t raw.task_id (record l { tasks = Dict.put l.tasks raw.task_id t }) in
      record l' { tasks = link raw.task_id t.parent_task_id l'.tasks }

  -- `process_event`, with the text of the time that stands for a missing time stamp.
  unfoldable pub process_event : String → Raw Cost → BridgeLedger Cost → BridgeLedger Cost
  unfolding process_task process_system_event trim
  process_event now raw l =
      let l' : BridgeLedger Cost = record l { events = trim l.max_events (l.events ++ raw ∷ []) } in
      let ts = or_else raw.timestamp now in
      if str_eq raw.task_id ""
      then process_system_event raw.event_type raw.payload (or_else raw.source_gateway "unknown") ts
          l'
      else process_task raw ts l'
