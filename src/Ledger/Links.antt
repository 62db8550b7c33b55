-- ===== src/Ledger/Links.antt =====
-- memu/bridge_ledger.py: the links from the parents to their children.
use fumemory.Base.{
  String, str_eq, eq_iff, eq_refl, ◌≡◌, refl, subst, true, false, Option, none, some, List, [], ◌∷◌,
  ◌++◌, arith, Bool-cases, Option-cases, is_some, inl, inr, if◌then◌else◌,
}
use fumemory.Base.Dict
use fumemory.Base.Dict.{Dict, get-put}
use fumemory.Base.Lists.{contains, contains-append, is_unique, is_unique-append}
use fumemory.Ledger.{
  EventType, Raw, InMemoryTask, BridgeLedger, or_else, with_child, link_to, link, halt_task,
  halt_all, projected, apply, touch, new_task, spread, process_task, process_system_event,
  process_event, trim,
}
use fumemory.Ledger.Tasks.{get-halt_all, halted_option}

-- What a link makes of the children of a task.
abbrev linked : String → Option String → String → List String → List String
linked c none k cs = cs
linked c (some p) k cs =
    if str_eq p ""
    then cs
    else if str_eq p k
    then (if contains c cs then cs else cs ++ c ∷ [])
    else cs

-- A link keeps lists of children free of repetitions.
unique-linked :
    (c : String) (p : Option String) (k : String) (cs : List String)
    → is_unique cs ≡ true
    → is_unique (linked c p k cs) ≡ true
unique-linked c none k cs h = h
unique-linked c (some p) k cs h = ground (arith, is_unique-append cs c)

contains-linked :
    (c p : String) (cs : List String)
    → str_eq p "" ≡ false
    → contains c (linked c (some p) p cs) ≡ true
contains-linked c p cs h = ground (arith, contains-append c cs c, eq_refl c, eq_refl p)

module _ {Cost : Type 0} where
  abbrev pub children_of : Option (InMemoryTask Cost) → List String
  children_of none = []
  children_of (some t) = t.children

  abbrev pub parent_of : Option (InMemoryTask Cost) → Option String
  parent_of none = none
  parent_of (some t) = t.parent_task_id

  children-link :
      (c : String) (p : Option String) (tasks : Dict (InMemoryTask Cost)) (k : String)
      → (is_some (Dict.get (link c p tasks) k) ≡ is_some (Dict.get tasks k))
        × (parent_of (Dict.get (link c p tasks) k) ≡ parent_of (Dict.get tasks k))
        × (children_of (Dict.get (link c p tasks) k) ≡ (
            if is_some (Dict.get tasks k)
            then linked c p k (children_of (Dict.get tasks k))
            else []))
  unfolding link link_to with_child
  children-link c none tasks k = ground arith
  children-link c (some p) tasks k = elim (Option-cases (Dict.get tasks p)) [
    | inl e ↦ ground (arith, e, eq_iff p k)
    | inr (t, e) ↦ ground (arith, e, eq_iff p k, get-put tasks p (with_child c t) k)
  ]

module _ {Cost : Type 0} (zero_cost : Cost) (add : Cost → Cost → Cost) where
  -- What a task's event leaves: the links of the task to its parent, made last.
  abbrev IsLinked : String → Dict (InMemoryTask Cost) → Type 0
  IsLinked id tasks =
      (p : String)
      → parent_of (Dict.get tasks id) ≡ some p
      → str_eq p "" ≡ false
      → is_some (Dict.get tasks p) ≡ true
      → contains id (children_of (Dict.get tasks p)) ≡ true

  link-IsLinked :
      (id : String) (o : Option String) (tasks : Dict (InMemoryTask Cost))
      → parent_of (Dict.get tasks id) ≡ o
      → IsLinked id (link id o tasks)
  link-IsLinked id o tasks h p parent nonempty known = ground (
    arith,
    children-link id o tasks id,
    children-link id o tasks p,
    contains-linked id p (children_of (Dict.get tasks p)) nonempty,
    eq_refl p,
  )

  -- The ledger with the task, as the event has changed it.
  abbrev with_task : Raw Cost → InMemoryTask Cost → BridgeLedger Cost → BridgeLedger Cost
  with_task raw t l = record l { tasks = Dict.put l.tasks raw.task_id t }

  parent-spread :
      (raw : Raw Cost) (l : BridgeLedger Cost) (t : InMemoryTask Cost)
      → parent_of (
          Dict.get
            (spread zero_cost add raw.event_type t raw.task_id (with_task raw t l)).tasks
            raw.task_id)
        ≡ t.parent_task_id
  unfolding spread halted_option halt_task
  parent-spread raw l t = ground (
    arith,
    eq_refl raw.task_id,
    get-put l.tasks raw.task_id t raw.task_id,
    children-link raw.task_id t.parent_task_id (Dict.put l.tasks raw.task_id t) raw.task_id,
    get-halt_all (Dict.put l.tasks raw.task_id t) raw.task_id,
  )

  -- The task that an event of a task makes, and the tasks before its last link.
  abbrev event_task : String → Raw Cost → BridgeLedger Cost → InMemoryTask Cost
  event_task now raw l =
      projected zero_cost add raw (or_else raw.timestamp now) (Dict.get l.tasks raw.task_id)

  abbrev spread_ledger : String → Raw Cost → BridgeLedger Cost → BridgeLedger Cost
  spread_ledger now raw l = spread zero_cost add raw.event_type (event_task now raw l) raw.task_id (
      with_task raw (event_task now raw l)
        (record l { events = trim l.max_events (l.events ++ raw ∷ []) }))

  tasks-process_event :
      (now : String) (raw : Raw Cost) (l : BridgeLedger Cost)
      → (process_event zero_cost add now raw l).tasks ≡ (
          if str_eq raw.task_id ""
          then l.tasks
          else link raw.task_id
              (event_task now raw l).parent_task_id
              (spread_ledger now raw l).tasks)
  unfolding process_event process_task process_system_event
  tasks-process_event now raw l = ground arith

  -- After an event of a task, the task is among the children of its parent, if the ledger knows the
  -- parent.
  pub process_event-IsLinked :
      (now : String) (raw : Raw Cost) (l : BridgeLedger Cost) (p : String)
      → str_eq raw.task_id "" ≡ false
      → let tasks = (process_event zero_cost add now raw l).tasks in
        parent_of (Dict.get tasks raw.task_id) ≡ some p
        → str_eq p "" ≡ false
        → is_some (Dict.get tasks p) ≡ true
        → contains raw.task_id (children_of (Dict.get tasks p)) ≡ true
  process_event-IsLinked now raw l p id =
      let made : link raw.task_id (event_task now raw l).parent_task_id
            (spread_ledger now raw l).tasks
          ≡ (process_event zero_cost add now raw l).tasks =
        ground (arith, id, tasks-process_event now raw l) in
      subst (IsLinked raw.task_id) made
        (link-IsLinked raw.task_id (event_task now raw l).parent_task_id
          (spread_ledger now raw l).tasks
          (parent-spread raw (record l { events = trim l.max_events (l.events ++ raw ∷ []) })
            (event_task now raw l)))
        p

  abbrev Unique : Dict (InMemoryTask Cost) → Type 0
  Unique tasks = (k : String) → is_unique (children_of (Dict.get tasks k)) ≡ true

  link-Unique :
      (c : String) (p : Option String) (tasks : Dict (InMemoryTask Cost))
      → Unique tasks
      → Unique (link c p tasks)
  link-Unique c p tasks h k =
      let one = unique-linked c p k (children_of (Dict.get tasks k)) (h k) in
      elim (Bool-cases (is_some (Dict.get tasks k))) [
        | inl e ↦ rw ((children-link c p tasks k).2, e) one
        | inr e ↦ rw ((children-link c p tasks k).2, e) (unfold is_unique in refl)
      ]

  put-Unique :
      (id : String) (t : InMemoryTask Cost) (tasks : Dict (InMemoryTask Cost))
      → is_unique t.children ≡ true
      → Unique tasks
      → Unique (Dict.put tasks id t)
  put-Unique id t tasks one h k = ground (arith, get-put tasks id t k, one, h k)

  halt-Unique : (tasks : Dict (InMemoryTask Cost)) → Unique tasks → Unique (halt_all tasks)
  unfolding halted_option halt_task
  halt-Unique tasks h k = ground (arith, get-halt_all tasks k, h k)

  projected-children :
      (raw : Raw Cost) (ts : String) (o : Option (InMemoryTask Cost))
      → (projected zero_cost add raw ts o).children ≡ children_of o
  unfolding projected apply touch new_task
  projected-children raw ts o = ground arith

  spread-Unique :
      (e : EventType) (t : InMemoryTask Cost) (id : String) (l : BridgeLedger Cost)
      → Unique l.tasks
      → Unique (spread zero_cost add e t id l).tasks
  unfolding spread
  spread-Unique e t id l h k =
      ground (arith, h k, link-Unique id t.parent_task_id l.tasks h k, halt-Unique l.tasks h k)

  -- No event lists a child twice under any task.
  pub process_event-Unique :
      (now : String) (raw : Raw Cost) (l : BridgeLedger Cost)
      → Unique l.tasks
      → Unique (process_event zero_cost add now raw l).tasks
  process_event-Unique now raw l h k = elim (Bool-cases (str_eq raw.task_id "")) [
    | inl e ↦ ground (arith, e, h k, tasks-process_event now raw l)
    | inr e ↦ ground (arith, e, made k, tasks-process_event now raw l)
  ]
    where
      t : InMemoryTask Cost
      t = event_task now raw l

      first : is_unique t.children ≡ true
      first =
          rw (projected-children raw (or_else raw.timestamp now) (Dict.get l.tasks raw.task_id))
            (h raw.task_id)

      made : Unique (link raw.task_id t.parent_task_id (spread_ledger now raw l).tasks)
      made = link-Unique raw.task_id t.parent_task_id (spread_ledger now raw l).tasks (
          spread-Unique raw.event_type t raw.task_id
            (with_task raw t (record l { events = trim l.max_events (l.events ++ raw ∷ []) }))
            (put-Unique raw.task_id t l.tasks first h))
