-- ===== src/Ledger/Tasks.antt =====
-- memu/bridge_ledger.py: what becomes of one task, told from its own events and the halts.
use fumemory.Base.{
  String, str_eq, eq_iff, ◌≡◌, ◌≢◌, refl, sym, ap, ◌∙◌, Bool, true, false, Option, none, some, List,
  [], ◌∷◌, ◌++◌, arith, Option-cases, inl, inr, if◌then◌else◌,
}
use fumemory.Base.Dict
use fumemory.Base.Dict.{Dict, get-put}
use fumemory.Base.Lists.{foldl}
use fumemory.Ledger.{
  EventType, system_halt, Status, executing, Raw, InMemoryTask, BridgeLedger, or_else, with_child,
  link_to, link, halt_task, halt_all, projected, apply, touch, new_task, spread, process_task,
  process_system_event, process_event,
}
use fumemory.Ledger.Window.{process_all}

abbrev is_halt : EventType → Bool
is_halt system_halt = true
is_halt _ = false

module _ {Cost : Type 0} where
  -- A task without its children.
  abbrev pub bare : Option (InMemoryTask Cost) → Option (InMemoryTask Cost)
  bare none = none
  bare (some t) = some (record t { children = [] })

  unfoldable pub halted_option : Option (InMemoryTask Cost) → Option (InMemoryTask Cost)
  halted_option none = none
  halted_option (some t) = some (halt_task t)

  bare-link :
      (c : String) (p : Option String) (tasks : Dict (InMemoryTask Cost)) (k : String)
      → bare (Dict.get (link c p tasks) k) ≡ bare (Dict.get tasks k)
  unfolding link link_to with_child
  bare-link c none tasks k = refl
  bare-link c (some p) tasks k = elim (Option-cases (Dict.get tasks p)) [
    | inl e ↦ ground (arith, e)
    | inr (t, e) ↦ ground (arith, e, eq_iff p k, get-put tasks p (with_child c t) k)
  ]

  pub get-halt_all :
      (tasks : Dict (InMemoryTask Cost)) (k : String)
      → Dict.get (halt_all tasks) k ≡ halted_option (Dict.get tasks k)
  unfolding halt_all Dict.get halted_option
  get-halt_all [] k = refl
  get-halt_all ((j, t) ∷ tasks) k = ground (arith, get-halt_all tasks k)

module _ {Cost : Type 0} (zero_cost : Cost) (add : Cost → Cost → Cost) where
  -- What one event does to the task `k`, told from that task alone.
  unfoldable pub observe :
      String → String × Raw Cost → Option (InMemoryTask Cost) → Option (InMemoryTask Cost)
  unfolding halted_option
  observe k (now, raw) o =
      if str_eq raw.task_id ""
      then o
      else (let o' =
            (if str_eq raw.task_id k
              then some (projected zero_cost add raw (or_else raw.timestamp now) o)
              else o) in
          if is_halt raw.event_type then halted_option o' else o')

  bare-projected :
      (raw : Raw Cost) (ts : String) (o : Option (InMemoryTask Cost))
      → bare (some (projected zero_cost add raw ts o))
        ≡ some (projected zero_cost add raw ts (bare o))
  unfolding projected apply touch new_task
  bare-projected raw ts o = ground arith

  bare-process_event :
      (now : String) (raw : Raw Cost) (l : BridgeLedger Cost) (k : String)
      → bare (Dict.get (process_event zero_cost add now raw l).tasks k)
        ≡ observe k (now, raw) (bare (Dict.get l.tasks k))
  unfolding process_event process_system_event process_task spread observe halted_option halt_task
  bare-process_event now raw l k =
      let ts = or_else raw.timestamp now in
      let t = projected zero_cost add raw ts (Dict.get l.tasks raw.task_id) in
      let put = Dict.put l.tasks raw.task_id t in
      ground (
        arith,
        eq_iff raw.task_id k,
        bare-projected raw ts (Dict.get l.tasks raw.task_id),
        get-put l.tasks raw.task_id t k,
        bare-link raw.task_id t.parent_task_id put k,
        bare-link raw.task_id t.parent_task_id (link raw.task_id t.parent_task_id put) k,
        bare-link raw.task_id t.parent_task_id (halt_all put) k,
        get-halt_all put k,
      )

  -- After any history, a task but for its children is what its own events and the halts made of it,
  -- whatever the other tasks' events were and however few events the log keeps.
  pub task_history :
      (l : BridgeLedger Cost) (history : List (String × Raw Cost)) (k : String)
      → bare (Dict.get (process_all zero_cost add l history).tasks k)
        ≡ foldl (λ o e. observe k e o) (bare (Dict.get l.tasks k)) history
  unfolding foldl
  task_history l [] k = refl
  task_history l ((now, raw) ∷ es) k =
      task_history (process_event zero_cost add now raw l) es k
      ∙ ap (λ o. foldl (λ o e. observe k e o) o es) (bare-process_event now raw l k)

  -- The events of a task and what they cost, by its own events alone.
  abbrev pub bill : String → String × Raw Cost → List String × Cost → List String × Cost
  bill k (now, raw) (ids, spent) =
      if str_eq raw.task_id k
      then (ids ++ raw.event_id ∷ [], add spent (or_else raw.compute_cost zero_cost))
      else (ids, spent)

  abbrev pub billed : Option (InMemoryTask Cost) → List String × Cost
  billed none = ([], zero_cost)
  billed (some t) = (t.events, t.compute_spent)

  billed-observe :
      (k : String) (e : String × Raw Cost) (o : Option (InMemoryTask Cost))
      → str_eq k "" ≡ false
      → billed (observe k e o) ≡ bill k e (billed o)
  unfolding observe projected apply touch new_task halted_option halt_task
  billed-observe k (now, raw) o h = ground (arith, eq_iff raw.task_id k)

  billed-foldl :
      (k : String) (history : List (String × Raw Cost)) (o : Option (InMemoryTask Cost))
      → str_eq k "" ≡ false
      → billed (foldl (λ o e. observe k e o) o history)
        ≡ foldl (λ b e. bill k e b) (billed o) history
  unfolding foldl
  billed-foldl k [] o h = refl
  billed-foldl k (e ∷ es) o h =
      billed-foldl k es (observe k e o) h
      ∙ ap (λ b. foldl (λ b e. bill k e b) b es) (billed-observe k e o h)

  billed-bare : (o : Option (InMemoryTask Cost)) → billed (bare o) ≡ billed o
  billed-bare none = refl
  billed-bare (some t) = refl

  -- After any history, a task whose id is not empty lists its own events, in their order after those
  -- it had, and has spent the sum of their costs in that order, which no other event adds to.
  pub task_bill :
      (l : BridgeLedger Cost) (history : List (String × Raw Cost)) (k : String)
      → str_eq k "" ≡ false
      → billed (Dict.get (process_all zero_cost add l history).tasks k)
        ≡ foldl (λ b e. bill k e b) (billed (Dict.get l.tasks k)) history
  task_bill l history k h =
      sym (billed-bare (Dict.get (process_all zero_cost add l history).tasks k))
      ∙ (ap billed (task_history l history k)
          ∙ (billed-foldl k history (bare (Dict.get l.tasks k)) h
              ∙ ap (λ b. foldl (λ b e. bill k e b) b history) (billed-bare (Dict.get l.tasks k))))

  status_of : Option (InMemoryTask Cost) → Option Status
  status_of none = none
  status_of (some t) = some t.status

  halted-status :
      (k : String) (now : String) (raw : Raw Cost) (o : Option (InMemoryTask Cost))
      (t : InMemoryTask Cost)
      → raw.event_type ≡ system_halt
      → str_eq raw.task_id "" ≡ false
      → observe k (now, raw) o ≡ some t
      → t.status ≢ executing
  unfolding observe halted_option halt_task
  halted-status k now raw o t e id h busy = ground (arith, e, id, h, busy)

  -- A halt that names a task stops every executing task. A halt that names none changes no task.
  halt_lem :
      (now : String) (raw : Raw Cost) (l : BridgeLedger Cost)
      → raw.event_type ≡ system_halt
      → (str_eq raw.task_id "" ≡ true → (process_event zero_cost add now raw l).tasks ≡ l.tasks)
        × (str_eq raw.task_id "" ≡ false
            → (k : String) (t : InMemoryTask Cost)
            → Dict.get (process_event zero_cost add now raw l).tasks k ≡ some t
            → t.status ≢ executing)
  unfolding process_event process_system_event
  halt_lem now raw l e = (
    λ id. ground (arith, e, id),
    λ id k t h.
        halted-status k now raw (bare (Dict.get l.tasks k)) (record t { children = [] }) e id
          (sym (bare-process_event now raw l k) ∙ ap bare h),
  )
