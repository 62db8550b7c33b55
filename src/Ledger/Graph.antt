-- ===== src/Ledger/Graph.antt =====
-- memu/bridge_ledger.py: the edges of `get_dag`.
use fumemory.Base.{
  String, str_eq, ◌≡◌, refl, Bool-cases, Option, some, Option-cases, List, [], ◌∷◌, map, ap, subst,
  ◌∙◌, ◌⊎◌, inl, inr, false,
}
use fumemory.Ledger.{InMemoryTask, BridgeLedger}
use fumemory.Ledger.Views.{Edge, node_of, edges_of, selected, get_dag}

abbrev pub Among : {A : Type 0} → A → List A → Type 0
Among x [] = ⊥
Among x (y ∷ ys) = (y ≡ x) ⊎ Among x ys

module _ {Cost : Type 0} where
  -- The edge is a selected task's: from its parent, which it names, to the task's node.
  abbrev pub IsLink : Edge → List (InMemoryTask Cost) → Type 0
  IsLink e ts =
      (t : InMemoryTask Cost) × Among t ts
      × (t.parent_task_id ≡ some e.source)
      × (str_eq e.source "" ≡ false)
      × (t.task_id ≡ e.target)

  edges_step :
      (t : InMemoryTask Cost) (ts : List (InMemoryTask Cost))
      → (edges_of (t ∷ ts) ≡ edges_of ts)
        ⊎ ((p : String) × (t.parent_task_id ≡ some p)
            × (str_eq p "" ≡ false)
            × (edges_of (t ∷ ts) ≡ record { source = p; target = t.task_id } ∷ edges_of ts))
  unfolding edges_of
  edges_step t ts = elim (Option-cases t.parent_task_id) [
    | inl none_given ↦ inl (rw none_given refl)
    | inr (p, given) ↦ elim (Bool-cases (str_eq p "")) [
      | inl empty ↦ inl (rw (given, empty) refl)
      | inr named ↦ inr (p, given, named, rw (given, named) refl)
    ]
  ]

  edges_of-IsLink : (e : Edge) (ts : List (InMemoryTask Cost)) → Among e (edges_of ts) → IsLink e ts
  edges_of-IsLink e [] h = unfold edges_of in elim h [ ]
  edges_of-IsLink e (t ∷ ts) h = elim (edges_step t ts) [
    | inl same ↦ later (edges_of-IsLink e ts (rw same at h))
    | inr (p, given, named, same) ↦ elim (rw same at h) [
      | inl own ↦ (
        t,
        inl refl,
        given ∙ ap (λ (x : Edge). some x.source) own,
        subst (λ (x : Edge). str_eq x.source "" ≡ false) own named,
        ap (λ (x : Edge). x.target) own,
      )
      | inr among ↦ later (edges_of-IsLink e ts among)
    ]
  ]
    where
      later : IsLink e ts → IsLink e (t ∷ ts)
      later (u, among, parent, named, target) = (u, inr among, parent, named, target)

  node-Among :
      (t : InMemoryTask Cost) (ts : List (InMemoryTask Cost))
      → Among t ts
      → Among (node_of t) (map node_of ts)
  node-Among t (u ∷ us) (inl e) = inl (ap node_of e)
  node-Among t (u ∷ us) (inr h) = inr (node-Among t us h)
  node-Among t [] h = elim h [ ]

  -- Every edge of the graph comes from a task that is selected: it starts at the parent that the task
  -- names, and it ends at the task's id, which is the id of a node of the graph.
  pub get_dag-edges :
      (zero_cost : Cost) (add : Cost → Cost → Cost) (root : Option String) (l : BridgeLedger Cost)
      (e : Edge)
      → Among e (get_dag zero_cost add root l).edges
      → (t : InMemoryTask Cost) × Among t (selected root l.tasks)
        × (t.parent_task_id ≡ some e.source)
        × Among (node_of t) (get_dag zero_cost add root l).nodes
        × ((node_of t).id ≡ e.target)
  unfolding get_dag node_of
  get_dag-edges zero_cost add root l e h =
      let (t, among, parent, named, target) = edges_of-IsLink e (selected root l.tasks) h in
      (t, among, parent, node-Among t (selected root l.tasks) among, target)
