-- ===== src/SupplyChain/Critical.antt =====
-- memu/supply_chain.py: the critical path of a task.
use fumemory.Base.{◌≤◌, leb, not, is_some, ◌≡◌, List, ◌∷◌}
use fumemory.Base.Lists.{All, filter}
use fumemory.SupplyChain.{Floats, LongLeadItem, CriticalPath}

-- What the path of the items is, when the first of them comes first in their order.
abbrev LedBy : Floats → LongLeadItem → List LongLeadItem → CriticalPath → Type 0
LedBy floats i is path =
    let critical =
      filter
        (λ (j : LongLeadItem).
          leb (floats.eight_tenths i.estimated_lead_time) j.estimated_lead_time)
        (i ∷ is) in
    (path.critical_path_time ≡ i.estimated_lead_time)
    × All (λ j. j.estimated_lead_time ≤ i.estimated_lead_time) (i ∷ is)
    × (path.critical_items ≡ critical)
    × (path.unordered ≡ filter (λ j. not (is_some j.ordered_at)) critical)
