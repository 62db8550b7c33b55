-- ===== src/SupplyChain/Tests.antt =====
-- memu/supply_chain.py: two items.
use fumemory.Base.{ℕ, ◌+◌, ◌*◌, ◌/◌, String, true, none, [], ◌∷◌}
use fumemory.Base.Dict
use fumemory.SupplyChain.{Floats, LongLeadItem, SupplyChainConnector, register_item}

abbrev item : String → ℕ → LongLeadItem
item id time = record {
  item_id = id;
  item_name = id;
  estimated_lead_time = time;
  lead_time_category = "medium";
  in_stock = true;
  required_by_tasks = "t" ∷ [];
  blocking_tasks = [];
  ordered_at = none;
  expected_delivery = none;
  delivered_at = none;
  updated_at = 0;
}

abbrev shop : SupplyChainConnector
shop =
    (register_item 1 (item "b" 50)
      (register_item 0 (item "a" 90) (record { rows = []; cache = [] })).1).1

-- The floats 0, 0.1, 0.2 and so on, of which only these occur here.
abbrev tenths : Floats
tenths = record { zero_hours = 0; eight_tenths = λ n. n * 8 / 10; after_hours = λ now n. now + n }
