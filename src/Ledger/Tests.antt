-- ===== src/Ledger/Tests.antt =====
-- memu/bridge_ledger.py: the theorems at a concrete history.
use fumemory.Base.{ℕ, ◌+◌, String, ◌≡◌, refl, Option, none, some, List, [], ◌∷◌, map, arith}
use fumemory.Base.Dict
use fumemory.Base.Lists.{length, drop, foldl}
use fumemory.Ledger.{
  EventType, task_drafted, task_claimed, system_halt, Raw, BridgeLedger, process_event,
}
use fumemory.Ledger.Views.{Dag, Edge, get_dag}
use fumemory.Ledger.Window.{process_all, log_is_suffix}
use fumemory.Ledger.Tasks.{bill, billed, task_bill}

abbrev plus : ℕ → ℕ → ℕ
plus a b = a + b

abbrev start : BridgeLedger ℕ
start = record {
  max_events = 2;
  events = [];
  tasks = [];
  root_prompts = [];
  lane_locks = [];
  dlq_entries = [];
  gateway_heartbeats = [];
}

abbrev event : EventType → String → Option String → Raw ℕ
event type id parent = record {
  event_id = "e";
  event_type = type;
  task_id = id;
  payload = record {
    title = some "T";
    root_prompt_id = none;
    parent_task_id = parent;
    compute_budget = some 9;
    gateway_id = none;
    lane = none;
  };
  compute_cost = some 3;
  source_gateway = some "g";
  timestamp = some "now";
}

abbrev history : List (String × Raw ℕ)
history =
    ("", event task_drafted "p" none)
    ∷ ("", event task_drafted "c" (some "p"))
    ∷ ("", event task_claimed "c" none)
    ∷ []

abbrev after : BridgeLedger ℕ
after = process_all 0 plus start history

log_is_suffix_example : after.events ≡ drop 1 (map (λ (e : String × Raw ℕ). e.1) history)
unfolding length
log_is_suffix_example = log_is_suffix 0 plus start history (ground arith) (ground arith)

task_bill_example :
    billed 0 plus (Dict.get after.tasks "c") ≡ foldl (λ b e. bill 0 plus "c" e b) ([], 0) history
unfolding Dict.get
task_bill_example = task_bill 0 plus start history "c" refl

abbrev halted_after : BridgeLedger ℕ
halted_after = process_event 0 plus "" (event system_halt "c" none) after

abbrev graph : Dag ℕ
graph = get_dag 0 plus (some "") after

abbrev edge_pc : Edge
edge_pc = record { source = "p"; target = "c" }
