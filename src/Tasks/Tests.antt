-- ===== src/Tasks/Tests.antt =====
-- memu/task_orchestrator.py on a few events.
use fumemory.Base.{ℕ, String, ◌≡◌, refl, true, none, some, List, [], ◌∷◌, ◌++◌}
use fumemory.Base.Dict
use fumemory.Base.Lists.{length, foldl}
use fumemory.Tasks.{
  SwarmEvent, EventType, SummarizationConfig, TaskOrchestrator, buffer_event, handle_event,
  summarize_task, summary_of,
}
use fumemory.Tasks.Conserves.{superseded, told, events_of, handle_all, handle_all_lem}

abbrev event : String → String → SwarmEvent
event id task = record {
  event_id = id;
  event_type = EventType.decision_made;
  task_id = task;
  decision = some "go";
  error = none;
  finding = none;
  next_action = none;
  size = 40;
}

abbrev pairs : SummarizationConfig
pairs = record { max_events_before_summary = 2; max_tokens_before_summary = 100 }

abbrev start : TaskOrchestrator
start = record { task_summaries = []; event_buffers = []; token_counts = [] }

abbrev same : ℕ → ℕ
same n = n

abbrev events : List SwarmEvent
events = event "1" "a" ∷ event "2" "b" ∷ event "3" "a" ∷ event "4" "a" ∷ []

told_a : told "a" (handle_all same pairs events start) ≡ "1" ∷ "3" ∷ "4" ∷ []
unfolding superseded Dict.get foldl handle_event length buffer_event Dict.put summarize_task
    summary_of
told_a = refl

handle_all_lem_example :
    told "a" (handle_all same pairs events start) ≡ told "a" start ++ events_of "a" events
handle_all_lem_example = handle_all_lem same pairs events start "a"

abbrev one_waits : TaskOrchestrator
one_waits = handle_event same pairs true (event "1" "a") start
