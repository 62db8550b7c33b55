-- ===== src/Tasks.antt =====
-- memu/task_orchestrator.py: the events that the orchestrator buffers, and its summaries. Of an event
-- stand the fields that are read; `size` is the length of its payload's text. `compress` stands for
-- the product with the compression ratio. A `false` for `published` is a `publish` that raises, which
-- the loop of `start` catches.
pub mod Conserves
pub mod Bounds
mod Tests
use fumemory.Base.{
  ℕ, ◌+◌, ◌/◌, leb, String, str_eq, Bool, true, false, ◌||◌, Option, none, some, List, [], ◌∷◌,
  ◌++◌, map, if◌then◌else◌,
}
use fumemory.Base.Dict
use fumemory.Base.Dict.{Dict}
use fumemory.Base.Lists.{length, take}

-- The types of events that `_summarize_task` tells apart.
pub data EventType : Type 0 where
  decision_made task_failed other : EventType

pub record SwarmEvent : Type 0 where
  pub event_id : String
  pub event_type : EventType
  pub task_id : String
  pub decision : Option String
  pub error : Option String
  pub finding : Option String
  pub next_action : Option String
  pub size : ℕ

pub record SummarizationConfig : Type 0 where
  pub max_events_before_summary : ℕ
  pub max_tokens_before_summary : ℕ

pub record TaskSummary : Type 0 where
  pub task_id : String
  pub key_decisions : List String
  pub critical_findings : List String
  pub blockers : List String
  pub next_actions : List String
  pub events_summarized : ℕ
  pub original_token_count : ℕ
  pub compressed_token_count : ℕ
  pub supersedes_events : List String

pub record TaskOrchestrator : Type 0 where
  pub task_summaries : Dict (List TaskSummary)
  pub event_buffers : Dict (List SwarmEvent)
  pub token_counts : Dict ℕ

-- The four lists that the loop of `_summarize_task` fills.
pub record Extract : Type 0 where
  pub key_decisions : List String
  pub critical_findings : List String
  pub blockers : List String
  pub next_actions : List String

abbrev pub or_empty : Option String → String
or_empty none = ""
or_empty (some s) = s

abbrev pub list_at {ℓ} : {A : Type ℓ} → Option (List A) → List A
list_at none = []
list_at (some xs) = xs

abbrev pub count_at : Option ℕ → ℕ
count_at none = 0
count_at (some n) = n

-- The cases of the loop, in their order.
extract_other : SwarmEvent → Extract → Extract
extract_other e x = elim e.finding [
  | some f ↦ record x { critical_findings = x.critical_findings ++ f ∷ [] }
  | none ↦ elim e.next_action [
    | some a ↦ record x { next_actions = x.next_actions ++ a ∷ [] }
    | none ↦ x
  ]
]

extract_one : SwarmEvent → Extract → Extract
unfolding extract_other
extract_one e x = elim e.event_type [
  | decision_made ↦ record x { key_decisions = x.key_decisions ++ or_empty e.decision ∷ [] }
  | task_failed ↦ record x { blockers = x.blockers ++ or_empty e.error ∷ [] }
  | other ↦ extract_other e x
]

unfoldable pub extract : List SwarmEvent → Extract → Extract
unfolding extract_one
extract [] x = x
extract (e ∷ es) x = extract es (extract_one e x)

abbrev pub nothing : Extract
nothing = record { key_decisions = []; critical_findings = []; blockers = []; next_actions = [] }

unfoldable pub summary_of : (ℕ → ℕ) → String → List SwarmEvent → ℕ → TaskSummary
summary_of compress task_id events tokens =
    let x = extract events nothing in
    record {
      task_id = task_id;
      key_decisions = take 5 x.key_decisions;
      critical_findings = take 5 x.critical_findings;
      blockers = take 3 x.blockers;
      next_actions = take 3 x.next_actions;
      events_summarized = length events;
      original_token_count = tokens;
      compressed_token_count = compress tokens;
      supersedes_events = map (λ (e : SwarmEvent). e.event_id) events;
    }

-- `_summarize_task`: the summary is stored before it is published, the buffer cleared after it.
unfoldable pub summarize_task : (ℕ → ℕ) → Bool → String → TaskOrchestrator → TaskOrchestrator
summarize_task compress published task_id o = elim (list_at (Dict.get o.event_buffers task_id)) [
  | [] ↦ o
  | e ∷ es ↦
      let summary =
        summary_of compress task_id (e ∷ es) (count_at (Dict.get o.token_counts task_id)) in
      let summaries =
        Dict.put o.task_summaries task_id
          (list_at (Dict.get o.task_summaries task_id) ++ summary ∷ []) in
      if published
      then record {
        task_summaries = summaries;
        event_buffers = Dict.put o.event_buffers task_id [];
        token_counts = Dict.put o.token_counts task_id 0;
      }
      else record o { task_summaries = summaries }
]

-- The event is buffered and counted.
unfoldable pub buffer_event : SwarmEvent → TaskOrchestrator → TaskOrchestrator
buffer_event e o = record o {
  event_buffers =
      Dict.put o.event_buffers e.task_id (list_at (Dict.get o.event_buffers e.task_id) ++ e ∷ []);
  token_counts =
      Dict.put o.token_counts e.task_id (count_at (Dict.get o.token_counts e.task_id) + e.size / 4);
}

abbrev pub should_summarize : SummarizationConfig → String → TaskOrchestrator → Bool
should_summarize config task_id o =
    leb config.max_events_before_summary (length (list_at (Dict.get o.event_buffers task_id)))
    || leb config.max_tokens_before_summary (count_at (Dict.get o.token_counts task_id))

-- `_handle_event`
unfoldable pub handle_event :
    (ℕ → ℕ) → SummarizationConfig → Bool → SwarmEvent → TaskOrchestrator → TaskOrchestrator
handle_event compress config published e o =
    let buffered = buffer_event e o in
    if should_summarize config e.task_id buffered
    then summarize_task compress published e.task_id buffered
    else buffered

last_of : List TaskSummary → Option TaskSummary
last_of [] = none
last_of (s ∷ []) = some s
last_of (s ∷ t ∷ ss) = last_of (t ∷ ss)

-- `get_task_summary`
unfoldable pub get_task_summary : TaskOrchestrator → String → Option TaskSummary
unfolding last_of
get_task_summary o task_id = last_of (list_at (Dict.get o.task_summaries task_id))

-- `get_all_summaries`
abbrev pub get_all_summaries : TaskOrchestrator → String → List TaskSummary
get_all_summaries o task_id = list_at (Dict.get o.task_summaries task_id)
