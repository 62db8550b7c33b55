-- ===== src/Tasks/Bounds.antt =====
-- memu/task_orchestrator.py: how much is buffered.
use fumemory.Base.{
  ℕ, ◌+◌, ◌/◌, ◌<◌, String, str_eq, eq_iff, eq_refl, ◌≡◌, ◌≢◌, true, false, [], ◌∷◌, ◌++◌, arith,
  inl, inr, Bool-cases,
}
use mathlib.Core.List.{concat-ne-nil}
use fumemory.Base.Dict
use fumemory.Base.Dict.{Dict, get-put}
use fumemory.Base.Lists.{length}
use fumemory.Tasks.{
  SwarmEvent, SummarizationConfig, TaskOrchestrator, list_at, count_at, summarize_task,
  buffer_event, should_summarize, handle_event,
}

-- Every task buffers fewer events, and counts fewer tokens, than the limits.
abbrev pub Bounded : SummarizationConfig → TaskOrchestrator → Type 0
Bounded config o =
    (k : String)
    → (length (list_at (Dict.get o.event_buffers k)) < config.max_events_before_summary)
      × (count_at (Dict.get o.token_counts k) < config.max_tokens_before_summary)

-- A limit that is kept for all tasks but one, which has something in its buffer.
summarize_task-Bounded :
    (compress : ℕ → ℕ) (config : SummarizationConfig) (id : String) (o : TaskOrchestrator)
    (k : String)
    → 0 < config.max_events_before_summary
    → 0 < config.max_tokens_before_summary
    → list_at (Dict.get o.event_buffers id) ≢ []
    → (str_eq id k ≡ false
        → (length (list_at (Dict.get o.event_buffers k)) < config.max_events_before_summary)
          × (count_at (Dict.get o.token_counts k) < config.max_tokens_before_summary))
    → (length (list_at (Dict.get (summarize_task compress true id o).event_buffers k))
        < config.max_events_before_summary)
      × (count_at (Dict.get (summarize_task compress true id o).token_counts k)
          < config.max_tokens_before_summary)
unfolding summarize_task length
summarize_task-Bounded compress config id o k some_events some_tokens full other = ground (
  arith,
  some_events,
  some_tokens,
  full,
  other,
  get-put o.event_buffers id [] k,
  get-put o.token_counts id 0 k,
)

-- Whatever event comes, as long as the summaries are published: with limits that are not zero, no
-- task ever holds as many events, or tokens, as its limit.
pub handle_event-Bounded :
    (compress : ℕ → ℕ) (config : SummarizationConfig) (e : SwarmEvent) (o : TaskOrchestrator)
    → 0 < config.max_events_before_summary
    → 0 < config.max_tokens_before_summary
    → Bounded config o
    → Bounded config (handle_event compress config true e o)
unfolding handle_event buffer_event
handle_event-Bounded compress config e o some_events some_tokens bounded k =
    let own = list_at (Dict.get o.event_buffers e.task_id) ++ e ∷ [] in
    let tokens = count_at (Dict.get o.token_counts e.task_id) + e.size / 4 in
    let events_at = get-put o.event_buffers e.task_id own in
    let tokens_at = get-put o.token_counts e.task_id tokens in
    elim (Bool-cases (should_summarize config e.task_id (buffer_event e o))) [
      | inl full ↦
          rw (full, handle_event)
            (summarize_task-Bounded compress config e.task_id (buffer_event e o) k some_events
              some_tokens
              (λ h. ground (
                arith,
                h,
                events_at e.task_id,
                eq_refl e.task_id,
                concat-ne-nil e (list_at (Dict.get o.event_buffers e.task_id)),
              ))
              (λ h. ground (arith, h, events_at k, tokens_at k, bounded k)))
      | inr small ↦
          rw (small, handle_event)
            (ground (
              arith,
              small,
              events_at k,
              tokens_at k,
              events_at e.task_id,
              tokens_at e.task_id,
              eq_iff e.task_id k,
              eq_refl e.task_id,
              bounded k,
            ))
    ]
