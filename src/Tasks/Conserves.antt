-- ===== src/Tasks/Conserves.antt =====
-- memu/task_orchestrator.py: the events that the summaries of a task supersede.
use mathlib.Core.List.{append_assoc, append-nil, map-append}
use fumemory.Base.{
  ℕ, String, str_eq, eq_iff, eq_refl, ◌≡◌, refl, sym, ap, ◌∙◌, Bool, true, false, ◌&&◌, List, [],
  ◌∷◌, ◌++◌, map, arith, inl, inr, Bool-cases, if◌then◌else◌,
}
use fumemory.Base.Dict
use fumemory.Base.Dict.{Dict, get-put}
use fumemory.Base.Lists.{foldl, List-cases}
use fumemory.Tasks.{
  SwarmEvent, SummarizationConfig, TaskSummary, TaskOrchestrator, list_at, count_at, summary_of,
  summarize_task, buffer_event, should_summarize, handle_event,
}

unfoldable pub superseded : List TaskSummary → List String
superseded [] = []
superseded (s ∷ ss) = s.supersedes_events ++ superseded ss

abbrev pub ids : List SwarmEvent → List String
ids = map (λ (e : SwarmEvent). e.event_id)

abbrev pub superseded_at : String → TaskOrchestrator → List String
superseded_at k o = superseded (list_at (Dict.get o.task_summaries k))

abbrev pub buffered_at : String → TaskOrchestrator → List String
buffered_at k o = ids (list_at (Dict.get o.event_buffers k))

superseded-append :
    (ss : List TaskSummary) (s : TaskSummary)
    → superseded (ss ++ s ∷ []) ≡ superseded ss ++ s.supersedes_events
unfolding superseded
superseded-append [] s = append-nil s.supersedes_events
superseded-append (t ∷ ss) s =
    ap (λ l. t.supersedes_events ++ l) (superseded-append ss s)
    ∙ sym (append_assoc t.supersedes_events (superseded ss) s.supersedes_events)

buffered-buffer :
    (e : SwarmEvent) (o : TaskOrchestrator) (k : String)
    → buffered_at k (buffer_event e o)
      ≡ (if str_eq e.task_id k then buffered_at k o ++ e.event_id ∷ [] else buffered_at k o)
unfolding buffer_event
buffered-buffer e o k =
    let own = list_at (Dict.get o.event_buffers e.task_id) in
    ground (
      arith,
      get-put o.event_buffers e.task_id (own ++ e ∷ []) k,
      eq_iff e.task_id k,
      map-append (λ (x : SwarmEvent). x.event_id) own (e ∷ []),
    )

summarized-superseded :
    (compress : ℕ → ℕ) (published : Bool) (id : String) (o : TaskOrchestrator) (k : String)
    → superseded_at k (summarize_task compress published id o)
      ≡ (if str_eq id k then superseded_at k o ++ buffered_at k o else superseded_at k o)
unfolding summarize_task summary_of
summarized-superseded compress published id o k =
    elim (List-cases (list_at (Dict.get o.event_buffers id))) [
      | inl none_left ↦
          rw (none_left, summarize_task)
            (ground (arith, none_left, eq_iff id k, append-nil (superseded_at k o)))
      | inr (e, es, some_left) ↦
          let old = list_at (Dict.get o.task_summaries id) in
          let s = summary_of compress id (e ∷ es) (count_at (Dict.get o.token_counts id)) in
          rw (some_left, summarize_task)
            (ground (
              arith,
              some_left,
              eq_iff id k,
              get-put o.task_summaries id (old ++ s ∷ []) k,
              superseded-append old s,
            ))
    ]

summarized-buffered :
    (compress : ℕ → ℕ) (published : Bool) (id : String) (o : TaskOrchestrator) (k : String)
    → buffered_at k (summarize_task compress published id o)
      ≡ (if published && str_eq id k then [] else buffered_at k o)
unfolding summarize_task
summarized-buffered compress published id o k =
    ground (arith, eq_iff id k, get-put o.event_buffers id [] k)

superseded-buffer :
    (e : SwarmEvent) (o : TaskOrchestrator) (k : String)
    → superseded_at k (buffer_event e o) ≡ superseded_at k o
unfolding buffer_event
superseded-buffer e o k = refl

-- The events of the task `k`, those that its summaries supersede and those that wait, in order.
abbrev pub told : String → TaskOrchestrator → List String
told k o = superseded_at k o ++ buffered_at k o

abbrev pub event_of : String → SwarmEvent → List String
event_of k e = if str_eq e.task_id k then e.event_id ∷ [] else []

told-buffer :
    (e : SwarmEvent) (o : TaskOrchestrator) (k : String)
    → told k (buffer_event e o) ≡ told k o ++ event_of k e
told-buffer e o k = ground (
  arith,
  superseded-buffer e o k,
  buffered-buffer e o k,
  append-nil (told k o),
  append_assoc (superseded_at k o) (buffered_at k o) (e.event_id ∷ []),
)

told-summarize :
    (compress : ℕ → ℕ) (id : String) (o : TaskOrchestrator) (k : String)
    → told k (summarize_task compress true id o) ≡ told k o
told-summarize compress id o k = ground (
  arith,
  summarized-superseded compress true id o k,
  summarized-buffered compress true id o k,
  append-nil (told k o),
)

told-handle :
    (compress : ℕ → ℕ) (config : SummarizationConfig) (e : SwarmEvent) (o : TaskOrchestrator)
    (k : String)
    → told k (handle_event compress config true e o) ≡ told k o ++ event_of k e
unfolding handle_event
told-handle compress config e o k =
    elim (Bool-cases (should_summarize config e.task_id (buffer_event e o))) [
      | inl full ↦
          rw (full, handle_event)
            (told-summarize compress e.task_id (buffer_event e o) k ∙ told-buffer e o k)
      | inr small ↦ rw (small, handle_event) (told-buffer e o k)
    ]

abbrev pub handle_all :
    (ℕ → ℕ) → SummarizationConfig → List SwarmEvent → TaskOrchestrator → TaskOrchestrator
handle_all compress config es o = foldl (λ o e. handle_event compress config true e o) o es

unfoldable pub events_of : String → List SwarmEvent → List String
events_of k [] = []
events_of k (e ∷ es) = event_of k e ++ events_of k es

-- While the summaries are published, no event is lost and none is summarized twice: after any events,
-- what the summaries of a task supersede, with what waits in its buffer, is what it was before with the
-- events of the task behind it, in their order.
pub handle_all_lem :
    (compress : ℕ → ℕ) (config : SummarizationConfig) (es : List SwarmEvent) (o : TaskOrchestrator)
    (k : String)
    → told k (handle_all compress config es o) ≡ told k o ++ events_of k es
unfolding foldl events_of
handle_all_lem compress config [] o k = sym (append-nil (told k o))
handle_all_lem compress config (e ∷ es) o k =
    handle_all_lem compress config es (handle_event compress config true e o) k
    ∙ ap (λ l. l ++ events_of k es) (told-handle compress config e o k)
    ∙ append_assoc (told k o) (event_of k e) (events_of k es)

-- When the summary that an event brings about cannot be published, its events are in a summary and
-- stay in the buffer, so that the next summary of the task supersedes them again.
handle_event_unpublished :
    (compress : ℕ → ℕ) (config : SummarizationConfig) (e : SwarmEvent) (o : TaskOrchestrator)
    → should_summarize config e.task_id (buffer_event e o) ≡ true
    → let o' = handle_event compress config false e o in
      let waiting = buffered_at e.task_id o ++ e.event_id ∷ [] in
      (superseded_at e.task_id o' ≡ superseded_at e.task_id o ++ waiting)
      × (buffered_at e.task_id o' ≡ waiting)
unfolding handle_event
handle_event_unpublished compress config e o full =
    let b = buffer_event e o in
    rw (full, handle_event)
      (
        ground (
          arith,
          eq_refl e.task_id,
          summarized-superseded compress false e.task_id b e.task_id,
          superseded-buffer e o e.task_id,
          buffered-buffer e o e.task_id,
        ),
        ground (
          arith,
          eq_refl e.task_id,
          summarized-buffered compress false e.task_id b e.task_id,
          buffered-buffer e o e.task_id,
        ),
      )
