-- ===== src/Profiler.antt =====
-- memu/implicit_profiler.py: the buffers of chat messages, their flush, and the merge of profiles. What
-- the model answers, and the write of the block, are not modelled.
pub mod Buffers
pub mod Merge
mod Tests
use fumemory.Base.{
  ℕ, ◌+◌, ◌-◌, ◌/◌, ltb, String, str_eq, Bool, true, false, not, Option, none, some, List, [], ◌∷◌,
  ◌++◌, if◌then◌else◌,
}
use fumemory.Base.Dict
use fumemory.Base.Dict.{Dict}
use fumemory.Base.Lists.{length, drop, filter, contains}
use fumemory.Base.Texts.{size, start}

abbrev pub max_batch_chars : ℕ
max_batch_chars = 4000

-- A flush waits for its time, or has taken the messages and extracts from them.
pub data Flush : Type 0 where
  waiting : Flush
  extracting : List String → Flush

-- `applied` is the trace of the batches that were extracted, the last one first; a task that is done
-- has no entry.
pub record ImplicitProfiler : Type 0 where
  pub buffers : Dict (List String)
  pub flush_tasks : Dict Flush
  pub applied : List (String × List String)

-- `self._buffers[agent_id]`
abbrev pub buffer_of : String → ImplicitProfiler → List String
buffer_of agent p = elim (Dict.get p.buffers agent) [ none ↦ [] | some buf ↦ buf ]

unfoldable pub total_size : List String → ℕ
unfolding size
total_size [] = 0
total_size (m ∷ ms) = size m + total_size ms

-- The message is added, and of a buffer that is too large the last messages stay.
unfoldable pub buffered : String → List String → List String
unfolding total_size start
buffered content buf =
    let longer = buf ++ start 1000 content ∷ [] in
    if ltb max_batch_chars (total_size longer)
    then drop (length longer - max_batch_chars / 500) longer
    else longer

-- `_on_message`, for a payload that is a dict: a flush that is not done is cancelled.
unfoldable pub on_message : String → String → ImplicitProfiler → ImplicitProfiler
unfolding buffered
on_message agent content p =
    if str_eq content "" then p else if str_eq agent "" then p else record p {
      buffers = Dict.put p.buffers agent (buffered content (buffer_of agent p));
      flush_tasks = Dict.put p.flush_tasks agent waiting;
    }

-- The messages of the buffer are taken, if there are some.
abbrev pub taken : String → List String → ImplicitProfiler → ImplicitProfiler
taken agent [] p = record p { flush_tasks = Dict.remove p.flush_tasks agent }
taken agent (m ∷ ms) p = record p {
  buffers = Dict.remove p.buffers agent;
  flush_tasks = Dict.put p.flush_tasks agent (extracting (m ∷ ms));
}

-- `_debounced_flush`, when its time is over.
unfoldable pub flush : String → ImplicitProfiler → ImplicitProfiler
flush agent p = elim (Dict.get p.flush_tasks agent) [
  | none ↦ p
  | some (extracting ms) ↦ p
  | some waiting ↦ taken agent (buffer_of agent p) p
]

-- `_extract_and_apply` ends.
unfoldable pub extracted : String → ImplicitProfiler → ImplicitProfiler
extracted agent p = elim (Dict.get p.flush_tasks agent) [
  | none ↦ p
  | some waiting ↦ p
  | some (extracting ms) ↦ record p {
    flush_tasks = Dict.remove p.flush_tasks agent;
    applied = (agent, ms) ∷ p.applied;
  }
]

-- A value of a profile: the values inside are texts.
pub data Value : Type 0 where
  texts : List String → Value
  fields : Dict String → Value
  scalar : String → Value

-- `{**old, **new}`
unfoldable pub with_fields : Dict String → Dict String → Dict String
with_fields old [] = old
with_fields old ((k, v) ∷ new) = with_fields (Dict.put old k v) new

unfoldable pub merge_value : Value → Value → Value
unfolding with_fields
merge_value (texts old) (texts new) = texts (old ++ filter (λ v. not (contains v old)) new)
merge_value (fields old) (fields new) = fields (with_fields old new)
merge_value _ new = new

abbrev pub merged_with : Value → Option Value → Value
unfolding merge_value
merged_with new none = new
merged_with new (some old) = merge_value old new

-- `_merge_profile`
unfoldable pub merge_profile : Dict Value → Dict Value → Dict Value
unfolding merged_with
merge_profile current [] = current
merge_profile current ((key, value) ∷ diff) =
    merge_profile (Dict.put current key (merged_with value (Dict.get current key))) diff
