-- ===== src/Isolation.antt =====
-- memu/context_isolation.py: what agents hand to one another. `other` stands for a value that is
-- neither a text nor a dict, by its JSON; `json_size` for the bytes of a payload's JSON.
pub mod Clean
mod Tests
use fumemory.Base.{
  ℕ, zero, suc, ◌+◌, leb, ltb, String, ◌<>◌, str_eq, Bool, true, false, ◌&&◌, ◌||◌, not, Option,
  none, some, List, [], ◌∷◌, ◌++◌, Result, ok, err, if◌then◌else◌,
}
use fumemory.Base.Dict
use fumemory.Base.Dict.{Dict}
use fumemory.Base.Lists.{contains}
use fumemory.Base.Texts.{size, start}

mutual
  pub data Value : Type 0 where
    text : String → Value
    dict : Fields → Value
    other : String → Value

  -- The entries of a nested dict.
  pub data Fields : Type 0 where
    no_fields : Fields
    field : String → Value → Fields → Fields

abbrev pub max_payload_size_bytes : ℕ
max_payload_size_bytes = 8192

abbrev pub max_metadata_keys : ℕ
max_metadata_keys = 10

abbrev pub max_string_length : ℕ
max_string_length = 512

-- `list(value.items())[:n]`, and `len(value)`
unfoldable pub first_fields : ℕ → Fields → Fields
first_fields zero fs = no_fields
first_fields (suc n) no_fields = no_fields
first_fields (suc n) (field k v fs) = field k v (first_fields n fs)

unfoldable pub count_fields : Fields → ℕ
count_fields no_fields = 0
count_fields (field k v fs) = suc (count_fields fs)

-- The comprehension of a nested dict.
unfoldable pub without : List String → Fields → Fields
without keys no_fields = no_fields
without keys (field k v fs) =
    let rest = without keys fs in if contains k keys then rest else field k v rest

abbrev pub stripped_keys : List String
stripped_keys = "context_snapshot" ∷ "memory_version_hashes" ∷ "blackboard_entries" ∷ []

abbrev pub nested_keys : List String
nested_keys = "context_snapshot" ∷ "blackboard_entries" ∷ []

unfoldable pub strip_text : String → String → Dict Value → Dict Value
strip_text key s sanitized =
    if ltb max_string_length (size s)
    then (if str_eq key "checkpoint_state"
        then Dict.put sanitized "checkpoint_pointer" (text (start 64 s))
        else Dict.put sanitized key (text (start max_string_length s <> "...[truncated]")))
    else Dict.put sanitized key (text s)

unfoldable pub strip_dict : String → Fields → Dict Value → Dict Value
strip_dict key fs sanitized =
    if str_eq key "metadata"
    then (if ltb max_metadata_keys (count_fields fs)
        then Dict.put sanitized key (dict (first_fields max_metadata_keys fs))
        else Dict.put sanitized key (dict fs))
    else Dict.put sanitized key (dict (without nested_keys fs))

unfoldable pub strip_value : String → Value → Dict Value → Dict Value
unfolding strip_text strip_dict
strip_value key (text s) sanitized = strip_text key s sanitized
strip_value key (dict fs) sanitized = strip_dict key fs sanitized
strip_value key (other json) sanitized = Dict.put sanitized key (other json)

-- One turn of the loop.
unfoldable pub strip_entry : String × Value → Dict Value → Dict Value
unfolding strip_value
strip_entry (key, value) sanitized =
    if contains key stripped_keys then sanitized else strip_value key value sanitized

-- `strip_context_bleed`
unfoldable pub strip_context_bleed : Dict Value → Dict Value → Dict Value
strip_context_bleed [] sanitized = sanitized
strip_context_bleed (entry ∷ payload) sanitized =
    strip_context_bleed payload (strip_entry entry sanitized)

-- `ContextIsolationError`
pub data Refused : Type 0 where
  too_large : ℕ → Refused

-- `enforce_payload_size_limit`
unfoldable pub enforce_payload_size_limit :
    (Dict Value → ℕ) → Dict Value → ℕ → Result Refused (Dict Value)
enforce_payload_size_limit json_size payload max_bytes =
    if ltb max_bytes (json_size payload) then err (too_large (json_size payload)) else ok payload

unfoldable pub only : List String → Dict Value → Dict Value
only keys [] = []
only keys ((k, v) ∷ d) = let rest = only keys d in if contains k keys then (k, v) ∷ rest else rest

-- The entries of a dict as a payload.
unfoldable pub entries : Fields → Dict Value
entries no_fields = []
entries (field k v fs) = (k, v) ∷ entries fs

unfoldable pub fields : Dict Value → Fields
fields [] = no_fields
fields ((k, v) ∷ d) = field k v (fields d)

with_payload : Option Value → Dict Value → Dict Value
with_payload (some (dict fs)) sanitized =
    Dict.put sanitized "payload" (dict (fields (strip_context_bleed (entries fs) [])))
with_payload _ sanitized = sanitized

-- `sanitize_agent_message`
unfoldable pub sanitize_agent_message : Dict Value → List String → Dict Value
unfolding with_payload
sanitize_agent_message message allowed_keys =
    with_payload (Dict.get message "payload") (only allowed_keys message)

abbrev pub handoff_keys : List String
handoff_keys = "context_snapshot" ∷ "checkpoint_state" ∷ "blackboard_entries" ∷ []

abbrev pub shortened : Value → Value
shortened (text s) = text (start max_string_length s)
shortened (dict fs) = dict fs
shortened (other json) = other json

-- The loop over `kwargs`
unfoldable pub add_kwargs : Dict Value → Dict Value → Dict Value
add_kwargs [] payload = payload
add_kwargs ((key, value) ∷ kwargs) payload =
    add_kwargs kwargs
      (if contains key handoff_keys then payload else Dict.put payload key (shortened value))

abbrev pub description_value : Option String → Value
description_value none = other "null"
description_value (some s) = if str_eq s "" then other "null" else text (start 512 s)

-- `create_minimal_task_handoff`
unfoldable pub create_minimal_task_handoff :
    (Dict Value → ℕ)
    → String
    → String
    → String
    → Option String
    → Dict Value
    → Result Refused (Dict Value)
create_minimal_task_handoff json_size task_id agent_id title description kwargs =
    enforce_payload_size_limit json_size
      (add_kwargs kwargs (
        ("task_id", text task_id)
        ∷ ("agent_id", text agent_id)
        ∷ ("title", text (start 256 title))
        ∷ ("description", description_value description)
        ∷ []))
      max_payload_size_bytes
