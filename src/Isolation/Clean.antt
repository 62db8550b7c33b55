-- ===== src/Isolation/Clean.antt =====
-- memu/context_isolation.py: what is left of a payload.
use fumemory.Base.{
  ℕ, zero, suc, ◌≤◌, ltb, String, ◌<>◌, str_eq, ◌≡◌, ◌≢◌, refl, ap, true, false, ◌||◌, ◌<◌, Option,
  none, some, List, [], ◌∷◌, arith, inl, inr, Bool-cases, Result, ok, err, if◌then◌else◌,
}
use fumemory.Base.Dict
use fumemory.Base.Dict.{Dict, All-put}
use fumemory.Base.Lists.{All, contains}
use fumemory.Base.Texts.{size, start, size-start, size-append}
use fumemory.Isolation.{
  Value, text, dict, other, Fields, no_fields, field, max_payload_size_bytes, max_metadata_keys,
  max_string_length, first_fields, count_fields, without, stripped_keys, nested_keys, strip_text,
  strip_dict, strip_value, strip_entry, strip_context_bleed, Refused, too_large,
  enforce_payload_size_limit, handoff_keys, shortened, add_kwargs, description_value,
  create_minimal_task_handoff,
}

-- No entry of the dict has the key.
abbrev pub HasNo : String → Fields → Type 0
HasNo key no_fields = Unit
HasNo key (field k v fs) = (k ≢ key) × HasNo key fs

contains-apart :
    (k x : String) (keys : List String) → contains k keys ≡ false → contains x keys ≡ true → k ≢ x
contains-apart k x keys out within e =
    absurd (ground (arith, ap (λ y. contains y keys) e, out, within))

HasNo-without :
    (key : String) (keys : List String) (fs : Fields)
    → contains key keys ≡ true
    → HasNo key (without keys fs)
unfolding without
HasNo-without key keys no_fields h = tt
HasNo-without key keys (field k v fs) h = elim (Bool-cases (contains k keys)) [
  | inl e ↦ rw (e, without) (HasNo-without key keys fs h)
  | inr e ↦ rw (e, without) (contains-apart k key keys e h, HasNo-without key keys fs h)
]

count-first : (n : ℕ) (fs : Fields) → count_fields (first_fields n fs) ≤ n
unfolding count_fields first_fields
count-first zero fs = omega arith
count-first (suc n) no_fields = omega arith
count-first (suc n) (field k v fs) = ground (arith, count-first n fs)

-- A value that may stand at the key: a text has at most 512 characters and the 14 of the mark of a
-- cut, metadata that is a dict has at most ten keys, and another dict has neither of two keys itself.
abbrev pub Fits : String → Value → Type 0
Fits k (text s) = size s ≤ 526
Fits k (dict fs) =
    if str_eq k "metadata"
    then count_fields fs ≤ 10
    else HasNo "context_snapshot" fs × HasNo "blackboard_entries" fs
Fits k (other json) = Unit

abbrev pub MayStand : String → Type 0
MayStand k = (k ≢ "context_snapshot") × (k ≢ "memory_version_hashes") × (k ≢ "blackboard_entries")

pub record Clean (entry : String × Value) : Type 0 where
  pub key : MayStand entry.0
  pub value : Fits entry.0 entry.1

allowed-MayStand : (k : String) → contains k stripped_keys ≡ false → MayStand k
unfolding contains
allowed-MayStand k h = (
  contains-apart k "context_snapshot" stripped_keys h refl,
  contains-apart k "memory_version_hashes" stripped_keys h refl,
  contains-apart k "blackboard_entries" stripped_keys h refl,
)

pointer_allowed : MayStand "checkpoint_pointer"
unfolding contains
pointer_allowed = allowed-MayStand "checkpoint_pointer" refl

nested-HasNo :
    (fs : Fields)
    → HasNo "context_snapshot" (without nested_keys fs)
      × HasNo "blackboard_entries" (without nested_keys fs)
unfolding contains
nested-HasNo fs = (
  HasNo-without "context_snapshot" nested_keys fs refl,
  HasNo-without "blackboard_entries" nested_keys fs refl,
)

truncated_size : (s : String) → size (start 512 s <> "...[truncated]") ≤ 526
unfolding size
truncated_size s =
    let mark : size "...[truncated]" ≡ 14 = refl in
    ground (arith, size-append (start 512 s) "...[truncated]", size-start 512 s, mark)

strip_text-Clean :
    (key s : String) (sanitized : Dict Value)
    → MayStand key
    → All Clean sanitized
    → All Clean (strip_text key s sanitized)
unfolding strip_text
strip_text-Clean key s sanitized allowed h = elim (Bool-cases (ltb max_string_length (size s))) [
  | inr short ↦
      rw (short, strip_text)
        (All-put Clean sanitized key (text s) h
          (record { key = allowed; value = ground (arith, short) }))
  | inl long ↦ elim (Bool-cases (str_eq key "checkpoint_state")) [
    | inl e ↦
        rw (long, e, strip_text)
          (All-put Clean sanitized "checkpoint_pointer" (text (start 64 s)) h
            (record { key = pointer_allowed; value = ground (arith, size-start 64 s) }))
    | inr e ↦
        rw (long, e, strip_text)
          (All-put Clean sanitized key (text (start 512 s <> "...[truncated]")) h
            (record { key = allowed; value = truncated_size s }))
  ]
]

strip_dict-Clean :
    (key : String) (fs : Fields) (sanitized : Dict Value)
    → MayStand key
    → All Clean sanitized
    → All Clean (strip_dict key fs sanitized)
unfolding strip_dict
strip_dict-Clean key fs sanitized allowed h = elim (Bool-cases (str_eq key "metadata")) [
  | inr e ↦
      rw (e, strip_dict)
        (All-put Clean sanitized key (dict (without nested_keys fs)) h
          (record { key = allowed; value = rw e (nested-HasNo fs) }))
  | inl e ↦ elim (Bool-cases (ltb max_metadata_keys (count_fields fs))) [
    | inl many ↦
        rw (e, many, strip_dict)
          (All-put Clean sanitized key (dict (first_fields max_metadata_keys fs)) h
            (record { key = allowed; value = rw e (count-first max_metadata_keys fs) }))
    | inr few ↦
        rw (e, few, strip_dict)
          (All-put Clean sanitized key (dict fs) h
            (record { key = allowed; value = rw e (ground (arith, few)) }))
  ]
]

strip_value-Clean :
    (key : String) (value : Value) (sanitized : Dict Value)
    → MayStand key
    → All Clean sanitized
    → All Clean (strip_value key value sanitized)
unfolding strip_value
strip_value-Clean key (text s) sanitized allowed h = strip_text-Clean key s sanitized allowed h
strip_value-Clean key (dict fs) sanitized allowed h = strip_dict-Clean key fs sanitized allowed h
strip_value-Clean key (other json) sanitized allowed h =
    All-put Clean sanitized key (other json) h (record { key = allowed; value = tt })

strip_entry-Clean :
    (entry : String × Value) (sanitized : Dict Value)
    → All Clean sanitized
    → All Clean (strip_entry entry sanitized)
unfolding strip_entry
strip_entry-Clean (key, value) sanitized h = elim (Bool-cases (contains key stripped_keys)) [
  | inl e ↦ rw (e, strip_entry) h
  | inr e ↦ rw (e, strip_entry) (strip_value-Clean key value sanitized (allowed-MayStand key e) h)
]

strip_context_bleed-Clean :
    (payload sanitized : Dict Value)
    → All Clean sanitized
    → All Clean (strip_context_bleed payload sanitized)
unfolding strip_context_bleed
strip_context_bleed-Clean [] sanitized h = h
strip_context_bleed-Clean (entry ∷ payload) sanitized h =
    strip_context_bleed-Clean payload (strip_entry entry sanitized)
      (strip_entry-Clean entry sanitized h)

-- Whatever the payload: no entry that `strip_context_bleed` leaves has the key of a snapshot, of the
-- memory's hashes or of the blackboard; an entry that is a text has at most 526 characters, that is
-- the limit and the mark of the cut; metadata that is a dict has at most ten keys; and any other dict
-- has, among its own keys, none of a snapshot or of the blackboard. Nothing is said of what lies
-- deeper, nor of the texts and keys inside metadata.
pub strip_context_bleed_lem : (payload : Dict Value) → All Clean (strip_context_bleed payload [])
strip_context_bleed_lem payload = strip_context_bleed-Clean payload [] tt

-- What a handoff may carry: no key of the stripped ones, and of texts no more than the limit, but for
-- the two identifiers.
abbrev pub Brief : String → Value → Type 0
Brief k (text s) =
    if str_eq k "task_id" || str_eq k "agent_id" then Unit else (size s ≤ max_string_length)
Brief k (dict fs) = Unit
Brief k (other json) = Unit

pub record Minimal (entry : String × Value) : Type 0 where
  pub key : contains entry.0 handoff_keys ≡ false
  pub value : Brief entry.0 entry.1

shortened-Brief : (k : String) (value : Value) → Brief k (shortened value)
shortened-Brief k (text s) = elim (Bool-cases (str_eq k "task_id" || str_eq k "agent_id")) [
  | inl e ↦ rw e tt
  | inr e ↦ rw e (size-start max_string_length s)
]
shortened-Brief k (dict fs) = tt
shortened-Brief k (other json) = tt

add_kwargs-Minimal :
    (kwargs payload : Dict Value) → All Minimal payload → All Minimal (add_kwargs kwargs payload)
unfolding add_kwargs
add_kwargs-Minimal [] payload h = h
add_kwargs-Minimal ((key, value) ∷ kwargs) payload h =
    elim (Bool-cases (contains key handoff_keys)) [
      | inl e ↦ rw (e, add_kwargs) (add_kwargs-Minimal kwargs payload h)
      | inr e ↦
          rw (e, add_kwargs)
            (add_kwargs-Minimal kwargs (Dict.put payload key (shortened value)) (
              All-put Minimal payload key (shortened value) h
                (record { key = e; value = shortened-Brief key value })))
    ]

description-Brief :
    (description : Option String) → Brief "description" (description_value description)
description-Brief none = tt
description-Brief (some s) = elim (Bool-cases (str_eq s "")) [
  | inl e ↦ rw e tt
  | inr e ↦ rw e (size-start 512 s)
]

-- A payload that is handed off, or the size for which it was refused.
abbrev pub Handed : (Dict Value → ℕ) → Result Refused (Dict Value) → Type 0
Handed json_size (ok payload) = (json_size payload ≤ max_payload_size_bytes) × All Minimal payload
Handed json_size (err (too_large n)) = max_payload_size_bytes < n

-- A handoff that is made is within the size limit, and every entry of it is minimal, whatever the
-- caller adds; and a handoff that is refused is over the limit.
create_minimal_task_handoff_lem :
    (json_size : Dict Value → ℕ) (task_id agent_id title : String) (description : Option String)
    (kwargs : Dict Value)
    → Handed json_size
        (create_minimal_task_handoff json_size task_id agent_id title description kwargs)
unfolding create_minimal_task_handoff enforce_payload_size_limit contains
create_minimal_task_handoff_lem json_size task_id agent_id title description kwargs =
    let base : Dict Value =
      ("task_id", text task_id)
      ∷ ("agent_id", text agent_id)
      ∷ ("title", text (start 256 title))
      ∷ ("description", description_value description)
      ∷ [] in
    let made = add_kwargs kwargs base in
    let short = size-start 256 title in
    let minimal = add_kwargs-Minimal kwargs base (
      record { key = refl; value = tt },
      (
        record { key = refl; value = tt },
        (
          record { key = refl; value = omega arith },
          (record { key = refl; value = description-Brief description }, tt),
        ),
      ),
    ) in
    elim (Bool-cases (ltb max_payload_size_bytes (json_size made))) [
      | inl e ↦ rw (e, create_minimal_task_handoff) (ground (arith, e))
      | inr e ↦ rw (e, create_minimal_task_handoff) (ground (arith, e), minimal)
    ]
