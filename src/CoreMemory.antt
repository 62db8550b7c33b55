-- ===== src/CoreMemory.antt =====
-- memu/core_memory.py: the memory blocks of the agents in a key-value bucket, written by compare and
-- swap. `count_tokens` stands for the tokenizer, and `others j` for what the other clients do to the
-- bucket while the j-th await of a call waits.
pub mod Texts
pub mod Truncate
pub mod Atomic
pub mod Overwrite
pub mod Agents
mod Tests
use Prim.Native.Char.{code}
use fumemory.Base.{
  ℕ, zero, suc, ◌+◌, ◌==◌, ltb, String, ◌<>◌, str_eq, Bool, true, false, ◌&&◌, ◌||◌, not, Option,
  none, some, List, [], ◌∷◌, ◌++◌, Result, ok, err, if◌then◌else◌,
}
use fumemory.Nats.KeyValue.{KeyValue, Entry}
use fumemory.CoreMemory.Texts.{is_safe_payload, has_text, replace_first, strip}

pub data Block : Type 0 where
  system persona user_profile working_context primed_cache : Block

abbrev pub all_blocks : List Block
all_blocks = system ∷ persona ∷ user_profile ∷ working_context ∷ primed_cache ∷ []

-- `block.value`
unfoldable pub value : Block → String
value system = "System"
value persona = "Persona"
value user_profile = "User_Profile"
value working_context = "Working_Context"
value primed_cache = "Primed_Cache"

unfoldable pub is_agent_writable : Block → Bool
is_agent_writable working_context = true
is_agent_writable _ = false

unfoldable pub is_worker_writable : Block → Bool
is_worker_writable primed_cache = true
is_worker_writable user_profile = true
is_worker_writable _ = false

unfoldable pub token_limit : Block → ℕ
token_limit system = 1500
token_limit persona = 1000
token_limit user_profile = 2000
token_limit working_context = 4000
token_limit primed_cache = 2000

pub record BlockEntry : Type 0 where
  pub content : String
  pub revision : ℕ
  pub tokens : ℕ

-- `PermissionError`, the `ValueError`s, `MemoryConcurrencyError`, and a create that is refused.
pub data Failure : Type 0 where
  permission quarantined too_long missing_block missing_text concurrency key_exists : Failure

abbrev pub max_cas_retries : ℕ
max_cas_retries = 5

unfoldable pub key : String → Block → String
unfolding value
key agent_id block = "agent_" <> (agent_id <> ("." <> value block))

-- Only the callers "agent" and "worker" are restricted.
unfoldable pub may_write : String → Block → Bool
unfolding is_agent_writable is_worker_writable
may_write caller block =
    not (str_eq caller "agent" && not (is_agent_writable block))
    && not (str_eq caller "worker" && not (is_worker_writable block))

-- `(current + separator + text).strip() if current else text.strip()`
unfoldable pub appended : String → String → String → String
appended separator text current =
    if str_eq current "" then strip text else strip (current <> (separator <> text))

-- The revision and the text that are read; a missing key has the revision 0 and no text.
abbrev pub read_revision : Option (Entry String) → ℕ
read_revision none = 0
read_revision (some e) = e.revision

abbrev pub read_text : Option (Entry String) → String
read_text none = ""
read_text (some e) = e.value

module _ (count_tokens : String → ℕ) (K : KeyValue String) (others : ℕ → K.Bucket → K.Bucket) where
  abbrev Answer : Type 0
  Answer = Result Failure BlockEntry × K.Bucket

  unfoldable pub swap : K.Bucket → String → String → ℕ → Option K.Bucket
  swap b k text revision = if revision == 0 then K.create b k text else K.update b k text revision

  -- `get_block`
  unfoldable pub get_block : String → Block → K.Bucket → Option BlockEntry
  get_block agent_id block b = elim (K.get b (key agent_id block)) [
    | none ↦ none
    | some e ↦
        some (record { content = e.value; revision = e.revision; tokens = count_tokens e.value })
  ]

  -- The loop of `update_block`: a write, and after a conflict a new reading of the revision.
  unfoldable pub update_loop : ℕ → ℕ → String → String → ℕ → K.Bucket → Answer
  unfolding swap
  update_loop zero j k text revision b = (err concurrency, b)
  update_loop (suc n) j k text revision b =
      let b1 = others j b in
      let b2 = others (j + 1) b1 in
      let again = update_loop n (j + 2) k text (read_revision (K.get b2 k)) b2 in
      elim (swap b1 k text revision) [
        | none ↦ again
        | some b' ↦
            (ok (record { content = text; revision = K.last b'; tokens = count_tokens text }), b')
      ]

  -- `update_block`
  unfoldable pub update_block : String → Block → String → ℕ → String → K.Bucket → Answer
  update_block agent_id block content expected_revision caller b =
      if not (is_safe_payload content)
      then (err quarantined, b)
      else if not (may_write caller block)
      then (err permission, b)
      else if ltb (token_limit block) (count_tokens content)
      then (err too_long, b)
      else update_loop max_cas_retries 0 (key agent_id block) content expected_revision b

  -- The loop of `append_block`: a reading, the test of the length, and a write.
  unfoldable pub append_loop : ℕ → ℕ → String → ℕ → (String → String) → K.Bucket → Answer
  unfolding swap
  append_loop zero j k limit change b = (err concurrency, b)
  append_loop (suc n) j k limit change b =
      let b1 = others j b in
      let b2 = others (j + 1) b1 in
      let text = change (read_text (K.get b1 k)) in
      let again = append_loop n (j + 2) k limit change b2 in
      if ltb limit (count_tokens text)
      then (err too_long, b1)
      else elim (swap b2 k text (read_revision (K.get b1 k))) [
        | none ↦ again
        | some b' ↦
            (ok (record { content = text; revision = K.last b'; tokens = count_tokens text }), b')
      ]

  -- `append_block`, which does not read its `caller`
  unfoldable pub append_block : String → Block → String → String → String → K.Bucket → Answer
  append_block agent_id block text caller separator b =
      append_loop max_cas_retries 0 (key agent_id block) (token_limit block)
        (appended separator text) b

  -- What `replace_in_block` makes of what it reads.
  unfoldable pub replaced : ℕ → String → String → Option (Entry String) → Result Failure String
  replaced limit old new none = err missing_block
  replaced limit old new (some e) =
      if has_text old e.value
      then (if ltb limit (count_tokens (replace_first old new e.value))
          then err too_long
          else ok (replace_first old new e.value))
      else err missing_text

  unfoldable pub replace_loop : ℕ → ℕ → String → ℕ → String → String → K.Bucket → Answer
  unfolding replaced
  replace_loop zero j k limit old new b = (err concurrency, b)
  replace_loop (suc n) j k limit old new b =
      let b1 = others j b in
      let b2 = others (j + 1) b1 in
      let again = replace_loop n (j + 2) k limit old new b2 in
      elim (replaced limit old new (K.get b1 k)) [
        | err e ↦ (err e, b1)
        | ok text ↦ elim (K.update b2 k text (read_revision (K.get b1 k))) [
          | none ↦ again
          | some b' ↦
              (ok (record { content = text; revision = K.last b'; tokens = count_tokens text }), b')
        ]
      ]

  -- `replace_in_block`
  unfoldable pub replace_in_block : String → Block → String → String → String → K.Bucket → Answer
  replace_in_block agent_id block old new caller b =
      if may_write caller block
      then replace_loop max_cas_retries 0 (key agent_id block) (token_limit block) old new b
      else (err permission, b)
