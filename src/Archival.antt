-- ===== src/Archival.antt =====
-- memu/archival_pager.py: paragraphs of the Working_Context block go to the archive and come back.
-- The archive is the rows of the table `memories` that the pager inserts: `stores i` tells whether
-- the i-th INSERT succeeds, `embed` stands for the caller's embedding (`none` where there is none),
-- and `meanwhile` for what the other clients do to the bucket while the rows are inserted.
pub mod Evict
pub mod Page
mod Tests
use fumemory.Base.{
  ℕ, zero, suc, ◌+◌, ◌-◌, ◌==◌, leb, ltb, String, ◌<>◌, str_eq, Bool, true, false, ◌&&◌, not,
  Option, none, some, is_some, List, [], ◌∷◌, ◌++◌, map, Result, ok, err, if◌then◌else◌,
}
use fumemory.Base.Lists.{length, take, drop, filter}
use fumemory.Base.Texts.{join, split_paragraphs}
use fumemory.Nats.KeyValue.{KeyValue}
use fumemory.CoreMemory.{
  Block, working_context, BlockEntry, Failure, token_limit, get_block, update_block, append_block,
}
use fumemory.CoreMemory.Texts.{strip}

pub record Memory : Type 0 where
  pub content : String
  pub agent_id : String
  pub embedding : Option String

-- A row that the search returns, with the text that shows its similarity.
pub record Found : Type 0 where
  pub id : String
  pub content : String
  pub similarity : String

abbrev pub eviction_batch_size : ℕ
eviction_batch_size = 3

-- `int(limit * EVICTION_THRESHOLD)`, for the limit of Working_Context
abbrev pub eviction_threshold : ℕ
eviction_threshold = 3200

abbrev pub has_words : String → Bool
has_words p = not (str_eq (strip p) "")

unfoldable pub paragraphs : String → List String
paragraphs content = map strip (filter has_words (split_paragraphs content))

-- The loop of the INSERTs: how many succeeded, and the archive then.
unfoldable pub insert_all :
    (ℕ → Bool) → (String → Option String) → ℕ → String → List String → List Memory → ℕ × List Memory
insert_all stores embed i agent_id [] archive = (0, archive)
insert_all stores embed i agent_id (p ∷ ps) archive =
    let row : Memory = record { content = p; agent_id = agent_id; embedding = embed p } in
    let stored = insert_all stores embed (i + 1) agent_id ps (archive ++ row ∷ []) in
    let lost = insert_all stores embed (i + 1) agent_id ps archive in
    if stores i then (suc stored.0, stored.1) else lost

abbrev pub current_tokens : Option BlockEntry → ℕ
current_tokens none = 0
current_tokens (some entry) = entry.tokens

module _ (count_tokens : String → ℕ) (K : KeyValue String) (others : ℕ → K.Bucket → K.Bucket) where
  -- What `context_to_archival` does with an entry that it has read.
  unfoldable pub evict :
      (ℕ → Bool)
      → (String → Option String)
      → (K.Bucket → K.Bucket)
      → String
      → BlockEntry
      → K.Bucket
      → List Memory
      → ℕ × K.Bucket × List Memory
  evict stores embed meanwhile agent_id entry b archive =
      let ps = paragraphs entry.content in
      let (evicted, archive') =
        insert_all stores embed 0 agent_id (take eviction_batch_size ps) archive in
      let (answer, b') =
        update_block count_tokens K others agent_id working_context
          (join "\n\n" (drop eviction_batch_size ps)) entry.revision "agent" (meanwhile b) in
      if has_words entry.content && (ltb eviction_threshold entry.tokens && ltb 1 (length ps))
      then elim answer [ ok _ ↦ (evicted, b', archive') | err _ ↦ (0, b', archive') ]
      else (0, b, archive)

  -- `context_to_archival`
  unfoldable pub context_to_archival :
      (ℕ → Bool)
      → (String → Option String)
      → (K.Bucket → K.Bucket)
      → String
      → K.Bucket
      → List Memory
      → ℕ × K.Bucket × List Memory
  context_to_archival stores embed meanwhile agent_id b archive =
      elim (get_block count_tokens K others agent_id working_context b) [
        | none ↦ (0, b, archive)
        | some entry ↦ evict stores embed meanwhile agent_id entry b archive
      ]

  abbrev pub injection : List Found → String
  injection rows =
      join "\n\n"
        (map (λ (r : Found). "[archival|sim=" <> (r.similarity <> ("] " <> r.content))) rows)

  abbrev pub over : ℕ → List Found → Bool
  over current rows = ltb (token_limit working_context) (current + count_tokens (injection rows))

  -- The loop that pops rows from the end until the rest fits; `n` counts the rows that are left.
  unfoldable pub fit : ℕ → ℕ → List Found → List Found
  fit zero current rows = []
  fit (suc n) current rows =
      let rest = fit n current rows in
      if over current (take (suc n) rows) then rest else take (suc n) rows

  -- `page_from_archival`, from the rows of the search on: what it returns, and the bucket.
  unfoldable pub page_from_archival : String → List Found → K.Bucket → List Found × K.Bucket
  page_from_archival agent_id rows b =
      let current = current_tokens (get_block count_tokens K others agent_id working_context b) in
      let fitting = fit (length rows) current rows in
      let (answer, b') =
        append_block count_tokens K others agent_id working_context (injection fitting) "agent" "\n"
          b in
      if length fitting == 0
      then ([], b)
      else elim answer [ ok _ ↦ (fitting, b') | err _ ↦ ([], b') ]
