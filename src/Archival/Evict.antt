-- ===== src/Archival/Evict.antt =====
-- memu/archival_pager.py: what `context_to_archival` keeps and what it loses.
use fumemory.Base.{
  ℕ, ◌+◌, ◌≤◌, ltb, String, str_eq, ◌≡◌, refl, sym, ap, ◌∙◌, Bool, true, false, ◌&&◌, Option, List,
  [], ◌∷◌, ◌++◌, map, arith,
}
use mathlib.Core.List.{append_assoc, append-nil}
use fumemory.Base.Lists.{All, length, take, drop, filter}
use fumemory.Base.Texts.{join, split_paragraphs-join, one_line_breaks}
use fumemory.Nats.KeyValue.{KeyValue}
use fumemory.CoreMemory.{working_context, BlockEntry, token_limit, key, may_write}
use fumemory.CoreMemory.Atomic.{PositiveRevisions}
use fumemory.CoreMemory.Overwrite.{alone, update_block_overwrites}
use fumemory.CoreMemory.Texts.{strip, is_safe_payload}
use fumemory.Archival.{Memory, eviction_threshold, has_words, paragraphs, insert_all, evict}

abbrev pub row_of : (String → Option String) → String → String → Memory
row_of embed agent_id p = record { content = p; agent_id = agent_id; embedding = embed p }

insert_all_stores :
    (stores : ℕ → Bool) (embed : String → Option String) (i : ℕ) (agent_id : String)
    (ps : List String) (archive : List Memory)
    → ((j : ℕ) → stores j ≡ true)
    → insert_all stores embed i agent_id ps archive
      ≡ (length ps, archive ++ map (row_of embed agent_id) ps)
unfolding insert_all length
insert_all_stores stores embed i agent_id [] archive h = ap (λ a. (0, a)) (sym (append-nil archive))
insert_all_stores stores embed i agent_id (p ∷ ps) archive h =
    let row = row_of embed agent_id p in
    let rest = insert_all_stores stores embed (i + 1) agent_id ps (archive ++ row ∷ []) h in
    let same : (archive ++ row ∷ []) ++ map (row_of embed agent_id) ps
        ≡ archive ++ (row ∷ map (row_of embed agent_id) ps) =
      append_assoc archive (row ∷ []) (map (row_of embed agent_id) ps) in
    ground (arith, h i, rest, same)

module _ (count_tokens : String → ℕ) (K : KeyValue String) where
  -- What is written to the block does not depend on whether the INSERTs succeed: a paragraph whose
  -- INSERT raises leaves the block all the same.
  evict_loses :
      (others : ℕ → K.Bucket → K.Bucket) (stores stores' : ℕ → Bool)
      (embed : String → Option String) (meanwhile : K.Bucket → K.Bucket) (agent_id : String)
      (entry : BlockEntry) (b : K.Bucket) (archive : List Memory)
      → (evict count_tokens K others stores embed meanwhile agent_id entry b archive).1
        ≡ (evict count_tokens K others stores' embed meanwhile agent_id entry b archive).1
  unfolding evict
  evict_loses others stores stores' embed meanwhile agent_id entry b archive = ground arith

  -- A paragraph as `paragraphs` gives it: stripped, not empty and without a blank line.
  pub record Tidy (p : String) : Type 0 where
    pub stripped : strip p ≡ p
    pub words : str_eq p "" ≡ false
    pub lines : one_line_breaks false p ≡ true

  Tidy-kept : (ps : List String) → All Tidy ps → map strip (filter has_words ps) ≡ ps
  unfolding filter
  Tidy-kept [] h = refl
  Tidy-kept (p ∷ ps) (h, hs) =
      let stripped = h.stripped in
      let words = h.words in ground (arith, stripped, words, Tidy-kept ps hs)

  Tidy-lines : (ps : List String) → All Tidy ps → All (λ q. one_line_breaks false q ≡ true) ps
  Tidy-lines [] h = tt
  Tidy-lines (p ∷ ps) (h, hs) = (h.lines, Tidy-lines ps hs)

  -- Paragraphs that were joined by blank lines are read back as they were.
  paragraphs-join :
      (p : String) (ps : List String)
      → All Tidy (p ∷ ps)
      → paragraphs (join "\n\n" (p ∷ ps)) ≡ p ∷ ps
  unfolding paragraphs
  paragraphs-join p ps h =
      ap (λ qs. map strip (filter has_words qs))
        (split_paragraphs-join p ps (Tidy-lines (p ∷ ps) h))
      ∙ Tidy-kept (p ∷ ps) h

  -- When no other client writes, every INSERT succeeds, and the texts that stay pass the firewall and
  -- the limit, a block over the threshold with two paragraphs at least is left with all but its first
  -- three, which the archive gains in their order.
  pub evict_lem :
      (stores : ℕ → Bool) (embed : String → Option String) (agent_id : String) (entry : BlockEntry)
      (b : K.Bucket) (archive : List Memory)
      → PositiveRevisions K
      → ((j : ℕ) → stores j ≡ true)
      → (has_words entry.content
          && (ltb eviction_threshold entry.tokens && ltb 1 (length (paragraphs entry.content))))
        ≡ true
      → is_safe_payload (join "\n\n" (drop 3 (paragraphs entry.content))) ≡ true
      → count_tokens (join "\n\n" (drop 3 (paragraphs entry.content))) ≤ 4000
      → evict count_tokens K (alone count_tokens K) stores embed (λ b. b) agent_id entry b archive
        ≡ (
          length (take 3 (paragraphs entry.content)),
          K.put b (key agent_id working_context) (join "\n\n" (drop 3 (paragraphs entry.content))),
          archive ++ map (row_of embed agent_id) (take 3 (paragraphs entry.content)),
        )
  unfolding evict token_limit may_write
  evict_lem stores embed agent_id entry b archive positive h over safe fits =
      let ps = paragraphs entry.content in
      let written =
        update_block_overwrites count_tokens K agent_id working_context (join "\n\n" (drop 3 ps))
          entry.revision "agent" b positive safe refl fits in
      let stored = insert_all_stores stores embed 0 agent_id (take 3 ps) archive h in
      ground (arith, over, written, stored)
