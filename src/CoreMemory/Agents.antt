-- ===== src/CoreMemory/Agents.antt =====
-- memu/core_memory.py: the snapshot of an agent's blocks, and the operations on all of them. `purge`
-- is the bucket's `delete`.
use fumemory.Base.{
  ℕ, ◌+◌, String, ◌<>◌, str_eq, eq_iff, eq_refl, ◌≡◌, refl, true, none, some, Option-cases, is_some,
  List, [], ◌∷◌, map, Result, ok, err, arith, ◌⊎◌, inl, inr, if◌then◌else◌,
}
use fumemory.Base.Dict
use fumemory.Base.Dict.{Dict}
use fumemory.Base.Lists.{contains}
use fumemory.Nats.KeyValue.{KeyValue, Entry}
use fumemory.CoreMemory.{
  Block, system, persona, all_blocks, value, BlockEntry, Failure, key_exists, key, get_block,
}

pub record AgentCoreMemory : Type 0 where
  pub agent_id : String
  pub blocks : Dict BlockEntry

unfoldable pub total_tokens : Dict BlockEntry → ℕ
total_tokens [] = 0
total_tokens ((name, entry) ∷ blocks) = entry.tokens + total_tokens blocks

-- A block in its tags, before those that follow it.
joined : String → String → String
joined part rest = if str_eq rest "" then part else part <> ("\n\n" <> rest)

tagged : String → String → String
tagged name content = "<" <> (name <> (">\n" <> (content <> ("\n</" <> (name <> ">")))))

-- `as_system_prompt_fragment`: the blocks that have a text, in the order of the enumeration.
unfoldable pub render : List Block → Dict BlockEntry → String
unfolding joined tagged
render [] blocks = ""
render (block ∷ rest) blocks =
    let others = render rest blocks in
    elim (Dict.get blocks (value block)) [
      | none ↦ others
      | some e ↦
          if str_eq e.content "" then others else joined (tagged (value block) e.content) others
    ]

-- The contents that `bootstrap_agent` gives to the blocks that are missing.
unfoldable pub default_content : String → String → Block → String
default_content system_text persona_text system = system_text
default_content system_text persona_text persona = persona_text
default_content system_text persona_text _ = ""

module _ (count_tokens : String → ℕ) (K : KeyValue String) where
  -- The loop of `get_agent_memory`
  unfoldable pub read_blocks : String → List Block → K.Bucket → Dict BlockEntry → Dict BlockEntry
  read_blocks agent_id [] b blocks = blocks
  read_blocks agent_id (block ∷ rest) b blocks = read_blocks agent_id rest b (
      Dict.put blocks (value block) (elim (get_block count_tokens K (λ j b. b) agent_id block b) [
        | none ↦ record { content = ""; revision = 0; tokens = 0 }
        | some e ↦ e
      ]))

  -- `get_agent_memory`
  unfoldable pub get_agent_memory : String → K.Bucket → AgentCoreMemory
  get_agent_memory agent_id b = record {
    agent_id = agent_id;
    blocks = read_blocks agent_id all_blocks b [];
  }

  abbrev entry_of : String → ℕ → BlockEntry
  entry_of content revision = record {
    content = content;
    revision = revision;
    tokens = count_tokens content;
  }

  -- One block of `bootstrap_agent`: it is read, or created with its default.
  unfoldable pub bootstrap_block : String → String → K.Bucket → Result Failure BlockEntry × K.Bucket
  bootstrap_block k content b = elim (K.get b k) [
    | some e ↦ (ok (entry_of e.value e.revision), b)
    | none ↦ elim (K.create b k content) [
      | none ↦ (err key_exists, b)
      | some b' ↦ (ok (entry_of content (K.last b')), b')
    ]
  ]

  -- The loop of `bootstrap_agent`; a create that is refused raises out of it.
  unfoldable pub bootstrap_blocks :
      String
      → (Block → String)
      → List Block
      → Dict BlockEntry
      → K.Bucket
      → Result Failure (Dict BlockEntry) × K.Bucket
  unfolding bootstrap_block
  bootstrap_blocks agent_id content [] blocks b = (ok blocks, b)
  bootstrap_blocks agent_id content (block ∷ rest) blocks b =
      elim (bootstrap_block (key agent_id block) (content block) b).0 [
        | err e ↦ (err e, (bootstrap_block (key agent_id block) (content block) b).1)
        | ok entry ↦
            bootstrap_blocks agent_id content rest (Dict.put blocks (value block) entry)
              (bootstrap_block (key agent_id block) (content block) b).1
      ]

  -- `bootstrap_agent`
  unfoldable pub bootstrap_agent :
      String → String → String → K.Bucket → Result Failure (Dict BlockEntry) × K.Bucket
  bootstrap_agent agent_id system_text persona_text b =
      bootstrap_blocks agent_id (default_content system_text persona_text) all_blocks [] b

  purge_each : String → List Block → K.Bucket → K.Bucket
  purge_each agent_id [] b = b
  purge_each agent_id (block ∷ rest) b = purge_each agent_id rest (K.delete b (key agent_id block))

  -- `delete_agent`: a purge of a missing key succeeds too, so all the blocks are counted.
  unfoldable pub delete_agent : String → K.Bucket → ℕ × K.Bucket
  unfolding purge_each
  delete_agent agent_id b = (5, purge_each agent_id all_blocks b)

  -- One block: it is there already, or it is created, and then it holds the default.
  bootstrap_block_lem :
      (k content : String) (b : K.Bucket)
      → (entry : BlockEntry) × ((bootstrap_block k content b).0 ≡ ok entry)
        × (((e : Entry String) × (K.get b k ≡ some e) × ((bootstrap_block k content b).1 ≡ b))
            ⊎ ((K.get b k ≡ none) × ((bootstrap_block k content b).1 ≡ K.put b k content)))
  unfolding bootstrap_block
  bootstrap_block_lem k content b = elim (Option-cases (K.get b k)) [
    | inr (e, h) ↦ (
      entry_of e.value e.revision,
      rw (h, bootstrap_block) refl,
      inl (e, h, rw (h, bootstrap_block) refl),
    )
    | inl h ↦
        let made : K.create b k content ≡ some (K.put b k content) =
          ground (arith, h, K.create_lem b k content) in
        (
          entry_of content (K.last (K.put b k content)),
          rw (h, bootstrap_block) (rw made refl),
          inr (h, rw (h, bootstrap_block) (rw made refl)),
        )
  ]

  bootstrap_blocks_step :
      (agent_id : String) (content : Block → String) (block : Block) (rest : List Block)
      (blocks : Dict BlockEntry) (b : K.Bucket)
      → (blocks' : Dict BlockEntry) × (bootstrap_blocks agent_id content (block ∷ rest) blocks b
          ≡ bootstrap_blocks agent_id content rest blocks'
              (bootstrap_block (key agent_id block) (content block) b).1)
  unfolding bootstrap_blocks
  bootstrap_blocks_step agent_id content block rest blocks b =
      let (entry, e, _) = bootstrap_block_lem (key agent_id block) (content block) b in
      (Dict.put blocks (value block) entry, rw (e, bootstrap_blocks) refl)

  -- What was in the bucket stays.
  block-keeps :
      (j content k : String) (b : K.Bucket) (e : Entry String)
      → K.get b k ≡ some e
      → K.get (bootstrap_block j content b).1 k ≡ some e
  block-keeps j content k b e h = elim (bootstrap_block_lem j content b).2 [
    | inl (a, there, same) ↦ rw same h
    | inr (missing, made) ↦
        rw made (ground (arith, h, missing, eq_iff j k, K.get-put b j content k))
  ]

  block-there :
      (k content : String) (b : K.Bucket) → is_some (K.get (bootstrap_block k content b).1 k) ≡ true
  block-there k content b = elim (bootstrap_block_lem k content b).2 [
    | inl (a, there, same) ↦ rw same (ground (arith, there))
    | inr (missing, made) ↦ rw made (ground (arith, eq_refl k, K.get-put b k content k))
  ]

  blocks-keep :
      (agent_id : String) (content : Block → String) (todo : List Block) (blocks : Dict BlockEntry)
      (b : K.Bucket) (k : String) (e : Entry String)
      → K.get b k ≡ some e
      → K.get (bootstrap_blocks agent_id content todo blocks b).1 k ≡ some e
  blocks-keep agent_id content [] blocks b k e h = unfold bootstrap_blocks in h
  blocks-keep agent_id content (block ∷ rest) blocks b k e h =
      let (blocks', same) = bootstrap_blocks_step agent_id content block rest blocks b in
      rw same (
        blocks-keep agent_id content rest blocks'
          (bootstrap_block (key agent_id block) (content block) b).1 k e
          (block-keeps (key agent_id block) (content block) k b e h))

  abbrev AllThere : String → List Block → K.Bucket → Type 0
  AllThere agent_id [] b = Unit
  AllThere agent_id (block ∷ rest) b =
      ((e : Entry String) × (K.get b (key agent_id block) ≡ some e)) × AllThere agent_id rest b

  blocks-AllThere :
      (agent_id : String) (content : Block → String) (todo : List Block) (blocks : Dict BlockEntry)
      (b : K.Bucket)
      → AllThere agent_id todo (bootstrap_blocks agent_id content todo blocks b).1
  blocks-AllThere agent_id content [] blocks b = tt
  blocks-AllThere agent_id content (block ∷ rest) blocks b =
      let (blocks', same) = bootstrap_blocks_step agent_id content block rest blocks b in
      let b' = (bootstrap_block (key agent_id block) (content block) b).1 in
      elim (Option-cases (K.get b' (key agent_id block))) [
        | inl e ↦ absurd (ground (arith, e, block-there (key agent_id block) (content block) b))
        | inr (a, e) ↦ rw same (
          (a, blocks-keep agent_id content rest blocks' b' (key agent_id block) a e),
          blocks-AllThere agent_id content rest blocks' b',
        )
      ]

  -- Blocks that are all there are left as they are, and nothing is raised.
  blocks-unchanged :
      (agent_id : String) (content : Block → String) (todo : List Block) (blocks : Dict BlockEntry)
      (b : K.Bucket)
      → AllThere agent_id todo b
      → (bootstrap_blocks agent_id content todo blocks b).1 ≡ b
  blocks-unchanged agent_id content [] blocks b h = unfold bootstrap_blocks in refl
  blocks-unchanged agent_id content (block ∷ rest) blocks b ((e, there), h) =
      let (blocks', same) = bootstrap_blocks_step agent_id content block rest blocks b in
      let kept : (bootstrap_block (key agent_id block) (content block) b).1 ≡ b =
        elim (bootstrap_block_lem (key agent_id block) (content block) b).2 [
          | inl (a, found, kept) ↦ kept
          | inr (missing, made) ↦ absurd (ground (arith, missing, there))
        ] in
      rw (same, kept) (blocks-unchanged agent_id content rest blocks' b h)

  blocks-return :
      (agent_id : String) (content : Block → String) (todo : List Block) (blocks : Dict BlockEntry)
      (b : K.Bucket)
      → (all : Dict BlockEntry) × ((bootstrap_blocks agent_id content todo blocks b).0 ≡ ok all)
  blocks-return agent_id content [] blocks b = (blocks, unfold bootstrap_blocks in refl)
  blocks-return agent_id content (block ∷ rest) blocks b =
      let (blocks', same) = bootstrap_blocks_step agent_id content block rest blocks b in
      let (all, e) =
        blocks-return agent_id content rest blocks'
          (bootstrap_block (key agent_id block) (content block) b).1 in
      (all, rw same e)

  -- When no other client writes, bootstrapping an agent raises nothing and keeps every entry that is
  -- there, and bootstrapping it again, with any texts, changes nothing.
  bootstrap_agent_lem :
      (agent_id system_text persona_text : String) (b : K.Bucket)
      → let (r, b') = bootstrap_agent agent_id system_text persona_text b in
        ((all : Dict BlockEntry) × (r ≡ ok all))
        × ((k : String) (e : Entry String) → K.get b k ≡ some e → K.get b' k ≡ some e)
        × ((s p : String) → (bootstrap_agent agent_id s p b').1 ≡ b')
  unfolding bootstrap_agent
  bootstrap_agent_lem agent_id system_text persona_text b =
      let content = default_content system_text persona_text in
      let b' = (bootstrap_blocks agent_id content all_blocks [] b).1 in
      (
        blocks-return agent_id content all_blocks [] b,
        blocks-keep agent_id content all_blocks [] b,
        λ s p.
            blocks-unchanged agent_id (default_content s p) all_blocks [] b'
              (blocks-AllThere agent_id content all_blocks [] b),
      )

  purge_each_lem :
      (agent_id : String) (todo : List Block) (b : K.Bucket) (k : String)
      → K.get (purge_each agent_id todo b) k
        ≡ (if contains k (map (key agent_id) todo) then none else K.get b k)
  unfolding purge_each contains
  purge_each_lem agent_id [] b k = refl
  purge_each_lem agent_id (block ∷ rest) b k = ground (
    arith,
    eq_iff (key agent_id block) k,
    K.get-delete b (key agent_id block) k,
    purge_each_lem agent_id rest (K.delete b (key agent_id block)) k,
  )

  -- Deleting an agent removes the keys of its blocks and no other key.
  pub delete_agent_lem :
      (agent_id : String) (b : K.Bucket) (k : String)
      → K.get (delete_agent agent_id b).1 k
        ≡ (if contains k (map (key agent_id) all_blocks) then none else K.get b k)
  unfolding delete_agent
  delete_agent_lem agent_id b k = purge_each_lem agent_id all_blocks b k
