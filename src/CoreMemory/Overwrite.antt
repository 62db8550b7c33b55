-- ===== src/CoreMemory/Overwrite.antt =====
-- memu/core_memory.py: `update_block` when no other client writes.
use fumemory.Base.{
  ℕ, suc, ◌+◌, ◌==◌, ◌≤◌, ltb, String, ◌≡◌, refl, ◌∙◌, true, false, none, some, Option-cases,
  Bool-cases, Result, ok, err, arith, ◌⊎◌, inl, inr,
}
use fumemory.Nats.KeyValue.{KeyValue}
use fumemory.CoreMemory.Texts.{is_safe_payload}
use fumemory.CoreMemory.{
  Block, BlockEntry, Failure, quarantined, permission, too_long, may_write, token_limit, key,
  read_revision, swap, update_loop, update_block,
}
use fumemory.CoreMemory.Atomic.{PositiveRevisions}

module _ (count_tokens : String → ℕ) (K : KeyValue String) where
  -- No other client writes.
  abbrev pub alone : ℕ → K.Bucket → K.Bucket
  alone j b = b

  abbrev pub overwritten : String → String → K.Bucket → Result Failure BlockEntry × K.Bucket
  overwritten k text b = (
    ok (record { content = text; revision = K.last (K.put b k text); tokens = count_tokens text }),
    K.put b k text,
  )

  swap_any :
      (b : K.Bucket) (k text : String) (revision : ℕ)
      → (swap count_tokens K alone b k text revision ≡ none)
        ⊎ (swap count_tokens K alone b k text revision ≡ some (K.put b k text))
  unfolding swap
  swap_any b k text revision = ground (arith, K.create_lem b k text, K.update_lem b k text revision)

  swap_read :
      (b : K.Bucket) (k text : String)
      → PositiveRevisions K
      → swap count_tokens K alone b k text (read_revision (K.get b k)) ≡ some (K.put b k text)
  unfolding swap
  swap_read b k text positive = elim (Option-cases (K.get b k)) [
    | inl e ↦ ground (arith, e, K.create_lem b k text)
    | inr (a, e) ↦
        let own : (a.revision == a.revision) ≡ true = ground arith in
        ground (arith, e, own, K.update_lem b k text a.revision, positive b k a e)
  ]

  update_loop_done :
      (n j : ℕ) (k text : String) (revision : ℕ) (b : K.Bucket)
      → swap count_tokens K alone b k text revision ≡ some (K.put b k text)
      → update_loop count_tokens K alone (suc n) j k text revision b ≡ overwritten k text b
  unfolding update_loop
  update_loop_done n j k text revision b e = rw (e, update_loop) refl

  update_loop_again :
      (n j : ℕ) (k text : String) (revision : ℕ) (b : K.Bucket)
      → swap count_tokens K alone b k text revision ≡ none
      → update_loop count_tokens K alone (suc n) j k text revision b
        ≡ update_loop count_tokens K alone n (j + 2) k text (read_revision (K.get b k)) b
  unfolding update_loop
  update_loop_again n j k text revision b e = rw (e, update_loop) refl

  update_loop_lem :
      (k text : String) (revision : ℕ) (b : K.Bucket)
      → PositiveRevisions K
      → update_loop count_tokens K alone 5 0 k text revision b ≡ overwritten k text b
  update_loop_lem k text revision b positive = elim (swap_any b k text revision) [
    | inr e ↦ update_loop_done 4 0 k text revision b e
    | inl e ↦
        update_loop_again 4 0 k text revision b e
        ∙ update_loop_done 3 2 k text (read_revision (K.get b k)) b (swap_read b k text positive)
  ]

  -- When no other client writes, a write that the firewall, the permissions and the token limit let
  -- pass succeeds within the retries, whatever revision the caller expects: a caller whose revision
  -- is out of date overwrites the value that it has not seen.
  pub update_block_overwrites :
      (agent_id : String) (block : Block) (content : String) (expected_revision : ℕ)
      (caller : String) (b : K.Bucket)
      → PositiveRevisions K
      → is_safe_payload content ≡ true
      → may_write caller block ≡ true
      → count_tokens content ≤ token_limit block
      → update_block count_tokens K alone agent_id block content expected_revision caller b
        ≡ overwritten (key agent_id block) content b
  unfolding update_block
  update_block_overwrites agent_id block content expected_revision caller b positive safe may fits =
      let short : ltb (token_limit block) (count_tokens content) ≡ false = ground arith in
      rw (safe, may, short, update_block)
        (update_loop_lem (key agent_id block) content expected_revision b positive)

  -- A write that the firewall, the permissions or the token limit refuse raises and changes nothing,
  -- whatever the other clients do.
  pub update_block_refused :
      (others : ℕ → K.Bucket → K.Bucket) (agent_id : String) (block : Block) (content : String)
      (expected_revision : ℕ) (caller : String) (b : K.Bucket)
      → (is_safe_payload content ≡ false)
        ⊎ ((may_write caller block ≡ false)
            ⊎ (ltb (token_limit block) (count_tokens content) ≡ true))
      → (e : Failure) × (update_block count_tokens K others agent_id block content expected_revision
            caller b
          ≡ (err e, b))
  unfolding update_block
  update_block_refused others agent_id block content expected_revision caller b h =
      elim (Bool-cases (is_safe_payload content)) [
        | inr e ↦ (quarantined, rw (e, update_block) refl)
        | inl e ↦ elim (Bool-cases (may_write caller block)) [
          | inr e1 ↦ (permission, rw (e, e1, update_block) refl)
          | inl e1 ↦
              let e2 : ltb (token_limit block) (count_tokens content) ≡ true =
                ground (arith, h, e, e1) in
              (too_long, rw (e, e1, e2, update_block) refl)
        ]
      ]
