-- ===== src/CoreMemory/Atomic.antt =====
-- memu/core_memory.py: the writes of a block while other clients write too.
use fumemory.Base.{
  ℕ, zero, suc, ◌+◌, ◌≤◌, ltb, String, ◌≡◌, ◌≢◌, refl, sym, ap, subst, ◌∙◌, true, false, some,
  Option-cases, Bool-cases, Result, ok, err, arith, ◌⊎◌, inl, inr,
}
use fumemory.Nats.KeyValue.{KeyValue, Entry}
use fumemory.CoreMemory.Texts.{has_text, replace_first}
use fumemory.CoreMemory.{
  Block, BlockEntry, Failure, too_long, missing_block, missing_text, may_write, token_limit, key,
  appended, read_text, read_revision, swap, append_loop, append_block, replaced, replace_loop,
  replace_in_block, max_cas_retries,
}

-- A revision names one value: if another client's step leaves a key at its revision, it leaves its
-- value too. No entry has the revision 0.
abbrev pub KeepsRevisions : (K : KeyValue String) → (ℕ → K.Bucket → K.Bucket) → Type 0
KeepsRevisions K others =
    (j : ℕ) (b : K.Bucket) (k : String) (e e' : Entry String)
    → K.get b k ≡ some e
    → K.get (others j b) k ≡ some e'
    → e.revision ≡ e'.revision
    → e.value ≡ e'.value

abbrev pub PositiveRevisions : KeyValue String → Type 0
PositiveRevisions K =
    (b : K.Bucket) (k : String) (e : Entry String) → K.get b k ≡ some e → e.revision ≢ 0

ok_inj : (x y : BlockEntry) → ◌≡◌ {A = Result Failure BlockEntry} (ok x) (ok y) → x ≡ y
ok_inj x y h = ground (arith, h)

module _ (count_tokens : String → ℕ) (K : KeyValue String) (others : ℕ → K.Bucket → K.Bucket) where
  -- The bucket `b` is another bucket in which the key is written, with the value that `change` makes
  -- of what was there, and the answer describes the write.
  abbrev pub Written : String → (String → String) → BlockEntry → K.Bucket → Type 0
  Written k change entry b =
      (b0 : K.Bucket) × (b ≡ K.put b0 k entry.content)
      × (entry.content ≡ change (read_text (K.get b0 k)))
      × (entry.revision ≡ K.last b)
      × (entry.tokens ≡ count_tokens entry.content)

  -- A write at the revision that was read, by compare and swap, overwrites what was read.
  swap_lem :
      (j : ℕ) (b1 b' : K.Bucket) (k text : String)
      → KeepsRevisions K others
      → PositiveRevisions K
      → swap count_tokens K others (others j b1) k text (read_revision (K.get b1 k)) ≡ some b'
      → (b' ≡ K.put (others j b1) k text)
        × (read_text (K.get b1 k) ≡ read_text (K.get (others j b1) k))
  unfolding swap
  swap_lem j b1 b' k text keeps positive h = elim (Option-cases (K.get b1 k)) [
    | inl e ↦ elim (Option-cases (K.get (others j b1) k)) [
      | inl e' ↦ ground (arith, e, e', h, K.create_lem (others j b1) k text)
      | inr (a', e') ↦ ground (arith, e, e', h, K.create_lem (others j b1) k text)
    ]
    | inr (a, e) ↦ elim (Option-cases (K.get (others j b1) k)) [
      | inl e' ↦
          ground (arith, e, e', h, K.update_lem (others j b1) k text a.revision, positive b1 k a e)
      | inr (a', e') ↦ ground (
        arith,
        e,
        e',
        h,
        K.update_lem (others j b1) k text a.revision,
        positive b1 k a e,
        keeps j b1 k a a' e e',
      )
    ]
  ]

  abbrev described : String → K.Bucket → BlockEntry
  described text b = record { content = text; revision = K.last b; tokens = count_tokens text }

  described-Written :
      (k text : String) (change : String → String) (b0 b' : K.Bucket) (entry : BlockEntry)
      → described text b' ≡ entry
      → b' ≡ K.put b0 k text
      → text ≡ change (read_text (K.get b0 k))
      → Written k change entry b'
  described-Written k text change b0 b' entry e put made =
      subst (λ (x : BlockEntry). Written k change x b') e (b0, put, made, refl, refl)

  -- The ways in which a round of `append_block` ends.
  append_step :
      (n j : ℕ) (k : String) (limit : ℕ) (change : String → String) (b : K.Bucket)
      → let b1 = others j b in
        let b2 = others (j + 1) b1 in
        let text = change (read_text (K.get b1 k)) in
        let result = append_loop count_tokens K others (suc n) j k limit change b in
        ((ltb limit (count_tokens text) ≡ true) × (result ≡ (err too_long, b1)))
        ⊎ (result ≡ append_loop count_tokens K others n (j + 2) k limit change b2)
        ⊎ ((b' : K.Bucket) × (ltb limit (count_tokens text) ≡ false)
            × (swap count_tokens K others b2 k text (read_revision (K.get b1 k)) ≡ some b')
            × (result ≡ (ok (described text b'), b')))
  unfolding append_loop
  append_step n j k limit change b = elim (Bool-cases (ltb limit (count_tokens text))) [
    | inl e ↦ inl (e, rw (e, append_loop) refl)
    | inr e ↦
        elim (Option-cases (swap count_tokens K others b2 k text (read_revision (K.get b1 k)))) [
          | inl e' ↦ inr (inl (rw (e, append_loop) (rw e' refl)))
          | inr (b', e') ↦ inr (inr (b', e, e', rw (e, append_loop) (rw e' refl)))
        ]
  ]
    where
      b1 : K.Bucket
      b1 = others j b

      b2 : K.Bucket
      b2 = others (j + 1) b1

      text : String
      text = change (read_text (K.get b1 k))

  append_loop-Written :
      (n j : ℕ) (k : String) (limit : ℕ) (change : String → String) (b : K.Bucket)
      (entry : BlockEntry)
      → KeepsRevisions K others
      → PositiveRevisions K
      → (append_loop count_tokens K others n j k limit change b).0 ≡ ok entry
      → Written k change entry (append_loop count_tokens K others n j k limit change b).1
        × (entry.tokens ≤ limit)
  append_loop-Written zero j k limit change b entry keeps positive h =
      unfold append_loop in ground (arith, h)
  append_loop-Written (suc n) j k limit change b entry keeps positive h =
      elim (append_step n j k limit change b) [
        | inl (e, r) ↦ ground (arith, r, h)
        | inr (inl r) ↦ rw r (
            append_loop-Written n (j + 2) k limit change (others (j + 1) (others j b)) entry keeps
              positive (sym (ap (λ a. a.0) r) ∙ h))
        | inr (inr (b', e, w, r)) ↦
            let text = change (read_text (K.get (others j b) k)) in
            let same : described text b' ≡ entry =
              ok_inj (described text b') entry (sym (ap (λ a. a.0) r) ∙ h) in
            let (put, unchanged) = swap_lem (j + 1) (others j b) b' k text keeps positive w in
            rw r (
              described-Written k text change (others (j + 1) (others j b)) b' entry same put
                  (ap change unchanged),
              ground (arith, e, same),
            )
      ]

  replace_step :
      (n j : ℕ) (k : String) (limit : ℕ) (old new : String) (b : K.Bucket)
      → let b1 = others j b in
        let b2 = others (j + 1) b1 in
        let result = replace_loop count_tokens K others (suc n) j k limit old new b in
        ((e : Failure) × (result ≡ (err e, b1)))
        ⊎ (result ≡ replace_loop count_tokens K others n (j + 2) k limit old new b2)
        ⊎ ((e : Entry String) × (b' : K.Bucket) × (K.get b1 k ≡ some e)
            × (has_text old e.value ≡ true)
            × (ltb limit (count_tokens (replace_first old new e.value)) ≡ false)
            × (K.update b2 k (replace_first old new e.value) e.revision ≡ some b')
            × (result ≡ (ok (described (replace_first old new e.value) b'), b')))
  unfolding replace_loop replaced
  replace_step n j k limit old new b = elim (Option-cases (K.get (others j b) k)) [
    | inl e ↦ inl (missing_block, rw (e, replace_loop) refl)
    | inr (a, e) ↦ elim (Bool-cases (has_text old a.value)) [
      | inr e1 ↦ inl (missing_text, rw (e, replace_loop) (rw e1 refl))
      | inl e1 ↦ elim (Bool-cases (ltb limit (count_tokens (replace_first old new a.value)))) [
        | inl e2 ↦ inl (too_long, rw (e, replace_loop) (rw (e1, e2) refl))
        | inr e2 ↦
            elim (Option-cases (
              K.update (others (j + 1) (others j b)) k (replace_first old new a.value)
                a.revision)) [
                  | inl e3 ↦ inr (inl (rw (e, replace_loop) (rw (e1, e2) (rw e (rw e3 refl)))))
                  | inr (b', e3) ↦ inr (
                      inr (
                        a,
                        b',
                        e,
                        e1,
                        e2,
                        e3,
                        rw (e, replace_loop) (rw (e1, e2) (rw e (rw e3 refl))),
                      ))
                ]
      ]
    ]
  ]

  replace_loop-Written :
      (n j : ℕ) (k : String) (limit : ℕ) (old new : String) (b : K.Bucket) (entry : BlockEntry)
      → KeepsRevisions K others
      → PositiveRevisions K
      → (replace_loop count_tokens K others n j k limit old new b).0 ≡ ok entry
      → Written k
          (replace_first old new)
          entry
          (replace_loop count_tokens K others n j k limit old new b).1
        × (entry.tokens ≤ limit)
  replace_loop-Written zero j k limit old new b entry keeps positive h =
      unfold replace_loop in ground (arith, h)
  replace_loop-Written (suc n) j k limit old new b entry keeps positive h =
      elim (replace_step n j k limit old new b) [
        | inl (e, r) ↦ ground (arith, r, h)
        | inr (inl r) ↦ rw r (
            replace_loop-Written n (j + 2) k limit old new (others (j + 1) (others j b)) entry keeps
              positive (sym (ap (λ a. a.0) r) ∙ h))
        | inr (inr (e, b', there, has, fits, w, r)) ↦
            let text = replace_first old new e.value in
            let same : described text b' ≡ entry =
              ok_inj (described text b') entry (sym (ap (λ a. a.0) r) ∙ h) in
            let swapped : swap count_tokens K others (others (j + 1) (others j b)) k text
                  (read_revision (K.get (others j b) k))
                ≡ some b' =
              unfold swap in ground (arith, there, w, positive (others j b) k e there) in
            let (put, unchanged) = swap_lem (j + 1) (others j b) b' k text keeps positive swapped in
            rw r (
              described-Written k text (replace_first old new) (others (j + 1) (others j b)) b'
                  entry same put
                  (ap (λ o. replace_first old new (read_text o)) (sym there)
                    ∙ ap (replace_first old new) unchanged),
              ground (arith, fits, same),
            )
      ]

  -- Whatever the other clients do between the awaits: an append that succeeds is one write, of the
  -- text that is there at that moment with the new text appended and within the block's token limit,
  -- so no other client's write is lost. A revision must name one value, and be positive.
  pub append_block_atomic :
      (agent_id : String) (block : Block) (text caller separator : String) (b : K.Bucket)
      (entry : BlockEntry)
      → KeepsRevisions K others
      → PositiveRevisions K
      → (append_block count_tokens K others agent_id block text caller separator b).0 ≡ ok entry
      → Written
          (key agent_id block)
          (appended separator text)
          entry
          (append_block count_tokens K others agent_id block text caller separator b).1
        × (entry.tokens ≤ token_limit block)
  unfolding append_block
  append_block_atomic agent_id block text caller separator b entry keeps positive h =
      append_loop-Written max_cas_retries 0 (key agent_id block) (token_limit block)
        (appended separator text) b entry keeps positive h

  -- Whatever the other clients do between the awaits: a replacement that succeeds is by a caller that
  -- may write the block, and is one write, of the text that is there at that moment with the first
  -- occurrence replaced, within the block's token limit.
  replace_in_block_atomic :
      (agent_id : String) (block : Block) (old new caller : String) (b : K.Bucket)
      (entry : BlockEntry)
      → KeepsRevisions K others
      → PositiveRevisions K
      → (replace_in_block count_tokens K others agent_id block old new caller b).0 ≡ ok entry
      → (may_write caller block ≡ true)
        × Written
            (key agent_id block)
            (replace_first old new)
            entry
            (replace_in_block count_tokens K others agent_id block old new caller b).1
        × (entry.tokens ≤ token_limit block)
  unfolding replace_in_block
  replace_in_block_atomic agent_id block old new caller b entry keeps positive h =
      elim (Bool-cases (may_write caller block)) [
        | inr e ↦ ground (arith, e, h)
        | inl e ↦
            let run =
              replace_loop count_tokens K others max_cas_retries 0 (key agent_id block)
                (token_limit block) old new b in
            let same : replace_in_block count_tokens K others agent_id block old new caller b
                ≡ run =
              rw (e, replace_in_block) refl in
            let (written, fits) =
              replace_loop-Written max_cas_retries 0 (key agent_id block) (token_limit block) old
                new b entry keeps positive (sym (ap (λ a. a.0) same) ∙ h) in
            rw same (e, written, fits)
      ]
