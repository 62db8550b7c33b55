-- ===== src/Profiler/Buffers.antt =====
-- memu/implicit_profiler.py: how much a buffer holds, and what a message does to a running extraction.
use fumemory.Base.{
  ℕ, zero, suc, ◌-◌, ◌*◌, ◌≤◌, ltb, String, str_eq, eq_refl, ◌≡◌, refl, ap, ◌∙◌, false, none, some,
  List, [], ◌∷◌, ◌++◌, arith, Bool-cases, Option-cases, inl, inr,
}
use fumemory.Base.Dict
use fumemory.Base.Dict.{Dict, get-put_self, get-remove, All-put, All-get}
use fumemory.Base.Dict.Keys.{All-remove}
use fumemory.Base.Lists.{All, All-append, length, drop, length-drop}
use fumemory.Base.Texts.{size, start, size-start}
use fumemory.Profiler.{
  ImplicitProfiler, waiting, extracting, buffer_of, total_size, buffered, on_message, flush,
  extracted, taken,
}

-- The messages have at most 1000 characters each, and the buffer at most twice the limit of a batch.
abbrev pub IsSmall : List String → Type 0
IsSmall buf = All (λ m. size m ≤ 1000) buf × (total_size buf ≤ 8000)

abbrev pub HoldsLittle : ImplicitProfiler → Type 0
HoldsLittle p = All (λ (agent, buf). IsSmall buf) p.buffers

All-drop : {A : Type 0} (P : A → Type 0) (n : ℕ) (xs : List A) → All P xs → All P (drop n xs)
unfolding drop
All-drop P zero xs h = h
All-drop P (suc n) [] h = tt
All-drop P (suc n) (x ∷ xs) h = All-drop P n xs h.1

total_size-length :
    (ms : List String) → All (λ m. size m ≤ 1000) ms → total_size ms ≤ 1000 * length ms
unfolding total_size length
total_size-length [] h = omega arith
total_size-length (m ∷ ms) h = omega (arith, h.0, total_size-length ms h.1)

buffered-IsSmall :
    (content : String) (buf : List String) → IsSmall buf → IsSmall (buffered content buf)
unfolding buffered
buffered-IsSmall content buf h =
    let longer = buf ++ start 1000 content ∷ [] in
    let each : All (λ m. size m ≤ 1000) longer =
      All-append (λ m. size m ≤ 1000) (start 1000 content) buf h.0 (size-start 1000 content) in
    elim (Bool-cases (ltb 4000 (total_size longer))) [
      | inr e ↦ rw e (each, ground (arith, e))
      | inl e ↦
          let last = drop (length longer - 8) longer in
          let small : All (λ m. size m ≤ 1000) last =
            All-drop (λ m. size m ≤ 1000) (length longer - 8) longer each in
          rw e (
            small,
            omega (arith, total_size-length last small, length-drop (length longer - 8) longer),
          )
    ]

buffer_of-found :
    (agent : String) (buf : List String) (p : ImplicitProfiler)
    → Dict.get p.buffers agent ≡ some buf
    → buffer_of agent p ≡ buf
buffer_of-found agent buf p e = rw (e, buffer_of) refl

buffer_of-none :
    (agent : String) (p : ImplicitProfiler)
    → Dict.get p.buffers agent ≡ none
    → buffer_of agent p ≡ []
buffer_of-none agent p e = rw (e, buffer_of) refl

buffer_of-IsSmall :
    (agent : String) (p : ImplicitProfiler) → HoldsLittle p → IsSmall (buffer_of agent p)
unfolding total_size
buffer_of-IsSmall agent p h = elim (Option-cases (Dict.get p.buffers agent)) [
  | inl e ↦ rw (e, buffer_of) (tt, omega arith)
  | inr (buf, e) ↦ rw (e, buffer_of) (All-get (λ (agent, buf). IsSmall buf) p.buffers agent buf h e)
]

-- A message, the end of a wait, or the end of an extraction.
pub data Step (p : ImplicitProfiler) : ImplicitProfiler → Type 0 where
  chats : (agent content : String) → Step p (on_message agent content p)
  flushes : (agent : String) → Step p (flush agent p)
  extracts : (agent : String) → Step p (extracted agent p)

pub data Steps : ImplicitProfiler → ImplicitProfiler → Type 0 where
  done : (p : ImplicitProfiler) → Steps p p
  step : {a b c : ImplicitProfiler} → Step a b → Steps b c → Steps a c

on_message-HoldsLittle :
    (agent content : String) (p : ImplicitProfiler)
    → HoldsLittle p
    → HoldsLittle (on_message agent content p)
unfolding on_message
on_message-HoldsLittle agent content p h = elim (Bool-cases (str_eq content "")) [
  | inl e ↦ rw e h
  | inr e ↦ elim (Bool-cases (str_eq agent "")) [
    | inl f ↦ rw (e, f) h
    | inr f ↦
        rw (e, f)
          (All-put (λ (agent, buf). IsSmall buf) p.buffers agent
            (buffered content (buffer_of agent p)) h
            (buffered-IsSmall content (buffer_of agent p) (buffer_of-IsSmall agent p h)))
  ]
]

taken-HoldsLittle :
    (agent : String) (ms : List String) (p : ImplicitProfiler)
    → HoldsLittle p
    → HoldsLittle (taken agent ms p)
taken-HoldsLittle agent [] p h = h
taken-HoldsLittle agent (m ∷ ms) p h = All-remove (λ (agent, buf). IsSmall buf) p.buffers agent h

flush-HoldsLittle :
    (agent : String) (p : ImplicitProfiler) → HoldsLittle p → HoldsLittle (flush agent p)
unfolding flush
flush-HoldsLittle agent p h = elim (Option-cases (Dict.get p.flush_tasks agent)) [
  | inl e ↦ rw (e, flush) h
  | inr (waiting, e) ↦ rw (e, flush) (taken-HoldsLittle agent (buffer_of agent p) p h)
  | inr (extracting ms, e) ↦ rw (e, flush) h
]

extracted-HoldsLittle :
    (agent : String) (p : ImplicitProfiler) → HoldsLittle p → HoldsLittle (extracted agent p)
unfolding extracted
extracted-HoldsLittle agent p h = elim (Option-cases (Dict.get p.flush_tasks agent)) [
  | inl e ↦ rw (e, extracted) h
  | inr (waiting, e) ↦ rw (e, extracted) h
  | inr (extracting ms, e) ↦ rw (e, extracted) h
]

Step-HoldsLittle : {a b : ImplicitProfiler} → Step a b → HoldsLittle a → HoldsLittle b
Step-HoldsLittle {a = p} (chats agent content) h = on_message-HoldsLittle agent content p h
Step-HoldsLittle {a = p} (flushes agent) h = flush-HoldsLittle agent p h
Step-HoldsLittle {a = p} (extracts agent) h = extracted-HoldsLittle agent p h

-- Through any messages and flushes each message of a buffer has at most 1000 characters, and a buffer
-- at most 8000, twice the limit, when that was so before.
pub Steps-HoldsLittle : {a b : ImplicitProfiler} → Steps a b → HoldsLittle a → HoldsLittle b
Steps-HoldsLittle (done p) h = h
Steps-HoldsLittle (step s rest) h = Steps-HoldsLittle rest (Step-HoldsLittle s h)

buffered_first : (content : String) → buffered content [] ≡ start 1000 content ∷ []
unfolding buffered total_size
buffered_first content = ground (arith, size-start 1000 content)

flush-waiting :
    (agent m : String) (ms : List String) (p : ImplicitProfiler)
    → Dict.get p.flush_tasks agent ≡ some waiting
    → Dict.get p.buffers agent ≡ some (m ∷ ms)
    → flush agent p ≡ taken agent (m ∷ ms) p
unfolding flush
flush-waiting agent m ms p e f =
    rw (e, flush) (ap (λ buf. taken agent buf p) (buffer_of-found agent (m ∷ ms) p f))

get-remove_self : {A : Type 0} (d : Dict A) (k : String) → Dict.get (Dict.remove d k) k ≡ none
get-remove_self d k = ground (arith, get-remove d k k, eq_refl k)

extracted-running :
    (agent : String) (ms : List String) (p : ImplicitProfiler)
    → Dict.get p.flush_tasks agent ≡ some (extracting ms)
    → Dict.get p.buffers agent ≡ none
    → let after = extracted agent p in
      (after.applied ≡ (agent, ms) ∷ p.applied)
      × (Dict.get after.buffers agent ≡ none)
      × (Dict.get after.flush_tasks agent ≡ none)
unfolding extracted
extracted-running agent ms p e b = rw (e, extracted) (refl, b, get-remove_self p.flush_tasks agent)

on_message-first :
    (agent content : String) (p : ImplicitProfiler)
    → str_eq agent "" ≡ false
    → str_eq content "" ≡ false
    → Dict.get p.buffers agent ≡ none
    → on_message agent content p ≡ record p {
      buffers = Dict.put p.buffers agent (start 1000 content ∷ []);
      flush_tasks = Dict.put p.flush_tasks agent waiting;
    }
unfolding on_message
on_message-first agent content p na nc e =
    rw (nc, na)
      (ap
          (λ buf. record p {
            buffers = Dict.put p.buffers agent (buffered content buf);
            flush_tasks = Dict.put p.flush_tasks agent waiting;
          })
          (buffer_of-none agent p e)
        ∙ ap
            (λ buf. record p {
              buffers = Dict.put p.buffers agent buf;
              flush_tasks = Dict.put p.flush_tasks agent waiting;
            })
            (buffered_first content))

-- A message of an agent while the batch before it is extracted: once the next flush and extraction
-- have ended, the message alone has been applied, and the agent has neither a buffer nor a flush, so
-- that the batch before it was not applied and is not kept.
pub batch_lost :
    (agent content : String) (batch : List String) (p : ImplicitProfiler)
    → str_eq agent "" ≡ false
    → str_eq content "" ≡ false
    → Dict.get p.flush_tasks agent ≡ some (extracting batch)
    → Dict.get p.buffers agent ≡ none
    → let after = extracted agent (flush agent (on_message agent content p)) in
      (after.applied ≡ (agent, start 1000 content ∷ []) ∷ p.applied)
      × (Dict.get after.buffers agent ≡ none)
      × (Dict.get after.flush_tasks agent ≡ none)
batch_lost agent content batch p na nc running empty =
    let first = start 1000 content in
    let told : ImplicitProfiler = record p {
      buffers = Dict.put p.buffers agent (first ∷ []);
      flush_tasks = Dict.put p.flush_tasks agent waiting;
    } in
    let waits : Dict.get told.flush_tasks agent ≡ some waiting =
      get-put_self p.flush_tasks agent waiting in
    let held : Dict.get told.buffers agent ≡ some (first ∷ []) =
      get-put_self p.buffers agent (first ∷ []) in
    rw (on_message-first agent content p na nc empty, flush-waiting agent first [] told waits held)
      (extracted-running agent (first ∷ []) (taken agent (first ∷ []) told)
        (get-put_self told.flush_tasks agent (extracting (first ∷ [])))
        (get-remove_self told.buffers agent))
