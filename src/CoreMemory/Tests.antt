-- ===== src/CoreMemory/Tests.antt =====
-- memu/core_memory.py: the theorems at concrete buckets.
use fumemory.Base.{ℕ, ◌≤◌, String, ◌≡◌, refl, List, [], ◌∷◌, arith}
use fumemory.Base.Dict
use fumemory.Base.Dict.{Dict}
use fumemory.Nats.KeyValue.{KeyValue}
use fumemory.Nats.Memory.{memory, Stream, empty}
use fumemory.CoreMemory.Texts.{is_safe_payload, strip}
use fumemory.CoreMemory.{
  working_context, BlockEntry, key, appended, token_limit, may_write, update_block, append_loop,
  append_block,
}
use fumemory.CoreMemory.Atomic.{Written, append_block_atomic, KeepsRevisions, PositiveRevisions}
use fumemory.CoreMemory.Overwrite.{alone, overwritten, update_block_overwrites}
use fumemory.CoreMemory.Agents.{bootstrap_agent}

abbrev Memory : KeyValue String
Memory = memory String

abbrev one : String → ℕ
one text = 1

abbrev note_key : String
note_key = key "x" working_context

abbrev numbers : List ℕ
numbers = 7 ∷ 8 ∷ 9 ∷ []

abbrev three : Dict ℕ
three = ("a", 1) ∷ ("b", 2) ∷ ("c", 3) ∷ []

abbrev booted : Stream String
booted = (bootstrap_agent one Memory "x" "S" "P" (empty String)).1

memory-PositiveRevisions : PositiveRevisions Memory
memory-PositiveRevisions b k e h none_left = ground (arith, h, none_left)

alone-KeepsRevisions : KeepsRevisions Memory (alone one Memory)
alone-KeepsRevisions j b k e e' h h' same = ground (arith, h, h')

-- A caller that expects revision 9 of a block that was never written at it.
update_block_overwrites_example :
    update_block one Memory (alone one Memory) "x" working_context "text" 9 "agent" booted
    ≡ overwritten one Memory note_key "text" booted
unfolding is_safe_payload may_write token_limit
update_block_overwrites_example =
    update_block_overwrites one Memory "x" working_context "text" 9 "agent" booted
      memory-PositiveRevisions refl refl (omega arith)

-- The block holds "first".
abbrev noted : Stream String
noted = Memory.put (empty String) note_key "first"

abbrev answer_of : String → BlockEntry
answer_of text = record { content = text; revision = 2; tokens = 1 }

append_block_atomic_example :
    Written one Memory
      (alone one Memory)
      note_key
      (appended "\n" "next ")
      (answer_of "first\nnext")
      (append_block one Memory (alone one Memory) "x" working_context "next " "agent" "\n" noted).1
    × (1 ≤ token_limit working_context)
unfolding append_block append_loop token_limit Dict.get Dict.put key appended strip
append_block_atomic_example =
    append_block_atomic one Memory (alone one Memory) "x" working_context "next " "agent" "\n" noted
      (answer_of "first\nnext") alone-KeepsRevisions memory-PositiveRevisions refl
