-- ===== src/Archival/Tests.antt =====
-- memu/archival_pager.py: the theorems at concrete blocks.
use fumemory.Base.{ℕ, String, ◌≡◌, refl, true, none, Option, List, [], ◌∷◌, ◌++◌, map, arith}
use fumemory.Base.Lists.{length, take, drop, filter}
use fumemory.Base.Texts.{join, split_from, before}
use fumemory.Nats.KeyValue.{KeyValue}
use fumemory.Nats.Memory.{memory, empty}
use fumemory.CoreMemory.{working_context, BlockEntry, key}
use fumemory.CoreMemory.Atomic.{PositiveRevisions}
use fumemory.CoreMemory.Overwrite.{alone}
use fumemory.CoreMemory.Texts.{strip, is_safe_payload}
use fumemory.Archival.{Found, paragraphs, evict}
use fumemory.Archival.Evict.{row_of, evict_lem}

abbrev Bucket : KeyValue String
Bucket = memory String

abbrev one : String → ℕ
one text = 1

abbrev no_embedding : String → Option String
no_embedding text = none

-- Five paragraphs, over the threshold by the tokens that are noted.
abbrev full : BlockEntry
full = record { content = "a\n\n b \n\n\n\nc\n\nd\n\ne"; revision = 4; tokens = 3300 }

full_paragraphs : paragraphs full.content ≡ "a" ∷ "b" ∷ "c" ∷ "d" ∷ "e" ∷ []
unfolding paragraphs filter split_from strip before
full_paragraphs = refl

here-PositiveRevisions : PositiveRevisions Bucket
here-PositiveRevisions b k e h none_left = ground (arith, h, none_left)

evict_lem_example :
    evict one Bucket (alone one Bucket) (λ i. true) no_embedding (λ b. b) "x" full (empty String) []
    ≡ (
      length (take 3 (paragraphs full.content)),
      Bucket.put
          (empty String)
          (key "x" working_context)
          (join "\n\n" (drop 3 (paragraphs full.content))),
      [] ++ map (row_of no_embedding "x") (take 3 (paragraphs full.content)),
    )
unfolding paragraphs filter split_from strip before is_safe_payload length drop join
evict_lem_example =
    evict_lem one Bucket (λ i. true) no_embedding "x" full (empty String) [] here-PositiveRevisions
      (λ j. refl) refl refl (omega arith)

abbrev rows : List Found
rows =
    record { id = "1"; content = "a"; similarity = "0.90" }
    ∷ record { id = "2"; content = "b"; similarity = "0.50" }
    ∷ []
