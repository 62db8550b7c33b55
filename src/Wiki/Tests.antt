-- ===== src/Wiki/Tests.antt =====
-- memu/wiki at concrete snapshots.
use fumemory.Base.{ℕ, ◌≡◌, refl, [], ◌∷◌, arith, none, ok, String}
use fumemory.Base.Dict
use fumemory.Base.Dict.{Dict}
use fumemory.Base.Lists.{is_unique, contains}
use fumemory.Storage.Sqlite.{SqliteBackend}
use fumemory.Storage.Sqlite.Slugs.{empty}
use fumemory.Wiki.Frontmatter.{parse_frontmatter, dump_frontmatter, end_line, split_lines}
use fumemory.Wiki.Frontmatter.Reads.{parse-dump}
use fumemory.Wiki.SlugRegistry.{resolve_or_stub, resolve_or_stub_lem}
use fumemory.Wiki.Sync.{Daemon, should_fire, diff_and_dispatch}
use fumemory.Wiki.Sync.Follows.{latest, diff_and_dispatch_lem}
use fumemory.Wiki.Sync.Misses.{diff_and_dispatch_misses}

abbrev before : Dict ℕ
before = ("a.md", 10) ∷ ("b.md", 20) ∷ []

abbrev after : Dict ℕ
after = ("a.md", 15) ∷ ("c.md", 30) ∷ []

abbrev idle : Daemon
idle = record { deadlines = []; index = before }

diff_and_dispatch_lem_example :
    Dict.get (diff_and_dispatch 500 1000 before after idle).index "a.md"
    ≡ latest (Dict.get after "a.md") (Dict.get before "a.md")
unfolding is_unique contains should_fire Dict.get
diff_and_dispatch_lem_example =
    diff_and_dispatch_lem 500 1000 before after idle "a.md" refl (λ p. refl) (λ p s h. h)
      (λ p s t h k. ground (arith, h, k))

-- The file was handled at 800, and it changed again before the poll at 1000.
abbrev busy : Daemon
busy = record { deadlines = ("a.md", 1300) ∷ []; index = before }

diff_and_dispatch_misses_example :
    Dict.get
      (diff_and_dispatch 500 9000 after after (diff_and_dispatch 500 1000 before after busy)).index
      "a.md"
    ≡ Dict.get before "a.md"
unfolding is_unique contains should_fire Dict.get
diff_and_dispatch_misses_example =
    diff_and_dispatch_misses 500 1000 9000 before after busy "a.md" refl refl

abbrev indexed : SqliteBackend
indexed = (resolve_or_stub 3 "n1" "code/a" "note" none "memu" empty).1

resolve_or_stub_lem_example :
    resolve_or_stub 4 "n2" "code/a" "paper" none "you" indexed ≡ (ok "n1", indexed)
unfolding resolve_or_stub Dict.get Dict.put
resolve_or_stub_lem_example =
    (resolve_or_stub_lem 3 4 "n1" "n2" "code/a" "note" "paper" none none "memu" "you" empty "n1"
      refl refl).2

-- The text of the frontmatter stands for the dict.
abbrev same : String → String
same s = s

parse-dump_example :
    parse_frontmatter "" same same (dump_frontmatter "" same same "id: n1\n" "text")
    ≡ ("id: n1\n", "text\n")
unfolding end_line split_lines fumemory.CoreMemory.Texts.strip
    fumemory.Wiki.Frontmatter.drop_newline
parse-dump_example = parse-dump "" same same "id: n1\n" "text" refl (refl, tt)
