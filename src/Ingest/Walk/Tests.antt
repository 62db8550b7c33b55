-- ===== src/Ingest/Walk/Tests.antt =====
-- memu/ingest/filters.py: a small tree.
use fumemory.Base.{
  ℕ, String, str_eq, ◌≡◌, refl, Bool, true, false, ◌||◌, if◌then◌else◌, Option, none, some, List,
  [], ◌∷◌,
}
use fumemory.Ingest.Filters.{
  Walker, gitignore_matches, parse_line, IgnoreRule, glob_parts, matches_parts,
}
use fumemory.Ingest.Walk.{
  Entries, end, entry, file, directory, build_walker, iter_files, load_gitignores,
}
use fumemory.Ingest.Walk.Follows.{iter_files_lem}

abbrev tree : Entries
tree = entry (file "b.py" []) (
    entry (directory "logs" (entry (file "a.py" []) end)) (
      entry (file ".gitignore" ("*.tmp" ∷ "!keep.tmp" ∷ "logs/" ∷ []))
        (entry (file "a.tmp" []) (entry (file "keep.tmp" []) end))))

-- A pattern matches itself, and `*.tmp` what ends so.
abbrev matches : String → String → Bool
matches name pattern =
    if str_eq pattern "*.tmp"
    then str_eq name "a.tmp" || str_eq name "keep.tmp"
    else str_eq name pattern

abbrev walker : Walker
walker = build_walker tree [] [] true

iter_files_lem_example :
    iter_files matches walker tree ≡ (".gitignore" ∷ []) ∷ ("b.py" ∷ []) ∷ ("keep.tmp" ∷ []) ∷ []
unfolding fumemory.Base.Lists.filter fumemory.Ingest.Walk.Follows.all_files
    fumemory.Rlm.Fusion.insert_by fumemory.Ingest.Walk.Follows.keeps build_walker
    fumemory.Ingest.Filters.parse_gitignore fumemory.CoreMemory.Texts.starts_with
    fumemory.Base.Texts.join fumemory.CoreMemory.Texts.has_text fumemory.Ingest.Walk.Follows.full
iter_files_lem_example = iter_files_lem matches walker tree

rooted : matches_parts (glob_parts "tests/**") "tests/a/b.py" ≡ true
unfolding matches_parts glob_parts
rooted = refl
