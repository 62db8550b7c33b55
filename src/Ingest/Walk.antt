-- ===== src/Ingest/Walk.antt =====
-- memu/ingest/filters.py: the walk over a tree of files. Symbolic links are not followed, which is the
-- default; a directory that cannot be read is an empty one.
pub mod Follows
mod Tests
use Prim.Native.String.{compare}
use Prim.Native.Nat.{Ordering}
use fumemory.Base.{
  ℕ, String, str_eq, Bool, true, false, ◌&&◌, ◌||◌, not, Option, none, some, List, [], ◌∷◌, ◌++◌,
  map, if◌then◌else◌,
}
use fumemory.Base.Lists.{contains}
use fumemory.Rlm.Fusion.{sort_by, text_before}
use fumemory.Ingest.Filters.{
  Walker, IgnoreRule, default_excluded_dirs, any, parents, parse_gitignore, matches_any,
  gitignore_matches,
}

-- A file has its lines, which are read of a `.gitignore` only.
mutual
  pub data Entry : Type 0 where
    file : String → List String → Entry
    directory : String → Entries → Entry
    symlink : String → Entry

  pub data Entries : Type 0 where
    end : Entries
    entry : Entry → Entries → Entries

abbrev pub name_of : Entry → String
name_of (file name lines) = name
name_of (directory name es) = name
name_of (symlink name) = name

-- The rules of a directory, when there are any.
gitignore_of : List String → Entries → List (List String × List IgnoreRule)
gitignore_of at end = []
gitignore_of at (entry (directory name es) rest) = gitignore_of at rest
gitignore_of at (entry (symlink name) rest) = gitignore_of at rest
gitignore_of at (entry (file name lines) rest) =
    let later = gitignore_of at rest in
    if str_eq name ".gitignore"
    then elim (parse_gitignore lines) [ [] ↦ [] | (r ∷ rs) ↦ (at, r ∷ rs) ∷ [] ]
    else later

-- `_load_gitignores`: also of directories that a rule ignores.
load_below : List String → Entries → List (List String × List IgnoreRule)
unfolding gitignore_of
load_below at end = []
load_below at (entry (file name lines) rest) = load_below at rest
load_below at (entry (symlink name) rest) = load_below at rest
load_below at (entry (directory name es) rest) =
    let later = load_below at rest in
    let inner = gitignore_of (at ++ name ∷ []) es ++ load_below (at ++ name ∷ []) es in
    if contains name default_excluded_dirs then later else inner ++ later

unfoldable pub load_gitignores : Entries → List (List String × List IgnoreRule)
unfolding gitignore_of load_below
load_gitignores root = gitignore_of [] root ++ load_below [] root

-- `build_walker`
unfoldable pub build_walker : Entries → List String → List String → Bool → Walker
unfolding load_gitignores
build_walker root includes excludes respect_gitignore = record {
  includes = includes;
  excludes = excludes;
  gitignores = if respect_gitignore then load_gitignores root else [];
}

abbrev is_empty {ℓ} : {A : Type ℓ} → List A → Bool
is_empty [] = true
is_empty (x ∷ xs) = false

unfoldable pub concat {ℓ} : {A : Type ℓ} → List (List A) → List A
concat [] = []
concat (xs ∷ xss) = xs ++ concat xss

-- `sorted(…, key=lambda p: p.name)`, with what each entry yields.
abbrev pub named_before {ℓ} : {A : Type ℓ} → String × A → String × A → Bool
named_before a b = text_before a.0 b.0

abbrev pub in_order {ℓ} : {A : Type ℓ} → List (String × List A) → List A
unfolding concat sort_by
in_order xs = concat (map (λ x. x.1) (sort_by named_before xs))

module _ (fnmatch : String → String → Bool) (w : Walker) where
  unfoldable pub accept : List String → Bool
  unfolding any parents matches_any gitignore_matches contains
  accept rel =
      not (any (λ part. contains part default_excluded_dirs) (parents rel))
      && not (matches_any fnmatch rel w.excludes)
      && (is_empty w.includes || matches_any fnmatch rel w.includes)
      && not (gitignore_matches fnmatch false rel w)

  -- Does the walk go into the directory?
  unfoldable pub enters : List String → String → Bool
  unfolding matches_any gitignore_matches contains
  enters at name =
      not (contains name default_excluded_dirs)
      && not (gitignore_matches fnmatch true (at ++ name ∷ []) w)
      && not (matches_any fnmatch (at ++ name ∷ []) w.excludes)

  -- `_walk`
  unfoldable mutual
    unfolding accept enters in_order

    pub walk_entry : List String → Entry → List (List String)
    walk_entry at (file name lines) =
        if accept (at ++ name ∷ []) then (at ++ name ∷ []) ∷ [] else []
    walk_entry at (symlink name) = []
    walk_entry at (directory name es) =
        let inner = in_order (walk_each (at ++ name ∷ []) es) in
        if enters at name then inner else []

    pub walk_each : List String → Entries → List (String × List (List String))
    walk_each at end = []
    walk_each at (entry e es) = (name_of e, walk_entry at e) ∷ walk_each at es

  -- `iter_files`
  unfoldable pub iter_files : Entries → List (List String)
  unfolding in_order walk_each
  iter_files root = in_order (walk_each [] root)
