-- ===== src/Ingest/Filters.antt =====
-- memu/ingest/filters.py: which files of a tree are ingested. A path is the list of its parts from the
-- root; `fnmatch.fnmatch` is an argument.
pub mod Last
use Prim.Native.Char.{Char, code}
use Prim.Native.String.{compare}
use Prim.Native.Nat.{Ordering}
use fumemory.Base.{
  ℕ, ◌==◌, leb, ltb, String, ◌<>◌, str_eq, Bool, true, false, ◌&&◌, ◌||◌, not, Option, none, some,
  List, [], ◌∷◌, ◌++◌, map, if◌then◌else◌,
}
use fumemory.Base.Lists.{length, contains, filter, foldl}
use fumemory.Base.Texts.{join, is_newline}
use fumemory.CoreMemory.Texts.{starts_with, has_text}
use fumemory.Rlm.Fusion.{sort_by}

abbrev pub default_excluded_dirs : List String
default_excluded_dirs =
    ".git" ∷ ".hg" ∷ ".svn" ∷ ".idea" ∷ ".vscode" ∷ ".mypy_cache" ∷ ".pytest_cache" ∷ ".ruff_cache"
    ∷ ".tox" ∷ ".venv" ∷ "venv" ∷ "env" ∷ "__pycache__" ∷ "node_modules" ∷ "dist" ∷ "build"
    ∷ "target" ∷ "_index" ∷ ".memu" ∷ []

-- The parts of the regular expression of a glob: `(?:.*/)?`, `(?:/.*)?`, `[^/]*`, `[^/]`, a character.
pub data GlobPart : Type 0 where
  any_dirs any_tail segment one_char : GlobPart
  literal : Char → GlobPart

abbrev is_char : ℕ → Char → Bool
is_char n c = code c == n

-- `_glob_to_regex`
unfoldable pub glob_parts : String → List GlobPart
glob_parts String.[] = []
glob_parts (String.◌∷◌ c String.[]) =
    (if is_char b'*' c then segment else if is_char b'?' c then one_char else literal c) ∷ []
glob_parts (String.◌∷◌ c (String.◌∷◌ d String.[])) =
    (if is_char b'*' c then segment else if is_char b'?' c then one_char else literal c)
    ∷ glob_parts (String.◌∷◌ d String.[])
glob_parts (String.◌∷◌ c (String.◌∷◌ d (String.◌∷◌ e s))) =
    let three = glob_parts s in
    let one = glob_parts (String.◌∷◌ d (String.◌∷◌ e s)) in
    if is_char b'*' c && is_char b'*' d && is_char b'/' e
    then any_dirs ∷ three
    else if is_char b'/' c && is_char b'*' d && is_char b'*' e
    then any_tail ∷ three
    else if is_char b'*' c
    then segment ∷ one
    else if is_char b'?' c
    then one_char ∷ one
    else literal c ∷ one

-- The rest of a match after each of the parts that may take several characters.
after_segment : (String → Bool) → String → Bool
after_segment p String.[] = p String.[]
after_segment p (String.◌∷◌ c s) = p (String.◌∷◌ c s) || not (is_char b'/' c) && after_segment p s

after_line : (String → Bool) → String → Bool
after_line p String.[] = p String.[]
after_line p (String.◌∷◌ c s) = p (String.◌∷◌ c s) || not (is_newline (code c)) && after_line p s

after_dirs : (String → Bool) → String → Bool
after_dirs p String.[] = false
after_dirs p (String.◌∷◌ c s) = is_char b'/' c && p s || not (is_newline (code c)) && after_dirs p s

after_slash : (String → Bool) → String → Bool
after_slash p String.[] = false
after_slash p (String.◌∷◌ c s) = is_char b'/' c && p s

after_one : (Char → Bool) → (String → Bool) → String → Bool
after_one q p String.[] = false
after_one q p (String.◌∷◌ c s) = q c && p s

-- `regex.match`, from the start to `$`.
unfoldable pub matches_parts : List GlobPart → String → Bool
unfolding after_segment after_line after_dirs after_slash after_one
matches_parts [] s = str_eq s "" || str_eq s "\n"
matches_parts (any_dirs ∷ ps) s = matches_parts ps s || after_dirs (matches_parts ps) s
matches_parts (any_tail ∷ ps) s =
    matches_parts ps s || after_slash (after_line (matches_parts ps)) s
matches_parts (segment ∷ ps) s = after_segment (matches_parts ps) s
matches_parts (one_char ∷ ps) s = after_one (λ c. not (is_char b'/' c)) (matches_parts ps) s
matches_parts (literal d ∷ ps) s = after_one (λ c. is_char (code d) c) (matches_parts ps) s

pub record IgnoreRule : Type 0 where
  pub pattern : String
  pub negated : Bool
  pub dir_only : Bool
  pub anchored : Bool

-- `line[:-1]` where the line ends with a slash.
cut_slash : String → Option String
cut_slash String.[] = none
cut_slash (String.◌∷◌ c String.[]) = if is_char b'/' c then some "" else none
cut_slash (String.◌∷◌ c (String.◌∷◌ d s)) = elim (cut_slash (String.◌∷◌ d s)) [
  | none ↦ none
  | some t ↦ some (String.◌∷◌ c t)
]

-- The text without the character, when it begins with it.
cut_first : ℕ → String → Option String
cut_first n String.[] = none
cut_first n (String.◌∷◌ c s) = if is_char n c then some s else none

abbrev without {ℓ} : {A : Type ℓ} → Option A → A → Bool × A
without none a = (false, a)
without (some b) a = (true, b)

-- A line of a `.gitignore`, without its end.
unfoldable pub parse_line : String → Option IgnoreRule
unfolding cut_slash cut_first
parse_line line =
    let (negated, l1) = without (cut_first b'!' line) line in
    let (dir_only, l2) = without (cut_slash l1) l1 in
    let (anchored, l3) = without (cut_first b'/' l2) l2 in
    if str_eq line "" || starts_with "#" line || str_eq l3 ""
    then none
    else some (record { pattern = l3; negated = negated; dir_only = dir_only; anchored = anchored })

-- `_parse_gitignore`, on `text.splitlines()`.
unfoldable pub parse_gitignore : List String → List IgnoreRule
unfolding parse_line
parse_gitignore [] = []
parse_gitignore (line ∷ lines) =
    let rest = parse_gitignore lines in elim (parse_line line) [ none ↦ rest | some r ↦ r ∷ rest ]

-- `as_posix`
unfoldable pub posix : List String → String
posix [] = "."
posix (p ∷ ps) = join "/" (p ∷ ps)

-- `rel.relative_to(scope)`
unfoldable pub relative_to : List String → List String → Option (List String)
relative_to [] rel = some rel
relative_to (p ∷ ps) [] = none
relative_to (p ∷ ps) (r ∷ rel) = let rest = relative_to ps rel in if str_eq p r then rest else none

unfoldable pub any {ℓ} : {A : Type ℓ} → (A → Bool) → List A → Bool
any p [] = false
any p (x ∷ xs) = p x || any p xs

-- What a walker is made with: the patterns, and the rules of the `.gitignore` of each directory.
pub record Walker : Type 0 where
  pub includes : List String
  pub excludes : List String
  pub gitignores : List (List String × List IgnoreRule)

-- Everything but the last part.
unfoldable pub parents : List String → List String
parents [] = []
parents (p ∷ []) = []
parents (p ∷ q ∷ ps) = p ∷ parents (q ∷ ps)

unfoldable pub shallower : List String × List IgnoreRule → List String × List IgnoreRule → Bool
shallower a b = ltb (length a.0) (length b.0)

module _ (fnmatch : String → String → Bool) where
  unfoldable pub single_match : String → String → Bool
  unfolding matches_parts glob_parts
  single_match rel pattern =
      fnmatch rel pattern || has_text "**" pattern && matches_parts (glob_parts pattern) rel

  unfoldable pub matches_any : List String → List String → Bool
  unfolding any single_match posix
  matches_any rel patterns = any (single_match (posix rel)) patterns

  -- Does a tail of the path match?
  match_tail : String → List String → Bool
  unfolding single_match
  match_tail pattern [] = false
  match_tail pattern (p ∷ ps) = single_match (join "/" (p ∷ ps)) pattern || match_tail pattern ps

  unfoldable pub rule_matches : Bool → List String → IgnoreRule → Bool
  unfolding match_tail single_match posix
  rule_matches is_dir rel rule =
      if rule.dir_only && not is_dir
      then false
      else if rule.anchored
      then single_match (posix rel) rule.pattern
      else match_tail rule.pattern rel

  -- The rules of one directory, on a path from there.
  unfoldable pub apply_rules : Bool → List String → List IgnoreRule → Bool → Bool
  unfolding rule_matches
  apply_rules is_dir rel [] matched = matched
  apply_rules is_dir rel (rule ∷ rules) matched =
      apply_rules is_dir rel rules
        (if rule_matches is_dir rel rule then not rule.negated else matched)

  unfoldable pub apply_scope : Bool → List String → Bool → List String × List IgnoreRule → Bool
  unfolding relative_to apply_rules
  apply_scope is_dir rel matched (scope, rules) = elim (relative_to scope rel) [
    | none ↦ matched
    | some scope_rel ↦ apply_rules is_dir scope_rel rules matched
  ]

  -- `_gitignore_matches`
  unfoldable pub gitignore_matches : Bool → List String → Walker → Bool
  unfolding foldl apply_scope shallower
  gitignore_matches is_dir rel w =
      foldl (apply_scope is_dir rel) false (sort_by shallower w.gitignores)
