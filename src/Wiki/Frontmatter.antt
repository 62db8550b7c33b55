-- ===== src/Wiki/Frontmatter.antt =====
-- memu/wiki/frontmatter.py: a page's frontmatter and body as one text. The YAML library is a pair of
-- arguments; what it raises is not modelled.
pub mod Reads
use Prim.Native.Char.{Char, code}
use fumemory.Base.{
  ℕ, leb, ◌==◌, String, ◌<>◌, str_eq, Bool, true, false, ◌&&◌, ◌||◌, not, Option, none, some, List,
  [], ◌∷◌, if◌then◌else◌,
}
use fumemory.Base.Texts.{before, is_newline}
use fumemory.CoreMemory.Texts.{starts_with, strip}

-- The characters that end a line for `str.splitlines`.
unfoldable pub is_break : ℕ → Bool
is_break c = leb 10 c && leb c 13 || leb 28 c && leb c 30 || c == 133 || c == 8232 || c == 8233

abbrev begins_line_feed : String → Bool
begins_line_feed String.[] = false
begins_line_feed (String.◌∷◌ c s) = is_newline (code c)

-- Does the line go on after the character?
abbrev pub goes_on : Char → String → Bool
unfolding is_break
goes_on c s = not (is_break (code c)) || code c == b'\r' && begins_line_feed s

-- `text.splitlines(keepends=True)`
unfoldable pub split_lines : String → List String
unfolding goes_on before
split_lines String.[] = []
split_lines (String.◌∷◌ c s) =
    let rest = split_lines s in
    if goes_on c s then before (String.◌∷◌ c String.[]) rest else String.◌∷◌ c String.[] ∷ rest

-- `"".join(lines)`
unfoldable pub join_lines : List String → String
join_lines [] = ""
join_lines (l ∷ ls) = l <> join_lines ls

abbrev pub is_fence : String → Bool
is_fence line = str_eq (strip line) "---"

-- The lines before the first fence, and the ones after it.
unfoldable pub find_end : List String → Option (List String × List String)
find_end [] = none
find_end (l ∷ ls) =
    let rest = find_end ls in
    if is_fence l
    then some ([], ls)
    else elim rest [ none ↦ none | some (raw, body) ↦ some (l ∷ raw, body) ]

-- The text with a newline at its end, and without one at its beginning.
unfoldable pub end_line : String → String
end_line String.[] = "\n"
end_line (String.◌∷◌ c String.[]) =
    if is_newline (code c) then String.◌∷◌ c String.[] else String.◌∷◌ c "\n"
end_line (String.◌∷◌ c (String.◌∷◌ d s)) = String.◌∷◌ c (end_line (String.◌∷◌ d s))

unfoldable pub drop_newline : String → String
drop_newline String.[] = String.[]
drop_newline (String.◌∷◌ c s) = if is_newline (code c) then s else String.◌∷◌ c s

module _ {A : Type 0} (empty : A) (load : String → A) (dump : A → String) where
  unfoldable pub parsed : String → Option (List String × List String) → A × String
  unfolding join_lines drop_newline
  parsed text none = (empty, text)
  parsed text (some (raw, body)) = (load (join_lines raw), drop_newline (join_lines body))

  unfoldable pub after_fence : String → List String → A × String
  unfolding find_end parsed
  after_fence text [] = (empty, text)
  after_fence text (l ∷ ls) = if is_fence l then parsed text (find_end ls) else (empty, text)

  -- `load` answers a dict: an empty one for a text that is none.
  unfoldable pub parse_frontmatter : String → A × String
  unfolding split_lines after_fence
  parse_frontmatter text =
      if starts_with "---" text then after_fence text (split_lines text) else (empty, text)

  unfoldable pub dump_frontmatter : A → String → String
  unfolding end_line
  dump_frontmatter fm body = "---\n" <> (end_line (dump fm) <> ("---\n" <> end_line body))
