-- ===== src/Ingest/Names.antt =====
-- memu/ingest/resolve.py: dotted names, and the slugs that are made of them.
use Prim.Native.Char.{code}
use fumemory.Base.{
  ◌==◌, String, ◌<>◌, str_eq, Bool, true, false, Option, none, some, List, [], ◌∷◌, if◌then◌else◌,
}
use fumemory.Base.Lists.{contains, first_some, splits}

-- A character before the first of some parts.
before : String → List String → List String
before c [] = c ∷ []
before c (p ∷ ps) = (c <> p) ∷ ps

-- `name.split(".")`
unfoldable pub split_dots : String → List String
unfolding before
split_dots String.[] = "" ∷ []
split_dots (String.◌∷◌ c s) =
    let rest = split_dots s in
    if code c == b'.' then "" ∷ rest else before (String.◌∷◌ c String.[]) rest

-- `".".join(parts)`
unfoldable pub join_dots : List String → String
join_dots [] = ""
join_dots (p ∷ []) = p
join_dots (p ∷ q ∷ ps) = p <> ("." <> join_dots (q ∷ ps))

-- `name.split(".", 1)[0]`
unfoldable pub first_part : String → String
first_part String.[] = ""
first_part (String.◌∷◌ c s) =
    let rest = first_part s in if code c == b'.' then "" else String.◌∷◌ c rest

-- `"." in name`
unfoldable pub has_dot : String → Bool
has_dot String.[] = false
has_dot (String.◌∷◌ c s) = let rest = has_dot s in if code c == b'.' then true else rest

-- `module_fqn.replace(".", "/")`
slashed : String → String
slashed String.[] = ""
slashed (String.◌∷◌ c s) =
    if code c == b'.' then String.◌∷◌ "/" (slashed s) else String.◌∷◌ c (slashed s)

-- `module_to_slug`
unfoldable pub module_to_slug : String → String → String
unfolding slashed
module_to_slug module_fqn qualname =
    if str_eq qualname ""
    then "code/" <> slashed module_fqn
    else "code/" <> (slashed module_fqn <> ("/" <> qualname))

-- A prefix of the parts, if it is a known name.
unfoldable pub known_prefix : List String → List String × List String → Option String
known_prefix known (front, back) =
    if contains (join_dots front) known then some (join_dots front) else none

-- `_longest_symbol_prefix`
unfoldable pub longest_symbol_prefix : List String → List String → String
longest_symbol_prefix parts known = elim (first_some (known_prefix known) (splits parts)) [
  | none ↦ ""
  | some name ↦ name
]
