-- ===== src/Storage/Markdown.antt =====
-- memu/storage/markdown_backend.py: the vault as a dict from paths to what `_read` makes of the files,
-- which is none for a file that is no node. The frontmatter is read as it was dumped.
pub mod Links
pub mod Filed
use Prim.Native.Char.{Char, code}
use fumemory.Base.{
  ℕ, suc, ◌==◌, leb, String, ◌<>◌, str_eq, Bool, true, false, ◌&&◌, ◌||◌, not, Option, none, some,
  List, [], ◌∷◌, ◌++◌, map, if◌then◌else◌, Result, ok, err,
}
use fumemory.Base.Dict
use fumemory.Base.Dict.{Dict}
use fumemory.Base.Lists.{filter, take}
use fumemory.Base.Texts.{is_newline}
use fumemory.Wiki.Frontmatter.{end_line, drop_newline}
use fumemory.Storage.Node.{WikiNode, LinkRecord, content_hash}

abbrev pub Vault : Type 0
Vault = Dict (Option WikiNode)

-- A kind that has no directory.
pub data KindError : Type 0 where
  unknown_kind : String → KindError

-- `slug.replace("..", "")`
remove_dots : String → String
remove_dots String.[] = String.[]
remove_dots (String.◌∷◌ c String.[]) = String.◌∷◌ c String.[]
remove_dots (String.◌∷◌ c (String.◌∷◌ d s)) =
    let both = remove_dots s in
    let one = remove_dots (String.◌∷◌ d s) in
    if code c == b'.' && code d == b'.' then both else String.◌∷◌ c one

-- `text.strip("/")`
strip_slashes_left : String → String
strip_slashes_left String.[] = String.[]
strip_slashes_left (String.◌∷◌ c s) =
    let rest = strip_slashes_left s in if code c == b'/' then rest else String.◌∷◌ c s

strip_slashes_right : String → String
strip_slashes_right String.[] = String.[]
strip_slashes_right (String.◌∷◌ c s) =
    let rest = strip_slashes_right s in
    if code c == b'/' && str_eq rest "" then String.[] else String.◌∷◌ c rest

-- `VaultLayout.path_for`, from the root of the vault.
unfoldable pub path_for : String → String → Result KindError String
unfolding remove_dots strip_slashes_left strip_slashes_right
path_for kind slug =
    let safe = strip_slashes_right (strip_slashes_left (remove_dots slug)) in
    if str_eq kind "note"
    then ok ("notes/" <> (safe <> ".md"))
    else if str_eq kind "code"
    then ok ("code/" <> (safe <> ".md"))
    else if str_eq kind "paper"
    then ok ("papers/" <> (safe <> ".md"))
    else if str_eq kind "tasks" || str_eq kind "task"
    then ok ("tasks/" <> (safe <> ".md"))
    else err (unknown_kind kind)

-- The body as it is read: `dump_frontmatter` ends it with a newline, `parse_frontmatter` drops one that
-- it begins with.
unfoldable pub stored_body : WikiNode → String
unfolding end_line drop_newline
stored_body n =
    drop_newline (end_line (if str_eq n.body "" then "# " <> (n.title <> "\n") else n.body))

-- A link is read with the slug of its node and without ids.
abbrev pub read_link : String → LinkRecord → LinkRecord
read_link slug l = record l { src_slug = slug; src_id = none }

abbrev has_dst : LinkRecord → Bool
has_dst l = not (str_eq l.dst_slug "")

-- What `_read` makes of the file that a node is written to: a file without id or slug is none.
-- `stem` is the name that pathlib gives a path.
unfoldable pub read_back : (String → String) → String → WikiNode → Option WikiNode
unfolding stored_body
read_back stem path n =
    if str_eq n.id "" || str_eq n.slug ""
    then none
    else some (record n {
      title = if str_eq n.title "" then stem path else n.title;
      body = stored_body n;
      links = map (read_link n.slug) (filter has_dst n.links);
    })

unfoldable pub find_by : (WikiNode → Bool) → Vault → Option WikiNode
find_by p [] = none
find_by p ((path, none) ∷ v) = find_by p v
find_by p ((path, some n) ∷ v) = if p n then some n else find_by p v

-- `_find_by_slug` and `_find_by_id`
unfoldable pub find_by_slug : String → Vault → Option WikiNode
unfolding find_by
find_by_slug slug v = find_by (λ n. str_eq n.slug slug) v

unfoldable pub get_node : String → Vault → Option WikiNode
unfolding find_by
get_node ref v = elim (find_by_slug ref v) [
  | some n ↦ some n
  | none ↦ find_by (λ n. str_eq n.id ref) v
]

unfoldable pub resolve_slug : String → Vault → Option String
unfolding find_by
resolve_slug slug v = elim (find_by_slug slug v) [ none ↦ none | some n ↦ some n.id ]

-- The file of the node is written.
unfoldable pub write : (String → String) → WikiNode → Vault → Result KindError WikiNode × Vault
unfolding path_for read_back
write stem n v = elim (path_for n.kind n.slug) [
  | err e ↦ (err e, v)
  | ok path ↦ (ok n, Dict.put v path (read_back stem path n))
]

abbrev pub answered :
    {A : Type 0} → (WikiNode → A) → Result KindError WikiNode × Vault → Result KindError A × Vault
answered f (ok n, v) = (ok (f n), v)
answered f (err e, v) = (err e, v)

abbrev pub bump : ℕ → WikiNode → WikiNode
bump now n = record n {
  reinforcement_count = suc n.reinforcement_count;
  last_reinforced_at = some now;
  updated_at = some now;
}

abbrev pub reinforced : ℕ → WikiNode → WikiNode → WikiNode
reinforced now node existing = record (bump now existing) { details = node.details }

-- A node that is written as it is; the counter starts again if there is an older one.
abbrev pub dated : ℕ → Bool → WikiNode → WikiNode
dated now again node = record node {
  reinforcement_count = if again then 0 else node.reinforcement_count;
  last_reinforced_at = if again then none else node.last_reinforced_at;
  updated_at = some now;
  created_at = elim node.created_at [ none ↦ some now | some t ↦ some t ];
}

-- The links of another target or type, and the link.
abbrev pub with_link : LinkRecord → WikiNode → WikiNode
with_link link src = record src {
  links =
      filter (λ l. not (str_eq l.dst_slug link.dst_slug && str_eq l.kind link.kind)) src.links
      ++ link ∷ [];
}

module _ (lower digest stem : String → String) where
  -- `put_node`; `del fencing_token` is all that happens to the token.
  unfoldable pub put_node : ℕ → Option ℕ → WikiNode → Vault → Result KindError WikiNode × Vault
  unfolding find_by write
  put_node now fencing_token node v = elim (find_by_slug node.slug v) [
    | none ↦ write stem (dated now false node) v
    | some existing ↦
        if str_eq (content_hash lower digest existing) (content_hash lower digest node)
        then write stem (reinforced now node existing) v
        else write stem (dated now true node) v
  ]

  -- `put_link`
  unfoldable pub put_link : ℕ → LinkRecord → Vault → Result KindError Unit × Vault
  unfolding get_node put_node
  put_link now link v = elim (get_node link.src_slug v) [
    | none ↦ (ok tt, v)
    | some src ↦ answered (λ n. tt) (put_node now none (with_link link src) v)
  ]

-- `reinforce_node`
unfoldable pub reinforce_node :
    (String → String) → ℕ → String → Vault → Result KindError (Option WikiNode) × Vault
unfolding get_node write
reinforce_node stem now ref v = elim (get_node ref v) [
  | none ↦ (ok none, v)
  | some n ↦ answered (λ m. some m) (write stem (bump now n) v)
]

-- `delete_node`
unfoldable pub delete_node : String → Vault → Result KindError Unit × Vault
unfolding get_node path_for
delete_node ref v = elim (get_node ref v) [
  | none ↦ (ok tt, v)
  | some n ↦ elim (path_for n.kind n.slug) [
    | err e ↦ (err e, v)
    | ok path ↦ (ok tt, Dict.remove v path)
  ]
]

abbrev of_kind : Option String → WikiNode → Bool
of_kind none n = true
of_kind (some kind) n = str_eq kind "" || str_eq n.kind kind

readable : Option String → Vault → List WikiNode
readable kind [] = []
readable kind ((path, none) ∷ v) = readable kind v
readable kind ((path, some n) ∷ v) =
    let rest = readable kind v in if of_kind kind n then n ∷ rest else rest

-- `list_nodes`: the test on the limit comes after a node is taken, so one is listed at least.
unfoldable pub list_nodes : Option String → ℕ → Vault → List WikiNode
unfolding readable
list_nodes kind limit v = take (if limit == 0 then 1 else limit) (readable kind v)
