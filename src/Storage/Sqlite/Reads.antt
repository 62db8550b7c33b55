-- ===== src/Storage/Sqlite/Reads.antt =====
-- memu/storage/sqlite_backend.py: what `get_node` reads back of what `put_node` wrote.
use fumemory.Base.{String, str_eq, Bool, false, ◌&&◌, ◌||◌, not, some, List, [], ◌∷◌, if◌then◌else◌}
use fumemory.Base.Dict
use fumemory.Base.Dict.{Dict, get-put}
use fumemory.Rlm.Fusion.{text_before}
use fumemory.Storage.Node.{WikiNode, LinkRecord}
use fumemory.Storage.Sqlite.{LinkRow}

-- Has a link of the list the target and the type?
unfoldable pub has_target : String → String → List LinkRecord → Bool
has_target dst_slug kind [] = false
has_target dst_slug kind (l ∷ ls) =
    str_eq l.dst_slug dst_slug && str_eq l.kind kind || has_target dst_slug kind ls

-- The last link of each target and type.
unfoldable pub latest : List LinkRecord → List LinkRecord
unfolding has_target
latest [] = []
latest (l ∷ ls) = let rest = latest ls in if has_target l.dst_slug l.kind ls then rest else l ∷ rest

abbrev row_of : String → LinkRecord → LinkRow
row_of id l = record { src_id = id; dst_slug = l.dst_slug; kind = l.kind; strength = l.strength }

abbrev is_own : String → LinkRow → Bool
is_own id k = str_eq k.src_id id

abbrev is_kept : List LinkRecord → LinkRow → Bool
unfolding has_target
is_kept ls k = not (has_target k.dst_slug k.kind ls)

-- `src_slug` and `src_id` of a link that is read come from the node that it was written with.
abbrev pub link_of : WikiNode → LinkRecord → LinkRecord
link_of n l = record {
  src_slug = n.slug;
  dst_slug = l.dst_slug;
  kind = l.kind;
  strength = l.strength;
  src_id = some n.id;
}

-- The order of the links that are read: by their target, then by their type.
abbrev pub target_before : LinkRecord → LinkRecord → Bool
target_before a b =
    text_before a.dst_slug b.dst_slug || str_eq a.dst_slug b.dst_slug && text_before a.kind b.kind
