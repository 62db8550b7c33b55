-- ===== src/Storage/Sqlite.antt =====
-- memu/storage/sqlite_backend.py: the four tables of the index and the operations on them. A table
-- with a primary key is a dict, whose order is that of the row numbers.
pub mod Refines
pub mod Renamed
pub mod Slugs
pub mod Reads
use fumemory.Base.{
  ℕ, String, str_eq, Bool, true, false, ◌&&◌, ◌||◌, not, is_some, Option, none, some, List, [], ◌∷◌,
  ◌++◌, map, if◌then◌else◌, Result, ok, err,
}
use fumemory.Base.Dict
use fumemory.Base.Dict.{Dict}
use fumemory.Base.Dict.Keys.{drop_where}
use fumemory.Base.Lists.{length, filter, foldl}
use fumemory.Rlm.Fusion.{sort_by, text_before}
use fumemory.Storage.Node.{WikiNode, Details, LinkRecord}

-- A row of `nodes` without its key.
pub record NodeRow : Type 0 where
  pub slug : String
  pub kind : String
  pub title : String
  pub body : String
  pub details : Details
  pub created_at : ℕ
  pub updated_at : ℕ

pub record LinkRow : Type 0 where
  pub src_id : String
  pub dst_slug : String
  pub kind : String
  pub strength : ℕ

pub record SqliteBackend : Type 0 where
  pub nodes : Dict NodeRow
  pub slug_registry : Dict (String × String)
  pub links : List LinkRow
  pub embeddings : Dict (ℕ × Option String × String)

-- A constraint of a table, and what `put_link` raises.
pub data StorageError : Type 0 where
  slug_not_unique unknown_node_id unknown_src_slug : StorageError

abbrev or_default : Option ℕ → ℕ → ℕ
or_default none now = now
or_default (some t) now = t

-- `json.dumps(source) if source else None`
abbrev kept_source : Option (Dict String) → Option (Dict String)
kept_source (some []) = none
kept_source source = source

-- The columns that `put_node` writes; an update keeps the time of creation.
abbrev columns : ℕ → WikiNode → Option NodeRow → NodeRow
columns now n old = record {
  slug = n.slug;
  kind = n.kind;
  title = n.title;
  body = n.body;
  details = record n.details { source = kept_source n.details.source };
  created_at = elim old [ none ↦ or_default n.created_at now | some row ↦ row.created_at ];
  updated_at = now;
}

-- Has another row the slug?
unfoldable pub slug_taken : String → String → Dict NodeRow → Bool
slug_taken id slug [] = false
slug_taken id slug ((j, row) ∷ rows) =
    not (str_eq j id) && str_eq row.slug slug || slug_taken id slug rows

unfoldable pub register_slug :
    String → String → String → SqliteBackend → Result StorageError Unit × SqliteBackend
register_slug slug node_id kind db = elim (Dict.get db.nodes node_id) [
  | none ↦ (err unknown_node_id, db)
  | some row ↦ (ok tt, record db { slug_registry = Dict.put db.slug_registry slug (node_id, kind) })
]

same_link : String → String → String → LinkRow → Bool
same_link src_id dst_slug kind l =
    str_eq l.src_id src_id && str_eq l.dst_slug dst_slug && str_eq l.kind kind

-- `INSERT OR REPLACE INTO links`: the row with the same key goes, and the new one comes last.
unfoldable pub replace_link : String → List LinkRow → LinkRecord → List LinkRow
unfolding same_link
replace_link src_id links l =
    filter (λ other. not (same_link src_id l.dst_slug l.kind other)) links
    ++ record { src_id = src_id; dst_slug = l.dst_slug; kind = l.kind; strength = l.strength } ∷ []

-- The links of the node take the place of the ones that it had.
unfoldable pub write_links :
    WikiNode
    → Result StorageError Unit × SqliteBackend
    → Result StorageError WikiNode × SqliteBackend
unfolding replace_link
write_links n (err e, db) = (err e, db)
write_links n (ok _, db) = (
  ok n,
  record db {
    links = foldl (replace_link n.id) (filter (λ l. not (str_eq l.src_id n.id)) db.links) n.links;
  },
)

unfoldable pub put_node :
    ℕ → WikiNode → SqliteBackend → Result StorageError WikiNode × SqliteBackend
unfolding register_slug slug_taken write_links
put_node now node db =
    let n = record node {
      created_at = some (or_default node.created_at now);
      updated_at = some now;
    } in
    if slug_taken n.id n.slug db.nodes
    then (err slug_not_unique, db)
    else write_links n (
        register_slug n.slug n.id n.kind
          (record db { nodes = Dict.put db.nodes n.id (columns now n (Dict.get db.nodes n.id)) }))

abbrev pub link_read : String → String → LinkRow → LinkRecord
link_read slug id l = record {
  src_slug = slug;
  dst_slug = l.dst_slug;
  kind = l.kind;
  strength = l.strength;
  src_id = some id;
}

-- The order of the index of the primary key, among the links of one node.
abbrev pub key_before : LinkRow → LinkRow → Bool
key_before a b =
    text_before a.dst_slug b.dst_slug || str_eq a.dst_slug b.dst_slug && text_before a.kind b.kind

-- `SELECT … FROM links WHERE src_id = ?`, which the index of the primary key answers.
unfoldable pub links_out : String → List LinkRow → List LinkRow
links_out id links = sort_by key_before (filter (λ l. str_eq l.src_id id) links)

-- `_row_to_node`
unfoldable pub row_to_node : SqliteBackend → String → NodeRow → WikiNode
unfolding links_out
row_to_node db id row = record {
  id = id;
  slug = row.slug;
  kind = row.kind;
  title = row.title;
  body = row.body;
  links = map (link_read row.slug id) (links_out id db.links);
  details = row.details;
  created_at = some row.created_at;
  updated_at = some row.updated_at;
  reinforcement_count = 0;
  last_reinforced_at = none;
}

unfoldable pub find_slug : String → Dict NodeRow → Option (String × NodeRow)
find_slug ref [] = none
find_slug ref ((id, row) ∷ rows) =
    if str_eq row.slug ref then some (id, row) else find_slug ref rows

-- `WHERE id = ? OR slug = ? LIMIT 1`: the index of the ids is asked before that of the slugs.
unfoldable pub find_row : String → Dict NodeRow → Option (String × NodeRow)
unfolding find_slug
find_row ref rows = elim (Dict.get rows ref) [
  | none ↦ find_slug ref rows
  | some row ↦ some (ref, row)
]

unfoldable pub get_node : String → SqliteBackend → Option WikiNode
unfolding find_row row_to_node
get_node ref db = elim (find_row ref db.nodes) [
  | none ↦ none
  | some (id, row) ↦ some (row_to_node db id row)
]

-- `delete_node`: the rows that refer to a deleted one go with it; links do not refer.
unfoldable pub delete_node : String → SqliteBackend → SqliteBackend
unfolding drop_where
delete_node ref db =
    let kept = drop_where (λ id (row : NodeRow). str_eq id ref || str_eq row.slug ref) db.nodes in
    let gone = λ (id : String). not (is_some (Dict.get kept id)) in
    record db {
      nodes = kept;
      slug_registry = drop_where (λ slug (entry : String × String). gone entry.0) db.slug_registry;
      embeddings = drop_where (λ id entry. gone id) db.embeddings;
    }

unfoldable pub resolve_slug : String → SqliteBackend → Option String
resolve_slug slug db = elim (Dict.get db.slug_registry slug) [
  | none ↦ none
  | some (node_id, kind) ↦ some node_id
]

-- `link.src_id or await self.resolve_slug(link.src_slug)`
source_of : LinkRecord → SqliteBackend → Option String
unfolding resolve_slug
source_of l db = elim l.src_id [
  | none ↦ resolve_slug l.src_slug db
  | some id ↦ if str_eq id "" then resolve_slug l.src_slug db else some id
]

unfoldable pub put_link : LinkRecord → SqliteBackend → Result StorageError Unit × SqliteBackend
unfolding source_of replace_link
put_link l db = elim (source_of l db) [
  | none ↦ (err unknown_src_slug, db)
  | some id ↦ (ok tt, record db { links = replace_link id db.links l })
]

pub data Direction : Type 0 where
  out_links in_links both_links : Direction

-- The join of the links to a slug with the nodes that they come from; the index `links_dst_idx` gives
-- the links of a slug in the order in which they were written.
links_in : String → Dict NodeRow → List LinkRow → List LinkRecord
links_in slug nodes [] = []
links_in slug nodes (l ∷ ls) =
    let rest = links_in slug nodes ls in
    elim (Dict.get nodes l.src_id) [
      | none ↦ rest
      | some row ↦ if str_eq l.dst_slug slug then link_read row.slug l.src_id l ∷ rest else rest
    ]

unfoldable pub list_links : String → Direction → SqliteBackend → List LinkRecord
unfolding get_node links_in links_out
list_links ref direction db = elim (get_node ref db) [
  | none ↦ []
  | some n ↦
      let out = map (link_read n.slug n.id) (links_out n.id db.links) in
      let into = links_in n.slug db.nodes db.links in
      elim direction [ out_links ↦ out | in_links ↦ into | both_links ↦ out ++ into ]
]

-- `pack` stands for the bytes of the vector.
unfoldable pub put_embedding {ℓ} :
    {A : Type ℓ}
    → (List A → String)
    → String
    → List A
    → Option String
    → SqliteBackend
    → Result StorageError Unit × SqliteBackend
put_embedding pack node_id [] model db = (ok tt, db)
put_embedding pack node_id (x ∷ xs) model db = elim (Dict.get db.nodes node_id) [
  | none ↦ (err unknown_node_id, db)
  | some row ↦ (
    ok tt,
    record db {
      embeddings = Dict.put db.embeddings node_id (length (x ∷ xs), model, pack (x ∷ xs));
    },
  )
]
