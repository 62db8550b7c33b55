-- ===== src/Storage/Sqlite/Refines.antt =====
-- memu/storage/sqlite_backend.py: `put_node` as a change of a map from ids to rows, and what
-- `get_node` reads back.
use fumemory.Base.{
  ℕ, String, str_eq, eq_refl, ◌≡◌, refl, ap, ◌∙◌, Bool, true, false, ◌&&◌, not, some, List, [], ◌∷◌,
  ◌++◌, if◌then◌else◌, ok, err, arith,
}
use fumemory.Base.Dict
use fumemory.Base.Dict.{Dict, get-put}
use fumemory.Base.Lists.{filter, foldl}
use fumemory.Storage.Node.{WikiNode, LinkRecord}
use fumemory.Storage.Sqlite.{
  NodeRow, LinkRow, SqliteBackend, slug_not_unique, columns, or_default, slug_taken, same_link,
  replace_link, write_links, register_slug, put_node, resolve_slug,
}

module _ {ℓ} {A : Type ℓ} where
  pub filter-append :
      (p : A → Bool) (xs ys : List A) → filter p (xs ++ ys) ≡ filter p xs ++ filter p ys
  unfolding filter
  filter-append p [] ys = refl
  filter-append p (x ∷ xs) ys = ground (arith, filter-append p xs ys)

  pub filter-filter :
      (p q : A → Bool) (xs : List A) → filter p (filter q xs) ≡ filter (λ x. q x && p x) xs
  unfolding filter
  filter-filter p q [] = refl
  filter-filter p q (x ∷ xs) = ground (arith, filter-filter p q xs)

  pub filter-ext :
      (p q : A → Bool) → ((x : A) → p x ≡ q x) → (xs : List A) → filter p xs ≡ filter q xs
  unfolding filter
  filter-ext p q h [] = refl
  filter-ext p q h (x ∷ xs) = ground (arith, h x, filter-ext p q h xs)

-- The node that put_node returns.
abbrev pub stamped : ℕ → WikiNode → WikiNode
stamped now node = record node {
  created_at = some (or_default node.created_at now);
  updated_at = some now;
}

-- A row that put_node writes: the columns of the node, with the time of creation that an older row
-- of the same id has.
abbrev pub written : ℕ → WikiNode → SqliteBackend → NodeRow
written now node db = columns now (stamped now node) (Dict.get db.nodes node.id)

-- The tables that it leaves.
abbrev pub put_tables : ℕ → WikiNode → SqliteBackend → SqliteBackend
put_tables now node db = record {
  nodes = Dict.put db.nodes node.id (written now node db);
  slug_registry = Dict.put db.slug_registry node.slug (node.id, node.kind);
  links =
      foldl (replace_link node.id) (filter (λ l. not (str_eq l.src_id node.id)) db.links)
        node.links;
  embeddings = db.embeddings;
}

register_known :
    (slug id kind : String) (db : SqliteBackend) (row : NodeRow)
    → Dict.get db.nodes id ≡ some row
    → register_slug slug id kind db
      ≡ (ok tt, record db { slug_registry = Dict.put db.slug_registry slug (id, kind) })
unfolding register_slug
register_known slug id kind db row e = rw (e, register_slug) refl

pub put_node-free :
    (now : ℕ) (node : WikiNode) (db : SqliteBackend)
    → slug_taken node.id node.slug db.nodes ≡ false
    → put_node now node db ≡ (ok (stamped now node), put_tables now node db)
unfolding put_node write_links
put_node-free now node db free =
    let found : Dict.get (Dict.put db.nodes node.id (written now node db)) node.id
        ≡ some (written now node db) =
      ground (arith, get-put db.nodes node.id (written now node db) node.id, eq_refl node.id) in
    rw free (
      ap (write_links (stamped now node)) (
        register_known node.slug node.id node.kind
          (record db { nodes = Dict.put db.nodes node.id (written now node db) })
          (written now node db) found))

pub put_node-taken :
    (now : ℕ) (node : WikiNode) (db : SqliteBackend)
    → slug_taken node.id node.slug db.nodes ≡ true
    → put_node now node db ≡ (err slug_not_unique, db)
unfolding put_node
put_node-taken now node db taken = rw taken refl

pub put_tables-resolve :
    (now : ℕ) (node : WikiNode) (db : SqliteBackend)
    → resolve_slug node.slug (put_tables now node db) ≡ some node.id
unfolding resolve_slug
put_tables-resolve now node db =
    ground
      (arith, get-put db.slug_registry node.slug (node.id, node.kind) node.slug, eq_refl node.slug)

replace_link-others :
    (id : String) (links : List LinkRow) (l : LinkRecord)
    → filter (λ k. not (str_eq k.src_id id)) (replace_link id links l)
      ≡ filter (λ k. not (str_eq k.src_id id)) links
unfolding replace_link filter same_link
replace_link-others id [] l = ground (arith, eq_refl id)
replace_link-others id (k ∷ links) l = ground (arith, replace_link-others id links l)

replace_links-others :
    (id : String) (links : List LinkRow) (ls : List LinkRecord)
    → filter (λ k. not (str_eq k.src_id id)) (foldl (replace_link id) links ls)
      ≡ filter (λ k. not (str_eq k.src_id id)) links
unfolding foldl
replace_links-others id links [] = refl
replace_links-others id links (l ∷ ls) =
    replace_links-others id (replace_link id links l) ls ∙ replace_link-others id links l

-- Against the map from ids to rows: put_node raises, and changes nothing, exactly where another row
-- has the slug. Otherwise it writes the row of the node and no other row, the slug resolves to the
-- node, every other slug resolves as before, and links that come from other nodes stay.
pub put_node_lem :
    (now : ℕ) (node : WikiNode) (db : SqliteBackend)
    → let (answer, after) = put_node now node db in
      (slug_taken node.id node.slug db.nodes ≡ true → (answer ≡ err slug_not_unique) × (after ≡ db))
      × (slug_taken node.id node.slug db.nodes ≡ false
          → ((j : String)
              → Dict.get after.nodes j
                ≡ (if str_eq node.id j then some (written now node db) else Dict.get db.nodes j))
            × ((s : String)
                → resolve_slug s after
                  ≡ (if str_eq node.slug s then some node.id else resolve_slug s db))
            × (filter (λ l. not (str_eq l.src_id node.id)) after.links
                ≡ filter (λ l. not (str_eq l.src_id node.id)) db.links))
unfolding put_node resolve_slug
put_node_lem now node db = (
  λ e. rw (e, put_node) (refl, refl),
  λ e. rw (put_node-free now node db e) (
    λ j. get-put db.nodes node.id (written now node db) j,
    λ s. ground (arith, get-put db.slug_registry node.slug (node.id, node.kind) s),
    replace_links-others node.id (filter (λ l. not (str_eq l.src_id node.id)) db.links) node.links
        ∙ filter-filter (λ l. not (str_eq l.src_id node.id)) (λ l. not (str_eq l.src_id node.id))
            db.links
        ∙ filter-ext (λ l. not (str_eq l.src_id node.id) && not (str_eq l.src_id node.id))
            (λ l. not (str_eq l.src_id node.id)) (λ l. ground arith) db.links,
  ),
)
