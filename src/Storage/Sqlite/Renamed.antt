-- ===== src/Storage/Sqlite/Renamed.antt =====
-- memu/storage/sqlite_backend.py: a node that is written again with another slug.
use fumemory.Base.{
  ℕ, String, eq_iff, eq_refl, ◌≡◌, ◌≢◌, refl, true, false, none, some, [], ◌∷◌, arith,
}
use fumemory.Base.Dict
use fumemory.Base.Dict.{Dict, get-put}
use fumemory.Base.Dict.Keys.{is_keyed, get-has_key}
use fumemory.Storage.Node.{WikiNode}
use fumemory.Storage.Sqlite.{
  NodeRow, SqliteBackend, slug_taken, put_node, resolve_slug, get_node, find_row, find_slug,
}
use fumemory.Storage.Sqlite.Refines.{written, put_node_lem}
use fumemory.Storage.Sqlite.Slugs.{IsSound, put_node-IsSound}

find_slug-none :
    (rows : Dict NodeRow) (ref : String)
    → is_keyed rows ≡ true
    → ((j : String) (b : NodeRow) → Dict.get rows j ≡ some b → b.slug ≢ ref)
    → find_slug ref rows ≡ none
unfolding find_slug Dict.get is_keyed
find_slug-none [] ref k apart = refl
find_slug-none ((i, w) ∷ rows) ref k apart =
    let rest =
      find_slug-none rows ref (ground (arith, k))
        (λ j b e. ground (arith, k, e, eq_iff i j, get-has_key rows i, apart j b)) in
    ground (arith, rest, eq_iff w.slug ref, eq_refl i, apart i w)

find_row-none :
    (rows : Dict NodeRow) (ref : String)
    → is_keyed rows ≡ true
    → Dict.get rows ref ≡ none
    → ((j : String) (b : NodeRow) → Dict.get rows j ≡ some b → b.slug ≢ ref)
    → find_row ref rows ≡ none
unfolding find_row
find_row-none rows ref k g apart = rw (g, find_row) (find_slug-none rows ref k apart)

-- Where a node is written twice, with another slug the second time: its old slug still resolves to
-- it, while no node is found by the old slug, unless that is the id of a node.
pub renamed_slug_stays :
    (before now : ℕ) (node : WikiNode) (slug : String) (db : SqliteBackend)
    → IsSound db
    → node.slug ≢ slug
    → node.id ≢ node.slug
    → Dict.get db.nodes node.slug ≡ none
    → slug_taken node.id node.slug db.nodes ≡ false
    → let db1 = (put_node before node db).1 in
      slug_taken node.id slug db1.nodes ≡ false
      → let db2 = (put_node now (record node { slug = slug }) db1).1 in
        (resolve_slug node.slug db2 ≡ some node.id) × (get_node node.slug db2 ≡ none)
unfolding get_node
renamed_slug_stays before now node slug db h apart id_apart no_id free free2 =
    let db1 = (put_node before node db).1 in
    let again = record node { slug = slug } in
    let first = (put_node_lem before node db).1 free in
    let second = (put_node_lem now again db1).1 free2 in
    let h1 : IsSound db1 = put_node-IsSound before node db h in
    let h2 : IsSound (put_node now again db1).1 = put_node-IsSound now again db1 h1 in
    let lost : find_row node.slug (put_node now again db1).1.nodes ≡ none =
      find_row-none (put_node now again db1).1.nodes node.slug h2.nodes_keyed
        (ground
          (arith, second.0 node.slug, first.0 node.slug, no_id, id_apart, eq_iff node.id node.slug))
        (λ j b e s. ground (
          arith,
          e,
          s,
          apart,
          second.0 j,
          first.0 node.id,
          eq_refl node.id,
          eq_iff node.id j,
          h1.slugs_apart j node.id b (written before node db),
        )) in
    (
      ground (
        arith,
        second.1 node.slug,
        first.1 node.slug,
        apart,
        eq_iff slug node.slug,
        eq_refl node.slug,
      ),
      rw (lost, get_node) refl,
    )
