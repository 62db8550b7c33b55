-- ===== src/Storage/Sqlite/Slugs.antt =====
-- memu/storage/sqlite_backend.py: what holds of the index after any calls.
use fumemory.Base.{
  ℕ, String, str_eq, eq_iff, ◌≡◌, ◌≢◌, true, false, ◌||◌, not, is_some, Option, none, some, List,
  [], ◌∷◌, arith, Bool-cases, Option-cases, inl, inr,
}
use fumemory.Base.Dict
use fumemory.Base.Dict.{Dict, get-put}
use fumemory.Base.Dict.Keys.{
  drop_where, is_keyed, is_keyed-put, is_keyed-drop_where, get-drop_where,
}
use fumemory.Base.Lists.{length}
use fumemory.Storage.Node.{WikiNode, LinkRecord}
use fumemory.Storage.Sqlite.{
  NodeRow, SqliteBackend, slug_taken, put_node, register_slug, delete_node, put_link, put_embedding,
  source_of,
}
use fumemory.Storage.Sqlite.Refines.{written, put_tables, put_node-free, put_node_lem}

abbrev pub empty : SqliteBackend
empty = record { nodes = []; slug_registry = []; links = []; embeddings = [] }

-- The calls that change the tables.
pub data Step (db : SqliteBackend) : SqliteBackend → Type 0 where
  puts : (now : ℕ) (node : WikiNode) → Step db (put_node now node db).1
  registers : (slug node_id kind : String) → Step db (register_slug slug node_id kind db).1
  deletes : (ref : String) → Step db (delete_node ref db)
  links_to : (l : LinkRecord) → Step db (put_link l db).1
  embeds :
      (pack : List ℕ → String) (node_id : String) (vector : List ℕ) (model : Option String)
      → Step db (put_embedding pack node_id vector model db).1

pub data Steps : SqliteBackend → SqliteBackend → Type 0 where
  done : (db : SqliteBackend) → Steps db db
  step : {a b c : SqliteBackend} → Step a b → Steps b c → Steps a c

-- No two nodes have one slug, and the registry and the embeddings speak of nodes that there are.
pub record IsSound (db : SqliteBackend) : Type 0 where
  pub nodes_keyed : is_keyed db.nodes ≡ true
  pub registry_keyed : is_keyed db.slug_registry ≡ true
  pub embeddings_keyed : is_keyed db.embeddings ≡ true
  pub slugs_apart :
      (i j : String) (a b : NodeRow)
      → Dict.get db.nodes i ≡ some a
      → Dict.get db.nodes j ≡ some b
      → a.slug ≡ b.slug
      → i ≡ j
  pub registered :
      (slug id kind : String)
      → Dict.get db.slug_registry slug ≡ some (id, kind)
      → Dict.get db.nodes id ≢ none
  pub embedded : (id : String) → Dict.get db.embeddings id ≢ none → Dict.get db.nodes id ≢ none

slug_taken-get :
    (id slug : String) (rows : Dict NodeRow) (j : String) (b : NodeRow)
    → slug_taken id slug rows ≡ false
    → Dict.get rows j ≡ some b
    → b.slug ≡ slug
    → j ≡ id
unfolding slug_taken Dict.get
slug_taken-get id slug [] j b h e s = absurd (ground (arith, e))
slug_taken-get id slug ((i, w) ∷ rows) j b h e s =
    ground
      (arith, h, e, s, eq_iff i j, eq_iff i id, eq_iff w.slug slug, slug_taken-get id slug rows j b)

put_tables-IsSound :
    (now : ℕ) (node : WikiNode) (db : SqliteBackend)
    → slug_taken node.id node.slug db.nodes ≡ false
    → IsSound db
    → IsSound (put_tables now node db)
put_tables-IsSound now node db free h =
    let row = written now node db in
    let at = get-put db.nodes node.id row in
    record {
      nodes_keyed = is_keyed-put db.nodes node.id row h.nodes_keyed;
      registry_keyed =
          is_keyed-put db.slug_registry node.slug (node.id, node.kind) h.registry_keyed;
      embeddings_keyed = h.embeddings_keyed;
      slugs_apart = λ i j a b ea eb s. ground (
        arith,
        at i,
        at j,
        ea,
        eb,
        s,
        eq_iff node.id i,
        eq_iff node.id j,
        slug_taken-get node.id node.slug db.nodes i a free,
        slug_taken-get node.id node.slug db.nodes j b free,
        h.slugs_apart i j a b,
      );
      registered = λ slug id kind e. ground (
        arith,
        e,
        get-put db.slug_registry node.slug (node.id, node.kind) slug,
        at id,
        eq_iff node.id id,
        h.registered slug id kind,
      );
      embedded = λ id e. ground (arith, e, at id, h.embedded id);
    }

register_slug-IsSound :
    (slug node_id kind : String) (db : SqliteBackend)
    → IsSound db
    → IsSound (register_slug slug node_id kind db).1
unfolding register_slug
register_slug-IsSound slug node_id kind db h = elim (Option-cases (Dict.get db.nodes node_id)) [
  | inl e ↦ rw (e, register_slug) h
  | inr (row, e) ↦
      rw (e, register_slug)
        (record {
          nodes_keyed = h.nodes_keyed;
          registry_keyed = is_keyed-put db.slug_registry slug (node_id, kind) h.registry_keyed;
          embeddings_keyed = h.embeddings_keyed;
          slugs_apart = h.slugs_apart;
          registered = λ s id k f.
              ground
                (arith, f, e, get-put db.slug_registry slug (node_id, kind) s, h.registered s id k);
          embedded = h.embedded;
        })
]

delete_node-IsSound :
    (ref : String) (db : SqliteBackend) → IsSound db → IsSound (delete_node ref db)
unfolding delete_node
delete_node-IsSound ref db h =
    let is_ref = λ (id : String) (row : NodeRow). str_eq id ref || str_eq row.slug ref in
    let kept = drop_where is_ref db.nodes in
    let gone = λ (id : String). not (is_some (Dict.get kept id)) in
    let at = λ (id : String). get-drop_where is_ref db.nodes id h.nodes_keyed in
    record {
      nodes_keyed = is_keyed-drop_where is_ref db.nodes h.nodes_keyed;
      registry_keyed =
          is_keyed-drop_where (λ s (e : String × String). gone e.0) db.slug_registry
            h.registry_keyed;
      embeddings_keyed = is_keyed-drop_where (λ id e. gone id) db.embeddings h.embeddings_keyed;
      slugs_apart = λ i j a b ea eb s. ground (arith, at i, at j, ea, eb, s, h.slugs_apart i j a b);
      registered = λ slug id kind e. ground (
        arith,
        e,
        get-drop_where (λ s (e : String × String). gone e.0) db.slug_registry slug h.registry_keyed,
      );
      embedded = λ id e.
          ground (arith, e, get-drop_where (λ id e. gone id) db.embeddings id h.embeddings_keyed);
    }

put_link-IsSound : (l : LinkRecord) (db : SqliteBackend) → IsSound db → IsSound (put_link l db).1
unfolding put_link
put_link-IsSound l db h = elim (Option-cases (source_of l db)) [
  | inl e ↦ rw (e, put_link) h
  | inr (id, e) ↦
      rw (e, put_link)
        (record {
          nodes_keyed = h.nodes_keyed;
          registry_keyed = h.registry_keyed;
          embeddings_keyed = h.embeddings_keyed;
          slugs_apart = h.slugs_apart;
          registered = h.registered;
          embedded = h.embedded;
        })
]

put_embedding-IsSound :
    (pack : List ℕ → String) (node_id : String) (vector : List ℕ) (model : Option String)
    (db : SqliteBackend)
    → IsSound db
    → IsSound (put_embedding pack node_id vector model db).1
unfolding put_embedding
put_embedding-IsSound pack node_id [] model db h = h
put_embedding-IsSound pack node_id (x ∷ xs) model db h =
    elim (Option-cases (Dict.get db.nodes node_id)) [
      | inl e ↦ rw (e, put_embedding) h
      | inr (row, e) ↦
          let entry : ℕ × Option String × String = (length (x ∷ xs), model, pack (x ∷ xs)) in
          rw (e, put_embedding)
            (record {
              nodes_keyed = h.nodes_keyed;
              registry_keyed = h.registry_keyed;
              embeddings_keyed = is_keyed-put db.embeddings node_id entry h.embeddings_keyed;
              slugs_apart = h.slugs_apart;
              registered = h.registered;
              embedded = λ id f. ground (
                arith,
                e,
                f,
                eq_iff node_id id,
                get-put db.embeddings node_id entry id,
                h.embedded id,
              );
            })
    ]

pub put_node-IsSound :
    (now : ℕ) (node : WikiNode) (db : SqliteBackend) → IsSound db → IsSound (put_node now node db).1
put_node-IsSound now node db h = elim (Bool-cases (slug_taken node.id node.slug db.nodes)) [
  | inl e ↦ rw (((put_node_lem now node db).0 e).1) h
  | inr e ↦ rw (put_node-free now node db e) (put_tables-IsSound now node db e h)
]

Step-IsSound : {a b : SqliteBackend} → Step a b → IsSound a → IsSound b
Step-IsSound {a = db} (puts now node) h = put_node-IsSound now node db h
Step-IsSound {a = db} (registers slug node_id kind) h = register_slug-IsSound slug node_id kind db h
Step-IsSound {a = db} (deletes ref) h = delete_node-IsSound ref db h
Step-IsSound {a = db} (links_to l) h = put_link-IsSound l db h
Step-IsSound {a = db} (embeds pack node_id vector model) h =
    put_embedding-IsSound pack node_id vector model db h

Steps-kept : {a b : SqliteBackend} → Steps a b → IsSound a → IsSound b
Steps-kept (done db) h = h
Steps-kept (step s rest) h = Steps-kept rest (Step-IsSound s h)

pub empty-IsSound : IsSound empty
unfolding is_keyed Dict.get
empty-IsSound = ground arith

-- After any calls on an empty index, failed ones among them: no two nodes have one slug, and a slug
-- that resolves and a node with an embedding have a row.
pub Steps-IsSound : {db : SqliteBackend} → Steps empty db → IsSound db
Steps-IsSound s = Steps-kept s empty-IsSound
