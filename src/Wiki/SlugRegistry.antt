-- ===== src/Wiki/SlugRegistry.antt =====
-- memu/wiki/slug_registry.py: slugs that resolve, over the SQLite store.
use fumemory.Base.{
  ℕ, String, ◌<>◌, str_eq, eq_refl, ◌≡◌, ◌↔◌, refl, false, ◌||◌, Option, none, some, [],
  if◌then◌else◌, Result, ok, err, arith, Bool-cases, Option-cases, inl, inr,
}
use fumemory.CoreMemory.Texts.{starts_with}
use fumemory.Storage.Node.{WikiNode}
use fumemory.Storage.Sqlite.{SqliteBackend, StorageError, slug_taken, put_node, resolve_slug}
use fumemory.Storage.Sqlite.Refines.{put_node-free, put_node-taken, put_tables-resolve}

unfoldable pub infer_kind : String → String → String
infer_kind slug default =
    if starts_with "paper/" slug
    then "paper"
    else if starts_with "code/" slug
    then "code"
    else if starts_with "task/" slug || starts_with "tasks/" slug
    then "task"
    else default

-- `title or slug`
abbrev title_of : Option String → String → String
title_of none slug = slug
title_of (some title) slug = if str_eq title "" then slug else title

-- The placeholder; its confidence is 0, and its salience 0.1.
unfoldable pub stub : ℕ → String → String → String → Option String → String → WikiNode
unfolding infer_kind
stub now id slug kind title agent_id = record {
  id = id;
  slug = slug;
  kind = infer_kind slug kind;
  title = title_of title slug;
  body = "# " <> (title_of title slug <> "\n\n> Placeholder stub — materialized by memU.\n");
  links = [];
  details = record {
    tags = [];
    metadata = [];
    extra = [];
    source = none;
    happened_at = none;
    agent_id = agent_id;
    memory_type = "placeholder";
    salience = 100;
    confidence = 0;
  };
  created_at = some now;
  updated_at = none;
  reinforcement_count = 0;
  last_reinforced_at = none;
}

-- The id of the stub, when the store took it.
abbrev stored_id :
    Result StorageError WikiNode × SqliteBackend → Result StorageError String × SqliteBackend
stored_id (ok n, db) = (ok n.id, db)
stored_id (err e, db) = (err e, db)

-- `node_id` is a text that may be empty, which is no answer.
abbrev answer_of : Option String → Option String
answer_of none = none
answer_of (some id) = if str_eq id "" then none else some id

-- `resolve_or_stub`, with the id that a new stub gets.
unfoldable pub resolve_or_stub :
    ℕ
    → String
    → String
    → String
    → Option String
    → String
    → SqliteBackend
    → Result StorageError String × SqliteBackend
unfolding resolve_slug stub put_node
resolve_or_stub now fresh slug kind title agent_id db = elim (answer_of (resolve_slug slug db)) [
  | some id ↦ (ok id, db)
  | none ↦ stored_id (put_node now (stub now fresh slug kind title agent_id) db)
]

resolve_or_stub-known :
    (now : ℕ) (fresh slug kind : String) (title : Option String) (agent_id : String)
    (db : SqliteBackend) (id : String)
    → answer_of (resolve_slug slug db) ≡ some id
    → resolve_or_stub now fresh slug kind title agent_id db ≡ (ok id, db)
unfolding resolve_or_stub
resolve_or_stub-known now fresh slug kind title agent_id db id e = rw (e, resolve_or_stub) refl

answer_of-some :
    (o : Option String) (id : String)
    → (answer_of o ≡ some id) ↔ ((o ≡ some id) × (str_eq id "" ≡ false))
answer_of-some none id = (λ e. absurd (ground (arith, e)), λ h. absurd (ground (arith, h)))
answer_of-some (some j) id = (λ e. ground (arith, e), λ h. ground (arith, h))

-- What the slug resolves to and the store after a call that answered an id.
resolve_or_stub-after :
    (now : ℕ) (fresh slug kind : String) (title : Option String) (agent_id : String)
    (db : SqliteBackend) (id : String)
    → str_eq fresh "" ≡ false
    → (resolve_or_stub now fresh slug kind title agent_id db).0 ≡ ok id
    → (str_eq id "" ≡ false)
      × (resolve_slug slug (resolve_or_stub now fresh slug kind title agent_id db).1 ≡ some id)
unfolding resolve_or_stub stub
resolve_or_stub-after now fresh slug kind title agent_id db id f =
    let new = stub now fresh slug kind title agent_id in
    elim (Option-cases (answer_of (resolve_slug slug db))) [
      | inr (j, e) ↦
          let known = (answer_of-some (resolve_slug slug db) j).0 e in
          rw (resolve_or_stub-known now fresh slug kind title agent_id db j e)
            (λ h. ground (arith, h, known))
      | inl e ↦ elim (Bool-cases (slug_taken new.id new.slug db.nodes)) [
        | inl taken ↦
            rw (e, resolve_or_stub, put_node-taken now new db taken)
              (λ h. absurd (ground (arith, h)))
        | inr free ↦
            rw (e, resolve_or_stub, put_node-free now new db free)
              (λ h. ground (arith, h, f, eq_refl slug, put_tables-resolve now new db))
      ]
    ]

-- An id that resolve_or_stub answers is not empty and is what the slug resolves to from then on: a
-- second call, with other arguments, answers the same id and changes nothing.
pub resolve_or_stub_lem :
    (now later : ℕ) (fresh other slug kind kind2 : String) (title title2 : Option String)
    (agent_id agent2 : String) (db : SqliteBackend) (id : String)
    → str_eq fresh "" ≡ false
    → let (answer, after) = resolve_or_stub now fresh slug kind title agent_id db in
      answer ≡ ok id
      → (str_eq id "" ≡ false)
        × (resolve_slug slug after ≡ some id)
        × (resolve_or_stub later other slug kind2 title2 agent2 after ≡ (ok id, after))
resolve_or_stub_lem now later fresh other slug kind kind2 title title2 agent_id agent2 db id f e =
    let after = (resolve_or_stub now fresh slug kind title agent_id db).1 in
    let h = resolve_or_stub-after now fresh slug kind title agent_id db id f e in
    (
      h.0,
      h.1,
      resolve_or_stub-known later other slug kind2 title2 agent2 after id
          ((answer_of-some (resolve_slug slug after) id).1 (h.1, h.0)),
    )
