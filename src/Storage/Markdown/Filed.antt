-- ===== src/Storage/Markdown/Filed.antt =====
-- memu/storage/markdown_backend.py: where the files of the nodes stand.
use fumemory.Base.{
  ℕ, String, str_eq, ◌≡◌, true, false, ◌||◌, Option, none, some, Result, ok, err, Bool-cases,
  Option-cases, Result-cases, inl, inr,
}
use fumemory.Base.Dict.{All-put}
use fumemory.Base.Dict.Keys.{All-remove}
use fumemory.Base.Lists.{All}
use fumemory.Storage.Node.{WikiNode, LinkRecord, content_hash}
use fumemory.Storage.Markdown.{
  KindError, answered, Vault, path_for, read_back, find_by_slug, get_node, write, put_node,
  put_link, reinforce_node, delete_node, with_link, reinforced, dated, bump,
}

-- A file that is read as a node stands at the path of the node's kind and slug.
abbrev pub Filed : String × Option WikiNode → Type 0
Filed (path, none) = Unit
Filed (path, some n) = path_for n.kind n.slug ≡ ok path

abbrev pub IsFiled : Vault → Type 0
IsFiled v = All Filed v

read_back-Filed :
    (stem : String → String) (path : String) (n : WikiNode)
    → path_for n.kind n.slug ≡ ok path
    → Filed (path, read_back stem path n)
unfolding read_back
read_back-Filed stem path n h = elim (Bool-cases (str_eq n.id "" || str_eq n.slug "")) [
  | inl e ↦ rw (e, read_back) tt
  | inr e ↦ rw (e, read_back) h
]

write-IsFiled :
    (stem : String → String) (n : WikiNode) (v : Vault) → IsFiled v → IsFiled (write stem n v).1
unfolding write
write-IsFiled stem n v h = elim (Result-cases (path_for n.kind n.slug)) [
  | inl (path, e) ↦
      rw (e, write) (All-put Filed v path (read_back stem path n) h (read_back-Filed stem path n e))
  | inr (x, e) ↦ rw (e, write) h
]

answered-IsFiled :
    {A : Type 0} (f : WikiNode → A) (r : Result KindError WikiNode × Vault)
    → IsFiled r.1
    → IsFiled (answered f r).1
answered-IsFiled f (ok n, v) h = h
answered-IsFiled f (err e, v) h = h

delete_node-IsFiled : (ref : String) (v : Vault) → IsFiled v → IsFiled (delete_node ref v).1
unfolding delete_node
delete_node-IsFiled ref v h = elim (Option-cases (get_node ref v)) [
  | inl e ↦ rw (e, delete_node) h
  | inr (n, e) ↦ elim (Result-cases (path_for n.kind n.slug)) [
    | inl (path, f) ↦ rw (e, delete_node, f) (All-remove Filed v path h)
    | inr (x, f) ↦ rw (e, delete_node, f) h
  ]
]

reinforce_node-IsFiled :
    (stem : String → String) (now : ℕ) (ref : String) (v : Vault)
    → IsFiled v
    → IsFiled (reinforce_node stem now ref v).1
unfolding reinforce_node
reinforce_node-IsFiled stem now ref v h = elim (Option-cases (get_node ref v)) [
  | inl e ↦ rw (e, reinforce_node) h
  | inr (n, e) ↦
      rw (e, reinforce_node)
        (answered-IsFiled (λ m. some m) (write stem (bump now n) v)
          (write-IsFiled stem (bump now n) v h))
]

module _ (lower digest stem : String → String) where
  put_node-IsFiled :
      (now : ℕ) (token : Option ℕ) (node : WikiNode) (v : Vault)
      → IsFiled v
      → IsFiled (put_node lower digest stem now token node v).1
  unfolding put_node
  put_node-IsFiled now token node v h = elim (Option-cases (find_by_slug node.slug v)) [
    | inl e ↦ rw (e, put_node) (write-IsFiled stem (dated now false node) v h)
    | inr (old, e) ↦
        elim (Bool-cases
          (str_eq (content_hash lower digest old) (content_hash lower digest node))) [
            | inl same ↦ rw (e, put_node, same) (write-IsFiled stem (reinforced now node old) v h)
            | inr other ↦ rw (e, put_node, other) (write-IsFiled stem (dated now true node) v h)
          ]
  ]

  put_link-IsFiled :
      (now : ℕ) (link : LinkRecord) (v : Vault)
      → IsFiled v
      → IsFiled (put_link lower digest stem now link v).1
  unfolding put_link
  put_link-IsFiled now link v h = elim (Option-cases (get_node link.src_slug v)) [
    | inl e ↦ rw (e, put_link) h
    | inr (src, e) ↦
        rw (e, put_link)
          (answered-IsFiled (λ n. tt) (put_node lower digest stem now none (with_link link src) v)
            (put_node-IsFiled now none (with_link link src) v h))
  ]

  -- The calls that change the vault.
  pub data Step (v : Vault) : Vault → Type 0 where
    puts :
        (now : ℕ) (token : Option ℕ) (node : WikiNode)
        → Step v (put_node lower digest stem now token node v).1
    links_to : (now : ℕ) (link : LinkRecord) → Step v (put_link lower digest stem now link v).1
    reinforces : (now : ℕ) (ref : String) → Step v (reinforce_node stem now ref v).1
    deletes : (ref : String) → Step v (delete_node ref v).1

  pub data Steps : Vault → Vault → Type 0 where
    done : (v : Vault) → Steps v v
    step : {a b c : Vault} → Step a b → Steps b c → Steps a c

  Step-IsFiled : {a b : Vault} → Step a b → IsFiled a → IsFiled b
  Step-IsFiled {a = v} (puts now token node) h = put_node-IsFiled now token node v h
  Step-IsFiled {a = v} (links_to now link) h = put_link-IsFiled now link v h
  Step-IsFiled {a = v} (reinforces now ref) h = reinforce_node-IsFiled stem now ref v h
  Step-IsFiled {a = v} (deletes ref) h = delete_node-IsFiled ref v h

  -- Through any calls, failed ones among them: a file that is read as a node stands at the path of its
  -- kind and slug, when that was so before.
  Steps-IsFiled : {a b : Vault} → Steps a b → IsFiled a → IsFiled b
  Steps-IsFiled (done v) h = h
  Steps-IsFiled (step s rest) h = Steps-IsFiled rest (Step-IsFiled s h)
