-- ===== src/Storage/Markdown/Links.antt =====
-- memu/storage/markdown_backend.py: what `put_link` does to the vault.
use fumemory.Base.{
  ℕ, String, str_eq, eq_iff, eq_refl, ◌≡◌, refl, sym, ap, ◌∙◌, subst, Bool, true, none, some, [],
  ◌∷◌, Result, ok, err, arith, Bool-cases, inl, inr,
}
use fumemory.Storage.Node.{WikiNode, LinkRecord, content_hash}
use fumemory.Storage.Markdown.{
  KindError, answered, Vault, find_by, find_by_slug, get_node, write, put_node, put_link,
  reinforce_node, with_link, bump,
}

find_by-passes :
    (p : WikiNode → Bool) (v : Vault) (n : WikiNode) → find_by p v ≡ some n → p n ≡ true
unfolding find_by
find_by-passes p [] n e = absurd (ground (arith, e))
find_by-passes p ((path, none) ∷ v) n e = find_by-passes p v n e
find_by-passes p ((path, some m) ∷ v) n e = elim (Bool-cases (p m)) [
  | inl same ↦ let own : m ≡ n = ground (arith, e, same) in subst (λ x. p x ≡ true) own same
  | inr other ↦ find_by-passes p v n (ground (arith, e, other))
]

get_node-by_slug :
    (slug : String) (v : Vault) (n : WikiNode)
    → find_by_slug slug v ≡ some n
    → get_node slug v ≡ some n
unfolding get_node
get_node-by_slug slug v n e = rw (e, get_node) refl

answered-vault :
    {A : Type 0} (f : WikiNode → A) (r : Result KindError WikiNode × Vault) → (answered f r).1 ≡ r.1
answered-vault f (ok n, v) = refl
answered-vault f (err e, v) = refl

module _ (lower digest stem : String → String) where
  -- A node with the links changed is the same node to put_node, which keeps the links of the file.
  put_node-links :
      (now : ℕ) (link : LinkRecord) (src : WikiNode) (v : Vault)
      → find_by_slug src.slug v ≡ some src
      → put_node lower digest stem now none (with_link link src) v ≡ write stem (bump now src) v
  unfolding put_node content_hash
  put_node-links now link src v e = rw (e, put_node, eq_refl (content_hash lower digest src)) refl

  -- For a slug that a file has, put_link leaves the vault that reinforce_node leaves: the counter of
  -- the node goes up, and the link is not stored, whatever it is.
  pub put_link_lem :
      (now : ℕ) (link : LinkRecord) (src : WikiNode) (v : Vault)
      → find_by_slug link.src_slug v ≡ some src
      → (put_link lower digest stem now link v).1 ≡ (reinforce_node stem now link.src_slug v).1
  unfolding put_link reinforce_node find_by_slug
  put_link_lem now link src v e =
      let same : src.slug ≡ link.src_slug =
        (eq_iff src.slug link.src_slug).0
          (find_by-passes (λ n. str_eq n.slug link.src_slug) v src e) in
      let found : find_by_slug src.slug v ≡ some src = ap (λ s. find_by_slug s v) same ∙ e in
      rw
        (
          get_node-by_slug link.src_slug v src e,
          put_link,
          reinforce_node,
          put_node-links now link src v found,
        )
        (answered-vault (λ n. tt) (write stem (bump now src) v)
          ∙ sym (answered-vault (λ m. some m) (write stem (bump now src) v)))
