-- ===== src/Ingest/Filters/Last.antt =====
-- memu/ingest/filters.py: which rule of the `.gitignore` files decides.
use fumemory.Base.{
  String, ◌≡◌, refl, sym, ap, ◌∙◌, Bool, false, not, none, some, List, [], ◌∷◌, ◌++◌, if◌then◌else◌,
  Bool-cases, Option-cases, inl, inr,
}
use fumemory.Base.Lists.{foldl}
use fumemory.Rlm.Fusion.{sort_by}
use fumemory.Ingest.Filters.{
  Walker, IgnoreRule, relative_to, rule_matches, apply_rules, apply_scope, gitignore_matches,
  shallower,
}

-- The last of some verdicts.
unfoldable pub last_or : Bool → List Bool → Bool
last_or b [] = b
last_or b (c ∷ cs) = last_or c cs

last_or-append : (b : Bool) (xs ys : List Bool) → last_or b (xs ++ ys) ≡ last_or (last_or b xs) ys
unfolding last_or
last_or-append b [] ys = refl
last_or-append b (x ∷ xs) ys = last_or-append x xs ys

module _ (fnmatch : String → String → Bool) (is_dir : Bool) (rel : List String) where
  -- The rules of a directory that match a path from there: ignored, or not.
  unfoldable pub rule_verdicts : List String → List IgnoreRule → List Bool
  rule_verdicts scope_rel [] = []
  rule_verdicts scope_rel (rule ∷ rules) =
      let rest = rule_verdicts scope_rel rules in
      if rule_matches fnmatch is_dir scope_rel rule then not rule.negated ∷ rest else rest

  -- The same of all directories that the path is in.
  unfoldable pub verdicts : List (List String × List IgnoreRule) → List Bool
  unfolding rule_verdicts
  verdicts [] = []
  verdicts ((scope, rules) ∷ scopes) =
      let rest = verdicts scopes in
      elim (relative_to scope rel) [
        | none ↦ rest
        | some scope_rel ↦ rule_verdicts scope_rel rules ++ rest
      ]

  apply_rules-last :
      (scope_rel : List String) (rules : List IgnoreRule) (b : Bool)
      → apply_rules fnmatch is_dir scope_rel rules b ≡ last_or b (rule_verdicts scope_rel rules)
  unfolding apply_rules rule_verdicts last_or
  apply_rules-last scope_rel [] b = refl
  apply_rules-last scope_rel (rule ∷ rules) b =
      elim (Bool-cases (rule_matches fnmatch is_dir scope_rel rule)) [
        | inl e ↦ rw (e, rule_verdicts) (apply_rules-last scope_rel rules (not rule.negated))
        | inr e ↦ rw (e, rule_verdicts) (apply_rules-last scope_rel rules b)
      ]

  scopes-last :
      (scopes : List (List String × List IgnoreRule)) (b : Bool)
      → foldl (apply_scope fnmatch is_dir rel) b scopes ≡ last_or b (verdicts scopes)
  unfolding foldl apply_scope verdicts last_or
  scopes-last [] b = refl
  scopes-last ((scope, rules) ∷ scopes) b = elim (Option-cases (relative_to scope rel)) [
    | inl e ↦ rw (e, verdicts, apply_scope) (scopes-last scopes b)
    | inr (scope_rel, e) ↦
        rw (e, verdicts, apply_scope)
          (scopes-last scopes (apply_rules fnmatch is_dir scope_rel rules b)
            ∙ ap (λ c. last_or c (verdicts scopes)) (apply_rules-last scope_rel rules b)
            ∙ sym (last_or-append b (rule_verdicts scope_rel rules) (verdicts scopes)))
  ]

  -- A path is ignored when the last rule that matches it, in the files from the root down and in each
  -- from the top, is not negated; a path that no rule matches is not ignored.
  gitignore_matches_lem :
      (w : Walker)
      → gitignore_matches fnmatch is_dir rel w
        ≡ last_or false (verdicts (sort_by shallower w.gitignores))
  unfolding gitignore_matches
  gitignore_matches_lem w = scopes-last (sort_by shallower w.gitignores) false
