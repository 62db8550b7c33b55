-- ===== src/Rlm/Orchestrator/Cites.antt =====
-- memu/rlm/orchestrator.py: the slugs that a result cites.
use fumemory.Base.{
  ℕ, zero, suc, ◌+◌, ◌/◌, leb, ltb, String, str_eq, eq_iff, true, ◌&&◌, ◌||◌, ◌≡◌, refl, ◌∙◌,
  Option, none, some, List, [], ◌∷◌, ◌++◌, arith, inl, inr, Bool-cases, subst,
}
use fumemory.Base.Lists.{
  All, IfSome, All-append, contains, contains-append, is_unique, is_unique-append,
}
use fumemory.Rlm.Orchestrator.{
  WikiNode, RlmContext, RlmResult, slugs_of, from_keys, all_slugs, concat_aggregate, as_result,
  cost_of, solve_query, or_task, solve_queries, leaf, solve,
}

from_keys_unique :
    (seen ss : List String) → is_unique seen ≡ true → is_unique (from_keys seen ss) ≡ true
unfolding from_keys
from_keys_unique seen [] h = h
from_keys_unique seen (s ∷ ss) h = elim (Bool-cases (contains s seen)) [
  | inl e ↦ rw (e, from_keys) (from_keys_unique seen ss h)
  | inr e ↦ rw (e, from_keys) (from_keys_unique (seen ++ s ∷ []) ss (is_unique-append seen s e ∙ h))
]

contains-from_keys :
    (t : String) (seen ss : List String)
    → contains t (from_keys seen ss) ≡ (contains t seen || contains t ss)
unfolding from_keys contains
contains-from_keys t seen [] = ground arith
contains-from_keys t seen (s ∷ ss) = elim (Bool-cases (contains s seen)) [
  | inl e ↦
      let same : str_eq s t ≡ true → contains t seen ≡ true =
        λ k. subst (λ u. contains u seen ≡ true) ((eq_iff s t).0 k) e in
      rw (e, from_keys) (ground (arith, same, contains-from_keys t seen ss))
  | inr e ↦
      rw (e, from_keys)
        (ground (arith, contains-append t seen s, contains-from_keys t (seen ++ s ∷ []) ss))
]

-- The default aggregator cites the slugs that the parts cite, and each once.
pub concat_aggregate_lem :
    (task : String) (parts : List RlmResult) (s : String)
    → (contains s (slugs_of (concat_aggregate task parts)) ≡ contains s (all_slugs parts))
      × (is_unique (slugs_of (concat_aggregate task parts)) ≡ true)
unfolding concat_aggregate contains is_unique
concat_aggregate_lem task parts s =
    (contains-from_keys s [] (all_slugs parts), from_keys_unique [] (all_slugs parts) refl)

module _ {ℓ} (P : String → Type ℓ) where
  abbrev Cites : RlmResult → Type ℓ
  Cites r = All P (slugs_of r)

  abbrev Slugs : List WikiNode → Type ℓ
  Slugs = All (λ (n : WikiNode). P n.slug)

  as_result-Cites :
      (task : String) (nodes : List WikiNode) (depth : ℕ)
      → Slugs nodes
      → Cites (as_result task nodes depth)
  unfolding as_result
  as_result-Cites task [] depth h = tt
  as_result-Cites task (n ∷ ns) depth h = (h.0, as_result-Cites task ns depth h.1)

  solve_query-Cites :
      (ctx : RlmContext) (depth budget : ℕ) (child : String → Option RlmResult) (q : String)
      (nodes : List WikiNode)
      → Slugs nodes
      → IfSome Cites (child q)
      → IfSome Cites (solve_query ctx depth budget child q nodes)
  unfolding solve_query
  solve_query-Cites ctx depth budget child q [] h k = tt
  solve_query-Cites ctx depth budget child q (n ∷ ns) h k =
      elim (Bool-cases (ltb budget (cost_of ctx (n ∷ ns)) && ltb (depth + 1) ctx.max_depth)) [
        | inl e ↦ rw (e, solve_query) k
        | inr e ↦ rw (e, solve_query) (as_result-Cites q (n ∷ ns) (depth + 1) h)
      ]

  both-Cites :
      (o : Option RlmResult) (rest : Option (List RlmResult))
      → IfSome Cites o
      → IfSome (All Cites) rest
      → IfSome (All Cites) (elim o [
        | none ↦ none
        | some part ↦ elim rest [ none ↦ none | some parts ↦ some (part ∷ parts) ]
      ])
  both-Cites none rest h k = tt
  both-Cites (some part) none h k = tt
  both-Cites (some part) (some parts) h k = (h, k)

  module _ (ctx : RlmContext) (retrieve : String → ℕ → List WikiNode)
      (each : (q : String) → Slugs (retrieve q ctx.k)) where
    solve_queries-Cites :
        (depth budget : ℕ) (child : String → Option RlmResult) (qs : List String)
        → ((q : String) → IfSome Cites (child q))
        → IfSome (All Cites) (solve_queries ctx retrieve depth budget child qs)
    unfolding solve_queries
    solve_queries-Cites depth budget child [] h = tt
    solve_queries-Cites depth budget child (q ∷ qs) h =
        both-Cites (solve_query ctx depth budget child q (retrieve q ctx.k))
          (solve_queries ctx retrieve depth budget child qs)
          (solve_query-Cites ctx depth budget child q (retrieve q ctx.k) (each q) (h q))
          (solve_queries-Cites depth budget child qs h)

    module _ (decompose : String → ℕ → List String)
        (aggregate : String → List RlmResult → RlmResult)
        (keeps : (task : String) (parts : List RlmResult)
          → All Cites parts
          → Cites (aggregate task parts)) where
      aggregate-Cites :
          (task : String) (o : Option (List RlmResult))
          → IfSome (All Cites) o
          → IfSome Cites (elim o [ none ↦ none | some parts ↦ some (aggregate task parts) ])
      aggregate-Cites task none h = tt
      aggregate-Cites task (some parts) h = keeps task parts h

      solve-Cites :
          (fuel depth budget : ℕ) (task : String)
          → IfSome Cites (solve ctx retrieve decompose aggregate fuel depth budget task)
      unfolding solve leaf
      solve-Cites zero depth budget task = tt
      solve-Cites (suc fuel) depth budget task = elim (Bool-cases (leb ctx.max_depth depth)) [
        | inl e ↦
            rw (e, solve) (as_result-Cites task (retrieve task ctx.k) ctx.max_depth (each task))
        | inr e ↦
            let child = solve ctx retrieve decompose aggregate fuel (depth + 1) (budget / 2) in
            let qs = or_task (decompose task ctx.k) task in
            rw (e, solve)
              (aggregate-Cites task (solve_queries ctx retrieve depth budget child qs) (
                solve_queries-Cites depth budget child qs
                  (λ q. solve-Cites fuel (depth + 1) (budget / 2) q)))
      ]

  all_slugs-Cites : (parts : List RlmResult) → All Cites parts → All P (all_slugs parts)
  unfolding all_slugs
  all_slugs-Cites [] h = tt
  all_slugs-Cites (p ∷ ps) h = both (slugs_of p) (all_slugs ps) h.0 (all_slugs-Cites ps h.1)
    where
      both : (xs ys : List String) → All P xs → All P ys → All P (xs ++ ys)
      both [] ys h k = k
      both (x ∷ xs) ys h k = (h.0, both xs ys h.1 k)

  from_keys-Cites : (seen ss : List String) → All P seen → All P ss → All P (from_keys seen ss)
  unfolding from_keys
  from_keys-Cites seen [] h k = h
  from_keys-Cites seen (s ∷ ss) h k = elim (Bool-cases (contains s seen)) [
    | inl e ↦ rw (e, from_keys) (from_keys-Cites seen ss h k.1)
    | inr e ↦
        rw (e, from_keys) (from_keys-Cites (seen ++ s ∷ []) ss (All-append P s seen h k.0) k.1)
  ]

-- With the default aggregator, `solve` cites only slugs of nodes that the retriever answered: what
-- holds of every slug that it answers to a query with `ctx.k`, holds of every slug of a result.
solve_cites :
    (P : String → Type 0) (ctx : RlmContext) (retrieve : String → ℕ → List WikiNode)
    (decompose : String → ℕ → List String) (fuel depth budget : ℕ) (task : String) (r : RlmResult)
    → ((q : String) → All (λ (n : WikiNode). P n.slug) (retrieve q ctx.k))
    → solve ctx retrieve decompose concat_aggregate fuel depth budget task ≡ some r
    → All P (slugs_of r)
unfolding concat_aggregate
solve_cites P ctx retrieve decompose fuel depth budget task r each h = subst (IfSome (Cites P)) h (
    solve-Cites P ctx retrieve each decompose concat_aggregate
      (λ task parts k. from_keys-Cites P [] (all_slugs parts) tt (all_slugs-Cites P parts k)) fuel
      depth budget task)
