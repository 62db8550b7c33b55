-- ===== src/Rlm/Orchestrator/Terminates.antt =====
-- memu/rlm/orchestrator.py: `solve` ends.
use fumemory.Base.{
  ℕ, zero, suc, ◌+◌, ◌-◌, ◌/◌, ◌≤◌, leb, ltb, String, true, false, ◌&&◌, ◌≡◌, refl, Option, some,
  List, [], ◌∷◌, arith, inl, inr, Bool-cases,
}
use fumemory.Rlm.Orchestrator.{
  WikiNode, RlmContext, RlmResult, as_result, cost_of, solve_query, or_task, solve_queries, leaf,
  solve,
}

-- A computation on fuel gives one and the same result from some fuel on.
abbrev pub Ends : {A : Type 0} → ℕ → (ℕ → Option A) → Type 0
Ends {A = A} bound f = (a : A) × ((fuel : ℕ) → bound ≤ fuel → f fuel ≡ some a)

from_suc :
    {A : Type 0} (f : ℕ → Option A) (a : A) (bound : ℕ)
    → ((fuel : ℕ) → bound ≤ fuel → f (suc fuel) ≡ some a)
    → (fuel : ℕ) → suc bound ≤ fuel
    → f fuel ≡ some a
from_suc f a bound h zero le = absurd (omega arith)
from_suc f a bound h (suc fuel) le = h fuel (omega arith)

module _ (ctx : RlmContext) (retrieve : String → ℕ → List WikiNode)
    (decompose : String → ℕ → List String) (aggregate : String → List RlmResult → RlmResult) where
  solve_query-Ends :
      (bound depth budget : ℕ) (child : ℕ → String → Option RlmResult) (q : String)
      (nodes : List WikiNode)
      → ((ltb (depth + 1) ctx.max_depth ≡ true) → Ends bound (λ fuel. child fuel q))
      → Ends bound (λ fuel. solve_query ctx depth budget (child fuel) q nodes)
  unfolding solve_query
  solve_query-Ends bound depth budget child q [] h = (_, λ fuel le. refl)
  solve_query-Ends bound depth budget child q (n ∷ ns) h =
      elim (Bool-cases (ltb budget (cost_of ctx (n ∷ ns)) && ltb (depth + 1) ctx.max_depth)) [
        | inl e ↦
            let (a, is) = h (ground (arith, e)) in (a, λ fuel le. rw (e, solve_query) (is fuel le))
        | inr e ↦ (as_result q (n ∷ ns) (depth + 1), λ fuel le. rw (e, solve_query) refl)
      ]

  solve_queries-Ends :
      (bound depth budget : ℕ) (child : ℕ → String → Option RlmResult) (qs : List String)
      → ((q : String) → (ltb (depth + 1) ctx.max_depth ≡ true) → Ends bound (λ fuel. child fuel q))
      → Ends bound (λ fuel. solve_queries ctx retrieve depth budget (child fuel) qs)
  unfolding solve_queries
  solve_queries-Ends bound depth budget child [] h = ([], λ fuel le. refl)
  solve_queries-Ends bound depth budget child (q ∷ qs) h =
      let (part, is) = solve_query-Ends bound depth budget child q (retrieve q ctx.k) (h q) in
      let (parts, are) = solve_queries-Ends bound depth budget child qs h in
      (part ∷ parts, λ fuel le. rw (is fuel le, are fuel le, solve_queries) refl)

  solve-leaf :
      (bound depth budget : ℕ) (task : String)
      → leb ctx.max_depth depth ≡ true
      → Ends (suc bound) (λ fuel. solve ctx retrieve decompose aggregate fuel depth budget task)
  unfolding solve
  solve-leaf bound depth budget task e = (
    leaf ctx retrieve task,
    from_suc (λ fuel. solve ctx retrieve decompose aggregate fuel depth budget task)
        (leaf ctx retrieve task) bound (λ fuel le. rw (e, solve) refl),
  )

  solve-deeper :
      (bound depth budget : ℕ) (task : String)
      → leb ctx.max_depth depth ≡ false
      → ((q : String)
          → Ends bound
              (λ fuel. solve ctx retrieve decompose aggregate fuel (depth + 1) (budget / 2) q))
      → Ends (suc bound) (λ fuel. solve ctx retrieve decompose aggregate fuel depth budget task)
  unfolding solve
  solve-deeper bound depth budget task e h =
      let child : ℕ → String → Option RlmResult =
        λ fuel. solve ctx retrieve decompose aggregate fuel (depth + 1) (budget / 2) in
      let (parts, are) =
        solve_queries-Ends bound depth budget child (or_task (decompose task ctx.k) task)
          (λ q _. h q) in
      (
        aggregate task parts,
        from_suc (λ fuel. solve ctx retrieve decompose aggregate fuel depth budget task)
            (aggregate task parts) bound (λ fuel le. rw (e, are fuel le, solve) refl),
      )

  -- At every depth, `solve` returns a result, one and the same from `max_depth - depth + 1` levels of
  -- calls on, whatever the retriever, the decomposer and the aggregator answer.
  pub solve_lem :
      (levels depth budget : ℕ) (task : String)
      → ctx.max_depth ≤ depth + levels
      → Ends (suc levels) (λ fuel. solve ctx retrieve decompose aggregate fuel depth budget task)
  solve_lem zero depth budget task few = solve-leaf zero depth budget task (ground (arith, few))
  solve_lem (suc l) depth budget task few = elim (Bool-cases (leb ctx.max_depth depth)) [
    | inl e ↦ solve-leaf (suc l) depth budget task e
    | inr e ↦
        solve-deeper (suc l) depth budget task e
          (λ q. solve_lem l (depth + 1) (budget / 2) q (omega arith))
  ]

  -- At every depth, `solve` ends: there is a result that it gives on `max_depth - depth + 1` levels of
  -- calls, or on any more, whatever the retriever, the decomposer and the aggregator answer.
  pub solve_ends :
      (depth budget : ℕ) (task : String)
      → (r : RlmResult) × ((more : ℕ)
          → solve ctx retrieve decompose aggregate
              (suc (ctx.max_depth - depth) + more)
              depth
              budget
              task
            ≡ some r)
  solve_ends depth budget task =
      let (r, is) = solve_lem (ctx.max_depth - depth) depth budget task (omega arith) in
      (r, λ more. is (suc (ctx.max_depth - depth) + more) (omega arith))
