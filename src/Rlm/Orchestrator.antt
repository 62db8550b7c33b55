-- ===== src/Rlm/Orchestrator.antt =====
-- memu/rlm/orchestrator.py: `Orchestrator` and its default callables. The decomposer, the aggregator,
-- the retriever and the token counter are functions; of a node, the fields that are read stand here.
pub mod Terminates
pub mod Cites
use fumemory.Base.{
  ℕ, zero, suc, ◌+◌, ◌/◌, leb, ltb, String, ◌<>◌, str_eq, Bool, true, false, ◌&&◌, not, Option,
  none, some, List, [], ◌∷◌, ◌++◌, map, if◌then◌else◌,
}
use fumemory.Base.Lists.{contains, filter}

pub record WikiNode : Type 0 where
  pub slug : String
  pub title : String
  pub body : String

pub record RlmContext : Type 0 where
  pub max_depth : ℕ
  pub k : ℕ
  pub token_budget : ℕ
  pub token_counter : String → ℕ

mutual
  pub data RlmResult : Type 0 where
    result :
        (task answer : String)
        → (slugs : List String) → (depth : ℕ) → (children : Parts) → RlmResult

  pub data Parts : Type 0 where
    no_parts : Parts
    part_then : RlmResult → Parts → Parts

abbrev pub answer_of : RlmResult → String
answer_of (result task answer slugs depth children) = answer

abbrev pub slugs_of : RlmResult → List String
slugs_of (result task answer slugs depth children) = slugs

-- `separator.join(pieces)`
unfoldable pub join : String → List String → String
join separator [] = ""
join separator (s ∷ []) = s
join separator (s ∷ t ∷ ss) = s <> (separator <> join separator (t ∷ ss))

-- `list(dict.fromkeys(slugs))`, after the keys that are there.
unfoldable pub from_keys : List String → List String → List String
from_keys seen [] = seen
from_keys seen (s ∷ ss) = from_keys (if contains s seen then seen else seen ++ s ∷ []) ss

unfoldable pub parts_of : List RlmResult → Parts
parts_of [] = no_parts
parts_of (p ∷ ps) = part_then p (parts_of ps)

unfoldable pub all_slugs : List RlmResult → List String
all_slugs [] = []
all_slugs (p ∷ ps) = slugs_of p ++ all_slugs ps

-- `_noop_decompose`
abbrev pub noop_decompose : String → ℕ → List String
noop_decompose task fanout = task ∷ []

-- `_concat_aggregate`: the depth keeps its default.
unfoldable pub concat_aggregate : String → List RlmResult → RlmResult
concat_aggregate task parts =
    result task (join "\n\n" (filter (λ s. not (str_eq s "")) (map answer_of parts)))
      (from_keys [] (all_slugs parts)) 0 (parts_of parts)

-- `_as_result`
unfoldable pub as_result : String → List WikiNode → ℕ → RlmResult
as_result task nodes depth =
    result task
      (join "\n" (map (λ (n : WikiNode). "- [[" <> (n.slug <> ("]] — " <> n.title))) nodes))
      (map (λ (n : WikiNode). n.slug) nodes) depth no_parts

unfoldable pub cost_of : RlmContext → List WikiNode → ℕ
cost_of ctx [] = 0
cost_of ctx (n ∷ ns) = ctx.token_counter n.body + cost_of ctx ns

-- What the loop of `solve` does for one query: it adds a part, or solves the query one level deeper.
unfoldable pub solve_query :
    RlmContext → ℕ → ℕ → (String → Option RlmResult) → String → List WikiNode → Option RlmResult
solve_query ctx depth budget child q [] = some (result q "" [] (depth + 1) no_parts)
solve_query ctx depth budget child q (n ∷ ns) =
    if ltb budget (cost_of ctx (n ∷ ns)) && ltb (depth + 1) ctx.max_depth
    then child q
    else some (as_result q (n ∷ ns) (depth + 1))

-- `if not sub_queries: sub_queries = [task]`
abbrev pub or_task : List String → String → List String
or_task [] task = task ∷ []
or_task (q ∷ qs) task = q ∷ qs

module _ (ctx : RlmContext) (retrieve : String → ℕ → List WikiNode) where
  unfoldable pub solve_queries :
      ℕ → ℕ → (String → Option RlmResult) → List String → Option (List RlmResult)
  solve_queries depth budget child [] = some []
  solve_queries depth budget child (q ∷ qs) =
      let rest = solve_queries depth budget child qs in
      elim (solve_query ctx depth budget child q (retrieve q ctx.k)) [
        | none ↦ none
        | some part ↦ elim rest [ none ↦ none | some parts ↦ some (part ∷ parts) ]
      ]

  -- `_leaf`
  unfoldable pub leaf : String → RlmResult
  leaf task = as_result task (retrieve task ctx.k) ctx.max_depth

module _ (ctx : RlmContext) (retrieve : String → ℕ → List WikiNode)
    (decompose : String → ℕ → List String) (aggregate : String → List RlmResult → RlmResult) where
  -- `solve`, on fuel.
  unfoldable pub solve : ℕ → ℕ → ℕ → String → Option RlmResult
  solve zero depth budget task = none
  solve (suc fuel) depth budget task =
      let child = solve fuel (depth + 1) (budget / 2) in
      if leb ctx.max_depth depth
      then some (leaf ctx retrieve task)
      else elim (solve_queries ctx retrieve depth budget child
          (or_task (decompose task ctx.k) task)) [
            | none ↦ none
            | some parts ↦ some (aggregate task parts)
          ]
