-- ===== src/Rlm/Tests.antt =====
-- memu/rlm on small inputs.
use fumemory.Base.{
  ltb, map, arith, ℕ, ◌+◌, suc, ◌-◌, String, ◌≡◌, refl, true, false, Option, none, some, List, [],
  ◌∷◌, str_eq, if◌then◌else◌,
}
use fumemory.Base.Lists.{take, All, contains, is_unique}
use fumemory.Rlm.Fusion.{
  SearchHit, rrf_fuse, sort_by, fuse_lists, fuse_list, insert_by, ranks_before, fused_with, to_hit,
}
use fumemory.Base.Dict
use fumemory.Rlm.Fusion.Sorted.{IsOrder}
use fumemory.Rlm.Fusion.Answers.{IsRanking, rrf_fuse_lem}
use fumemory.Rlm.Orchestrator.{
  WikiNode, RlmContext, RlmResult, slugs_of, all_slugs, concat_aggregate, solve, solve_queries,
  solve_query, cost_of, as_result, from_keys,
}
use fumemory.Rlm.Orchestrator.Terminates.{solve_ends}
use fumemory.Rlm.Orchestrator.Cites.{concat_aggregate_lem}

-- Every node costs 5, and the context allows two levels.
abbrev small : RlmContext
small = record { max_depth = 2; k = 3; token_budget = 4; token_counter = λ s. 5 }

abbrev signals : WikiNode
signals = record { slug = "signals"; title = "Signals"; body = "on" }

abbrev locks : WikiNode
locks = record { slug = "locks"; title = "Locks"; body = "off" }

abbrev answers : String → ℕ → List WikiNode
answers query k = if str_eq query "lost" then [] else signals ∷ locks ∷ []

abbrev halves : String → ℕ → List String
halves task k = if str_eq task "all" then "first" ∷ "lost" ∷ [] else []

abbrev found : Option RlmResult
found = solve small answers halves concat_aggregate 3 0 4 "all"

abbrev slugs_found : Option RlmResult → List String
slugs_found none = []
slugs_found (some r) = slugs_of r

found_slugs : slugs_found found ≡ "signals" ∷ "locks" ∷ []
unfolding solve solve_queries solve_query cost_of concat_aggregate from_keys all_slugs as_result
    contains
found_slugs = refl

solve_ends_example :
    (r : RlmResult) × ((more : ℕ)
      → solve small answers halves concat_aggregate (suc (2 - 0) + more) 0 4 "all" ≡ some r)
solve_ends_example = solve_ends small answers halves concat_aggregate 0 4 "all"

abbrev part : RlmResult
part = as_result "first" (signals ∷ locks ∷ []) 1

concat_aggregate_lem_example :
    (contains "locks" (slugs_of (concat_aggregate "all" (part ∷ part ∷ [])))
      ≡ contains "locks" (all_slugs (part ∷ part ∷ [])))
    × (is_unique (slugs_of (concat_aggregate "all" (part ∷ part ∷ []))) ≡ true)
concat_aggregate_lem_example = concat_aggregate_lem "all" (part ∷ part ∷ []) "locks"

abbrev Here : String → Type 0
Here s = contains s ("signals" ∷ "locks" ∷ []) ≡ true

here : (q : String) → All (λ (n : WikiNode). Here n.slug) (answers q 3)
unfolding contains
here q =
    elim (str_eq q "lost")
      as (λ b. All (λ (n : WikiNode). Here n.slug) (if b then [] else signals ∷ locks ∷ [])) [
        | true ↦ tt
        | false ↦ (refl, (refl, tt))
      ]

abbrev value : Option RlmResult → RlmResult
value none = part
value (some r) = r

abbrev hit_of : String → ℕ → SearchHit ℕ
hit_of slug n = record { id = ""; slug = slug; score = n; reason = "fts" }

-- Ranks count from 10 down.
abbrev fall : ℕ → ℕ
fall rank = 10 - rank

abbrev sum : ℕ → ℕ → ℕ
sum a b = a + b

abbrev answers_of : List (List (SearchHit ℕ))
answers_of = (hit_of "a" 1 ∷ hit_of "b" 2 ∷ []) ∷ (hit_of "b" 3 ∷ []) ∷ []

abbrev slug_of_hit : SearchHit ℕ → String
slug_of_hit h = h.slug

ranked : map slug_of_hit (rrf_fuse 0 sum fall ltb 5 answers_of) ≡ "b" ∷ "a" ∷ []
unfolding rrf_fuse take sort_by fuse_lists fuse_list Dict.put insert_by ranks_before fused_with
    Dict.get to_hit
ranked = refl

ltb-IsOrder : IsOrder ltb
ltb-IsOrder = record {
  asymmetric = λ x y h. ground (arith, h);
  coarse = λ x y z h k. ground (arith, h, k);
}

rrf_fuse_lem_example : IsRanking ltb 1 answers_of (rrf_fuse 0 sum fall ltb 1 answers_of)
rrf_fuse_lem_example = rrf_fuse_lem 0 sum fall ltb 1 answers_of ltb-IsOrder
