-- ===== src/Rlm/Fusion/Answers.antt =====
-- memu/rlm/retriever.py: what a fusion answers.
use fumemory.Base.{
  ℕ, zero, suc, ◌≤◌, String, eq_refl, ◌≡◌, refl, sym, ap, ◌∙◌, subst, Bool, true, false, List, [],
  ◌∷◌, map, arith,
}
use fumemory.Base.Lists.{All, contains, is_unique, take, length}
use fumemory.Rlm.Fusion.{
  SearchHit, Fused, sort_by, key_of, to_hit, ranks_before, fuse_lists, rrf_fuse,
}
use fumemory.Rlm.Fusion.Sorted.{
  IsOrder, IsSorted, All-sort, All-take, sort-IsSorted, take-IsSorted, ranks_before-IsOrder,
  hits-IsSorted,
}
use fumemory.Rlm.Fusion.Keys.{
  keys, among, is_unique-take, contains-sort, is_unique-sort, lists_keys, lists_unique, Own,
  lists-Own, hit_keys,
}

-- The hits are a ranking of what the lists have: no more than asked for, each node once, each of one of
-- the lists, and the scores never rise.
pub record IsRanking {Score : Type 0} (less : Score → Score → Bool) (k : ℕ)
    (lists : List (List (SearchHit Score))) (hits : List (SearchHit Score)) : Type 0 where
  pub few : length hits ≤ k
  pub once : is_unique (map key_of hits) ≡ true
  pub known : All (λ (j : String). among lists j ≡ true) (map key_of hits)
  pub sorted : IsSorted (λ (h g : SearchHit Score). less g.score h.score) hits

none_twice : is_unique [] ≡ true
unfolding is_unique
none_twice = refl

none_there : (j : String) → contains j [] ≡ false
unfolding contains
none_there j = refl

members :
    (P : String → Type 0) (ks : List String)
    → ((j : String) → contains j ks ≡ true → P j)
    → All P ks
unfolding contains
members P [] h = tt
members P (k ∷ ks) h =
    (h k (ground (arith, eq_refl k)), members P ks (λ j in_rest. h j (ground (arith, in_rest))))

length-hits : {A B : Type 0} (f : A → B) (n : ℕ) (xs : List A) → length (map f (take n xs)) ≤ n
unfolding length take
length-hits f zero xs = omega arith
length-hits f (suc n) [] = omega arith
length-hits f (suc n) (x ∷ xs) = ground (arith, length-hits f n xs)

module _ {Score : Type 0} (zero_score : Score) (add : Score → Score → Score) (share : ℕ → Score)
    (less : Score → Score → Bool) where
  -- When the scores are ordered, `_rrf_fuse` answers with a ranking of at most k of the nodes in the
  -- lists: no node twice, none that no list has, and the scores never rise.
  pub rrf_fuse_lem :
      (k : ℕ) (lists : List (List (SearchHit Score)))
      → IsOrder less
      → IsRanking less k lists (rrf_fuse zero_score add share less k lists)
  unfolding rrf_fuse
  rrf_fuse_lem k lists order =
      let d = fuse_lists zero_score add share lists [] in
      let sorted = sort_by (ranks_before less) d in
      let (once, absent) = is_unique-take k sorted (
        is_unique-sort (ranks_before less) d
          (lists_unique zero_score add share lists [] none_twice)) in
      let own = All-take (Own zero_score add share) k sorted (
        All-sort (ranks_before less) (Own zero_score add share) d
          (lists-Own zero_score add share lists [] tt)) in
      let same = hit_keys zero_score add share (take k sorted) own in
      record {
        few = length-hits (λ (e : String × Fused Score). to_hit e.1) k sorted;
        once = ap is_unique same ∙ once;
        known = subst (All (λ (j : String). among lists j ≡ true)) (sym same) (
            members (λ j. among lists j ≡ true) (keys (take k sorted))
              (λ j in_take. ground (
                arith,
                in_take,
                absent j,
                contains-sort (ranks_before less) d j,
                lists_keys zero_score add share lists [] j,
                none_there j,
              )));
        sorted = hits-IsSorted less (take k sorted) (
            take-IsSorted (ranks_before less) k sorted
              (sort-IsSorted (ranks_before less) (ranks_before-IsOrder less order) d));
      }
