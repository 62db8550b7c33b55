-- ===== src/Rlm/Fusion.antt =====
-- memu/rlm/retriever.py: `HybridRetriever.retrieve` from the ranked lists on. `Score` stands for the
-- floating-point scores, of which a zero, an addition and the order are used; `share rank` for
-- `1.0 / (rrf_k + rank)`.
pub mod Sorted
pub mod Keys
pub mod Answers
use Prim.Native.String.{compare}
use Prim.Native.Nat.{Ordering}
use fumemory.Base.{
  ℕ, ◌+◌, ltb, String, str_eq, Bool, true, false, ◌&&◌, ◌||◌, not, Option, none, some, List, [],
  ◌∷◌, ◌++◌, map, if◌then◌else◌,
}
use fumemory.Base.Dict
use fumemory.Base.Dict.{Dict}
use fumemory.Base.Lists.{contains, take}
use fumemory.Base.Texts.{join}

-- The node of a hit stands by its id and slug.
pub record SearchHit (Score : Type 0) : Type 0 where
  pub id : String
  pub slug : String
  pub score : Score
  pub reason : String

-- What the four dicts of `_rrf_fuse` have of a key.
pub record Fused (Score : Type 0) : Type 0 where
  pub hit : SearchHit Score
  pub score : Score
  pub best_rank : ℕ
  pub reasons : List String

-- `sorted`: an entry goes before those that do not precede it.
unfoldable pub insert_by {ℓ} : {A : Type ℓ} → (A → A → Bool) → A → List A → List A
insert_by precedes x [] = x ∷ []
insert_by precedes x (y ∷ ys) =
    let rest = insert_by precedes x ys in if precedes y x then y ∷ rest else x ∷ y ∷ ys

unfoldable pub sort_by {ℓ} : {A : Type ℓ} → (A → A → Bool) → List A → List A
sort_by precedes [] = []
sort_by precedes (x ∷ xs) = insert_by precedes x (sort_by precedes xs)

abbrev pub text_before : String → String → Bool
text_before s t = elim (compare s t) [ Ordering.lt ↦ true | _ ↦ false ]

abbrev pub with_reason : String → List String → List String
with_reason r rs = if contains r rs then rs else rs ++ r ∷ []

module _ {Score : Type 0} where
  -- `hit.node.id or hit.node.slug`
  abbrev pub key_of : SearchHit Score → String
  key_of hit = if str_eq hit.id "" then hit.slug else hit.id

  -- `"+".join(sorted(reasons[key])) or hit.reason`
  unfoldable pub merged_reason : Fused Score → String
  merged_reason f =
      let merged = join "+" (sort_by text_before f.reasons) in
      if str_eq merged "" then f.hit.reason else merged

  unfoldable pub to_hit : Fused Score → SearchHit Score
  to_hit f = record f.hit { score = f.score; reason = merged_reason f }

  -- The order of the keys: the larger score, then the smaller best rank.
  unfoldable pub ranks_before :
      (Score → Score → Bool) → String × Fused Score → String × Fused Score → Bool
  ranks_before less (j, f) (k, g) =
      less g.score f.score || (not (less f.score g.score) && ltb f.best_rank g.best_rank)

module _ {Score : Type 0} (zero_score : Score) (add : Score → Score → Score)
    (share : ℕ → Score) where
  unfoldable pub fused_with : ℕ → SearchHit Score → Option (Fused Score) → Fused Score
  fused_with rank hit none = record {
    hit = hit;
    score = add zero_score (share rank);
    best_rank = rank;
    reasons = hit.reason ∷ [];
  }
  fused_with rank hit (some f) = record f {
    score = add f.score (share rank);
    best_rank = if ltb rank f.best_rank then rank else f.best_rank;
    reasons = with_reason hit.reason f.reasons;
  }

  -- The inner loop, from a rank on.
  unfoldable pub fuse_list : ℕ → List (SearchHit Score) → Dict (Fused Score) → Dict (Fused Score)
  fuse_list rank [] d = d
  fuse_list rank (hit ∷ hits) d =
      fuse_list (rank + 1) hits
        (Dict.put d (key_of hit) (fused_with rank hit (Dict.get d (key_of hit))))

  unfoldable pub fuse_lists :
      List (List (SearchHit Score)) → Dict (Fused Score) → Dict (Fused Score)
  fuse_lists [] d = d
  fuse_lists (l ∷ ls) d = fuse_lists ls (fuse_list 1 l d)

  -- `_rrf_fuse`
  unfoldable pub rrf_fuse :
      (Score → Score → Bool) → ℕ → List (List (SearchHit Score)) → List (SearchHit Score)
  rrf_fuse less k lists =
      map (λ (e : String × Fused Score). to_hit e.1)
        (take k (sort_by (ranks_before less) (fuse_lists lists [])))

  -- The answers of the retrievers that ran; one that raised is left out.
  unfoldable pub rank_lists : List (Option (List (SearchHit Score))) → List (List (SearchHit Score))
  rank_lists [] = []
  rank_lists (none ∷ answers) = rank_lists answers
  rank_lists (some hits ∷ answers) = hits ∷ rank_lists answers

  -- `retrieve`, from the answers on.
  unfoldable pub retrieve :
      (Score → Score → Bool) → ℕ → List (Option (List (SearchHit Score))) → List (SearchHit Score)
  retrieve less k answers = rrf_fuse less k (rank_lists answers)
