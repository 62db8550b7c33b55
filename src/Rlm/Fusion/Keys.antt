-- ===== src/Rlm/Fusion/Keys.antt =====
-- memu/rlm/retriever.py: which nodes a fusion has.
use fumemory.Base.{
  ℕ, ◌+◌, suc, zero, String, str_eq, eq_iff, ◌≡◌, refl, ap, ◌∙◌, Bool, true, false, ◌||◌, List, [],
  ◌∷◌, map, arith, inl, inr, Option-cases,
}
use fumemory.Base.Dict
use fumemory.Base.Dict.{Dict, All-put, All-get}
use fumemory.Base.Lists.{All, contains, is_unique, take}
use fumemory.Rlm.Fusion.{
  SearchHit, Fused, insert_by, sort_by, key_of, to_hit, fused_with, fuse_list, fuse_lists,
}

-- The keys of a dict.
abbrev pub keys {ℓ} : {V : Type ℓ} → Dict V → List String
keys d = map (λ e. e.0) d

module _ {V : Type 0} where
  contains-put :
      (d : Dict V) (k : String) (v : V) (j : String)
      → contains j (keys (Dict.put d k v)) ≡ (contains j (keys d) || str_eq k j)
  unfolding Dict.put contains
  contains-put [] k v j = ground arith
  contains-put ((i, w) ∷ d) k v j =
      ground (arith, eq_iff i k, eq_iff i j, eq_iff k j, contains-put d k v j)

  is_unique-put :
      (d : Dict V) (k : String) (v : V)
      → is_unique (keys d) ≡ true
      → is_unique (keys (Dict.put d k v)) ≡ true
  unfolding Dict.put contains is_unique
  is_unique-put [] k v h = refl
  is_unique-put ((i, w) ∷ d) k v h =
      ground (arith, h, eq_iff i k, eq_iff k i, contains-put d k v i, is_unique-put d k v)

  module _ (precedes : String × V → String × V → Bool) where
    contains-insert :
        (x : String × V) (d : Dict V) (j : String)
        → contains j (keys (insert_by precedes x d)) ≡ (str_eq x.0 j || contains j (keys d))
    unfolding insert_by contains
    contains-insert x [] j = refl
    contains-insert x (y ∷ d) j = ground (arith, contains-insert x d j)

    is_unique-insert :
        (x : String × V) (d : Dict V)
        → contains x.0 (keys d) ≡ false
        → is_unique (keys d) ≡ true
        → is_unique (keys (insert_by precedes x d)) ≡ true
    unfolding insert_by is_unique contains
    is_unique-insert x [] out h = refl
    is_unique-insert x (y ∷ d) out h = ground (
      arith,
      out,
      h,
      eq_iff x.0 y.0,
      eq_iff y.0 x.0,
      contains-insert x d y.0,
      is_unique-insert x d,
    )

    pub contains-sort :
        (d : Dict V) (j : String) → contains j (keys (sort_by precedes d)) ≡ contains j (keys d)
    unfolding sort_by contains
    contains-sort [] j = refl
    contains-sort (x ∷ d) j =
        ground (arith, contains-insert x (sort_by precedes d) j, contains-sort d j)

    pub is_unique-sort :
        (d : Dict V) → is_unique (keys d) ≡ true → is_unique (keys (sort_by precedes d)) ≡ true
    unfolding sort_by is_unique contains
    is_unique-sort [] h = refl
    is_unique-sort (x ∷ d) h =
        is_unique-insert x (sort_by precedes d) (contains-sort d x.0 ∙ ground (arith, h))
          (is_unique-sort d (ground (arith, h)))

  pub is_unique-take :
      (n : ℕ) (d : Dict V)
      → is_unique (keys d) ≡ true
      → (is_unique (keys (take n d)) ≡ true)
        × ((j : String) → contains j (keys d) ≡ false → contains j (keys (take n d)) ≡ false)
  unfolding take is_unique contains
  is_unique-take zero d h = (refl, λ j out. refl)
  is_unique-take (suc n) [] h = (refl, λ j out. refl)
  is_unique-take (suc n) (x ∷ d) h =
      let (once, absent) = is_unique-take n d (ground (arith, h)) in
      (ground (arith, h, once, absent x.0), λ j out. ground (arith, out, absent j))

unfoldable pub among : {Score : Type 0} → List (List (SearchHit Score)) → String → Bool
among [] j = false
among (l ∷ ls) j = contains j (map key_of l) || among ls j

module _ {Score : Type 0} (zero_score : Score) (add : Score → Score → Score)
    (share : ℕ → Score) where
  list_keys :
      (rank : ℕ) (hits : List (SearchHit Score)) (d : Dict (Fused Score)) (j : String)
      → contains j (keys (fuse_list zero_score add share rank hits d))
        ≡ (contains j (keys d) || contains j (map key_of hits))
  unfolding fuse_list contains
  list_keys rank [] d j = ground arith
  list_keys rank (hit ∷ hits) d j =
      let f = fused_with zero_score add share rank hit (Dict.get d (key_of hit)) in
      list_keys (rank + 1) hits (Dict.put d (key_of hit) f) j
      ∙ ground (arith, contains-put d (key_of hit) f j)

  pub lists_keys :
      (ls : List (List (SearchHit Score))) (d : Dict (Fused Score)) (j : String)
      → contains j (keys (fuse_lists zero_score add share ls d))
        ≡ (contains j (keys d) || among ls j)
  unfolding fuse_lists among
  lists_keys [] d j = ground arith
  lists_keys (l ∷ ls) d j =
      lists_keys ls (fuse_list zero_score add share 1 l d) j ∙ ground (arith, list_keys 1 l d j)

  list_unique :
      (rank : ℕ) (hits : List (SearchHit Score)) (d : Dict (Fused Score))
      → is_unique (keys d) ≡ true
      → is_unique (keys (fuse_list zero_score add share rank hits d)) ≡ true
  unfolding fuse_list
  list_unique rank [] d h = h
  list_unique rank (hit ∷ hits) d h =
      let f = fused_with zero_score add share rank hit (Dict.get d (key_of hit)) in
      list_unique (rank + 1) hits (Dict.put d (key_of hit) f) (is_unique-put d (key_of hit) f h)

  pub lists_unique :
      (ls : List (List (SearchHit Score))) (d : Dict (Fused Score))
      → is_unique (keys d) ≡ true
      → is_unique (keys (fuse_lists zero_score add share ls d)) ≡ true
  unfolding fuse_lists
  lists_unique [] d h = h
  lists_unique (l ∷ ls) d h =
      lists_unique ls (fuse_list zero_score add share 1 l d) (list_unique 1 l d h)

  -- An entry stands under the key of its hit.
  abbrev pub Own : String × Fused Score → Type 0
  Own (k, f) = key_of f.hit ≡ k

  fused_with-Own :
      (rank : ℕ) (hit : SearchHit Score) (d : Dict (Fused Score))
      → All Own d
      → Own (key_of hit, fused_with zero_score add share rank hit (Dict.get d (key_of hit)))
  unfolding fused_with
  fused_with-Own rank hit d h = elim (Option-cases (Dict.get d (key_of hit))) [
    | inl e ↦ rw (e, fused_with) refl
    | inr (f, e) ↦ rw (e, fused_with) (All-get Own d (key_of hit) f h e)
  ]

  list-Own :
      (rank : ℕ) (hits : List (SearchHit Score)) (d : Dict (Fused Score))
      → All Own d
      → All Own (fuse_list zero_score add share rank hits d)
  unfolding fuse_list
  list-Own rank [] d h = h
  list-Own rank (hit ∷ hits) d h =
      let f = fused_with zero_score add share rank hit (Dict.get d (key_of hit)) in
      list-Own (rank + 1) hits (Dict.put d (key_of hit) f)
        (All-put Own d (key_of hit) f h (fused_with-Own rank hit d h))

  pub lists-Own :
      (ls : List (List (SearchHit Score))) (d : Dict (Fused Score))
      → All Own d
      → All Own (fuse_lists zero_score add share ls d)
  unfolding fuse_lists
  lists-Own [] d h = h
  lists-Own (l ∷ ls) d h = lists-Own ls (fuse_list zero_score add share 1 l d) (list-Own 1 l d h)

  pub hit_keys :
      (es : Dict (Fused Score))
      → All Own es
      → map key_of (map (λ (e : String × Fused Score). to_hit e.1) es) ≡ keys es
  unfolding to_hit
  hit_keys [] h = refl
  hit_keys ((k, f) ∷ es) (h, hs) =
      ap (λ l. key_of (to_hit f) ∷ l) (hit_keys es hs) ∙ ap (λ s. s ∷ keys es) h
