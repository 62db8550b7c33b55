-- ===== src/CoreMemory/Truncate.antt =====
-- memu/core_memory.py: `token_safe_truncate`. `size` stands for the tokens of the JSON text.
use fumemory.Base.{
  ℕ, zero, suc, ◌≤◌, ◌<◌, ltb, String, str_eq, eq_iff, ◌≡◌, refl, true, false, ◌&&◌, not, List, [],
  ◌∷◌, map, Bool-cases, arith, ◌⊎◌, inl, inr, if◌then◌else◌,
}
use fumemory.Base.Dict
use fumemory.Base.Dict.{Dict, get-remove}
use fumemory.Base.Lists.{length, drop, filter, contains}

-- The branch for a list: the oldest entries are popped while more than one is left.
unfoldable pub truncate_list {ℓ} : {A : Type ℓ} → (List A → ℕ) → ℕ → List A → List A
truncate_list size max [] = []
truncate_list size max (x ∷ []) = x ∷ []
truncate_list size max (x ∷ y ∷ ys) =
    let rest = truncate_list size max (y ∷ ys) in
    if ltb max (size (x ∷ y ∷ ys)) then rest else x ∷ y ∷ ys

module _ {V : Type 0} (size : Dict V → ℕ) (max : ℕ) where
  -- The loop of the branch for a dict, over the keys that may still be evicted.
  unfoldable pub evict : List String → Dict V → Dict V
  evict [] items = items
  evict (k ∷ keys) items =
      let rest = evict keys (Dict.remove items k) in
      if ltb 1 (length items) && ltb max (size items) then rest else items

  -- The branch for a dict.
  unfoldable pub truncate_dict : List String → Dict V → Dict V
  unfolding evict
  truncate_dict protected items =
      evict (filter (λ k. not (contains k protected)) (map (λ e. e.0) items)) items

-- What is left is a suffix of the list: some number of entries is dropped. It fits or has at most
-- one entry, and dropping fewer would leave something too large.
pub truncate_list_lem {ℓ} :
    {A : Type ℓ} (size : List A → ℕ) (max : ℕ) (xs : List A)
    → (n : ℕ) × (truncate_list size max xs ≡ drop n xs)
      × ((size (drop n xs) ≤ max) ⊎ (length (drop n xs) ≤ 1))
      × ((m : ℕ) → m < n → max < size (drop m xs))
unfolding truncate_list drop length
truncate_list_lem size max [] = (0, refl, inr (omega arith), λ m h. absurd (omega arith))
truncate_list_lem size max (x ∷ []) = (0, refl, inr (omega arith), λ m h. absurd (omega arith))
truncate_list_lem size max (x ∷ y ∷ ys) = elim (Bool-cases (ltb max (size (x ∷ y ∷ ys)))) [
  | inr e ↦ (0, rw (e, truncate_list) refl, inl (ground (arith, e)), λ m h. absurd (omega arith))
  | inl e ↦
      let (n, same, good, large) = truncate_list_lem size max (y ∷ ys) in
      (suc n, rw (e, truncate_list) same, good, all_large e n large)
]
  where
    all_large :
        ltb max (size (x ∷ y ∷ ys)) ≡ true
        → (n : ℕ) → ((m : ℕ) → m < n → max < size (drop m (y ∷ ys)))
        → (m : ℕ) → m < suc n
        → max < size (drop m (x ∷ y ∷ ys))
    all_large e n large zero h = ground (arith, e)
    all_large e n large (suc m) h = large m (omega arith)

module _ {V : Type 0} (size : Dict V → ℕ) (max : ℕ) where
  evict_keeps :
      (k : String) (keys : List String) (items : Dict V)
      → contains k keys ≡ false
      → Dict.get (evict size max keys items) k ≡ Dict.get items k
  unfolding evict contains
  evict_keeps k [] items h = refl
  evict_keeps k (j ∷ keys) items h =
      let other : str_eq j k ≡ false = ground (arith, h) in
      let rest : contains k keys ≡ false = ground (arith, h) in
      ground (arith, other, evict_keeps k keys (Dict.remove items j) rest, get-remove items j k)

  contains-filter :
      (k : String) (protected keys : List String)
      → contains k protected ≡ true
      → contains k (filter (λ j. not (contains j protected)) keys) ≡ false
  unfolding contains filter
  contains-filter k protected [] h = refl
  contains-filter k protected (j ∷ js) h =
      ground (arith, eq_iff j k, contains-filter k protected js h, h)

  -- A protected key is never evicted: it has the value that it had.
  pub truncate_dict_protects :
      (protected : List String) (items : Dict V) (k : String)
      → contains k protected ≡ true
      → Dict.get (truncate_dict size max protected items) k ≡ Dict.get items k
  unfolding truncate_dict
  truncate_dict_protects protected items k h =
      evict_keeps k (filter (λ j. not (contains j protected)) (map (λ e. e.0) items)) items
        (contains-filter k protected (map (λ e. e.0) items) h)
