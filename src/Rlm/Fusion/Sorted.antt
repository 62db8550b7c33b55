-- ===== src/Rlm/Fusion/Sorted.antt =====
-- memu/rlm/retriever.py: the order of a fusion.
use fumemory.Base.{
  ℕ, zero, suc, String, ◌≡◌, Bool, true, false, List, [], ◌∷◌, map, arith, inl, inr, Bool-cases,
}
use fumemory.Base.Lists.{All, take}
use fumemory.Rlm.Fusion.{SearchHit, Fused, insert_by, sort_by, to_hit, ranks_before}

-- A strict comparison that orders by some key.
pub record IsOrder {ℓ} {A : Type ℓ} (less : A → A → Bool) : Type ℓ where
  pub asymmetric : (x y : A) → less x y ≡ true → less y x ≡ false
  pub coarse : (x y z : A) → less x y ≡ false → less y z ≡ false → less x z ≡ false

module _ {ℓ} {A : Type ℓ} (precedes : A → A → Bool) where
  -- No later entry precedes an earlier one.
  abbrev pub IsSorted : List A → Type ℓ
  IsSorted [] = Unit
  IsSorted (x ∷ xs) = All (λ y. precedes y x ≡ false) xs × IsSorted xs

  All-insert :
      (P : A → Type 0) (x : A) (xs : List A) → P x → All P xs → All P (insert_by precedes x xs)
  unfolding insert_by
  All-insert P x [] p h = (p, tt)
  All-insert P x (y ∷ ys) p h = elim (Bool-cases (precedes y x)) [
    | inl e ↦ rw (e, insert_by) (h.0, All-insert P x ys p h.1)
    | inr e ↦ rw (e, insert_by) (p, h)
  ]

  pub All-sort : (P : A → Type 0) (xs : List A) → All P xs → All P (sort_by precedes xs)
  unfolding sort_by
  All-sort P [] h = tt
  All-sort P (x ∷ xs) h = All-insert P x (sort_by precedes xs) h.0 (All-sort P xs h.1)

  All-later :
      IsOrder precedes
      → (x y : A) (ys : List A) → precedes y x ≡ false
      → All (λ z. precedes z y ≡ false) ys
      → All (λ z. precedes z x ≡ false) ys
  All-later order x y [] le h = tt
  All-later order x y (z ∷ zs) le h = (order.coarse z y x h.0 le, All-later order x y zs le h.1)

  insert-IsSorted :
      IsOrder precedes → (x : A) (xs : List A) → IsSorted xs → IsSorted (insert_by precedes x xs)
  unfolding insert_by
  insert-IsSorted order x [] h = (tt, tt)
  insert-IsSorted order x (y ∷ ys) h = elim (Bool-cases (precedes y x)) [
    | inl e ↦
        rw (e, insert_by)
          (
            All-insert (λ z. precedes z y ≡ false) x ys (order.asymmetric y x e) h.0,
            insert-IsSorted order x ys h.1,
          )
    | inr e ↦ rw (e, insert_by) ((e, All-later order x y ys e h.0), h)
  ]

  pub sort-IsSorted : IsOrder precedes → (xs : List A) → IsSorted (sort_by precedes xs)
  unfolding sort_by
  sort-IsSorted order [] = tt
  sort-IsSorted order (x ∷ xs) =
      insert-IsSorted order x (sort_by precedes xs) (sort-IsSorted order xs)

pub All-take {ℓ} :
    {A : Type ℓ} (P : A → Type 0) (n : ℕ) (xs : List A) → All P xs → All P (take n xs)
unfolding take
All-take P zero xs h = tt
All-take P (suc n) [] h = tt
All-take P (suc n) (x ∷ xs) h = (h.0, All-take P n xs h.1)

pub take-IsSorted {ℓ} :
    {A : Type ℓ} (precedes : A → A → Bool) (n : ℕ) (xs : List A)
    → IsSorted precedes xs
    → IsSorted precedes (take n xs)
unfolding take
take-IsSorted precedes zero xs h = tt
take-IsSorted precedes (suc n) [] h = tt
take-IsSorted precedes (suc n) (x ∷ xs) h =
    (All-take (λ y. precedes y x ≡ false) n xs h.0, take-IsSorted precedes n xs h.1)

module _ {Score : Type 0} (less : Score → Score → Bool) where
  pub ranks_before-IsOrder : IsOrder less → IsOrder (ranks_before less)
  unfolding ranks_before
  ranks_before-IsOrder order = record {
    asymmetric = λ x y h.
        ground
          (arith, h, order.asymmetric y.1.score x.1.score, order.asymmetric x.1.score y.1.score);
    coarse = λ x y z h k. ground (
      arith,
      h,
      k,
      order.coarse z.1.score y.1.score x.1.score,
      order.coarse x.1.score z.1.score y.1.score,
      order.coarse y.1.score x.1.score z.1.score,
    );
  }

  All-hits :
      (f : Fused Score) (es : List (String × Fused Score)) (k : String)
      → All (λ (e : String × Fused Score). ranks_before less e (k, f) ≡ false) es
      → All
          (λ (h : SearchHit Score). less (to_hit f).score h.score ≡ false)
          (map (λ (e : String × Fused Score). to_hit e.1) es)
  unfolding ranks_before to_hit
  All-hits f [] k h = tt
  All-hits f (e ∷ es) k (h, hs) = (ground (arith, h), All-hits f es k hs)

  -- The scores of the hits never rise.
  pub hits-IsSorted :
      (es : List (String × Fused Score))
      → IsSorted (ranks_before less) es
      → IsSorted
          (λ (h g : SearchHit Score). less g.score h.score)
          (map (λ (e : String × Fused Score). to_hit e.1) es)
  hits-IsSorted [] h = tt
  hits-IsSorted ((k, f) ∷ es) (h, hs) = (All-hits f es k h, hits-IsSorted es hs)
