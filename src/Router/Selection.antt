-- ===== src/Router/Selection.antt =====
-- memu/parallel_worker_router.py: which worker a subtask goes to.
use fumemory.Base.{
  ◌≡◌, refl, sym, subst, Bool, true, false, Option, none, some, List, [], ◌∷◌, inl, inr, Bool-cases,
}
use fumemory.Base.Dict.{Dict}
use fumemory.Base.Lists.{All, IfSome}
use fumemory.Router.{
  WorkerInfo, Subtask, is_candidate, candidates, least, first_of, find_best_worker,
}

-- The comparison orders the workers by some load.
pub record IsOrder (lighter : WorkerInfo → WorkerInfo → Bool) : Type 0 where
  pub asymmetric : (v w : WorkerInfo) → lighter v w ≡ true → lighter w v ≡ false
  pub coarse :
      (u v w : WorkerInfo) → lighter u v ≡ false → lighter v w ≡ false → lighter u w ≡ false

module _ (lighter : WorkerInfo → WorkerInfo → Bool) where
  -- The chosen worker may take the subtask, and no worker that may is lighter.
  pub record Best (t : Subtask) (workers : Dict WorkerInfo) (w : WorkerInfo) : Type 0 where
    pub candidate : is_candidate t w ≡ true
    pub lightest : All (λ (v : WorkerInfo). lighter v w ≡ false) (candidates t workers)

  abbrev pub Chosen : Subtask → Dict WorkerInfo → Option WorkerInfo → Type 0
  Chosen t workers none = candidates t workers ≡ []
  Chosen t workers (some w) = Best t workers w

  candidates-All :
      (t : Subtask) (workers : Dict WorkerInfo)
      → All (λ (w : WorkerInfo). is_candidate t w ≡ true) (candidates t workers)
  unfolding candidates
  candidates-All t [] = tt
  candidates-All t ((k, w) ∷ workers) = elim (Bool-cases (is_candidate t w)) [
    | inl e ↦ rw (e, candidates) (e, candidates-All t workers)
    | inr e ↦ rw (e, candidates) (candidates-All t workers)
  ]

  least-Kept :
      (P : WorkerInfo → Type 0) (w : WorkerInfo) (vs : List WorkerInfo)
      → P w
      → All P vs
      → P (least lighter w vs)
  unfolding least
  least-Kept P w [] p ps = p
  least-Kept P w (v ∷ vs) p ps = elim (Bool-cases (lighter v w)) [
    | inl e ↦ rw (e, least) (least-Kept P v vs ps.0 ps.1)
    | inr e ↦ rw (e, least) (least-Kept P w vs p ps.1)
  ]

  irreflexive : IsOrder lighter → (w : WorkerInfo) → lighter w w ≡ false
  irreflexive order w = elim (Bool-cases (lighter w w)) [
    | inl e ↦ order.asymmetric w w e
    | inr e ↦ e
  ]

  least-Lightest :
      IsOrder lighter
      → (w : WorkerInfo) (vs : List WorkerInfo)
      → (lighter w (least lighter w vs) ≡ false)
        × All (λ (v : WorkerInfo). lighter v (least lighter w vs) ≡ false) vs
  unfolding least
  least-Lightest order w [] = (irreflexive order w, tt)
  least-Lightest order w (v ∷ vs) = elim (Bool-cases (lighter v w)) [
    | inl e ↦
        let (own, rest) = least-Lightest order v vs in
        let same : least lighter w (v ∷ vs) ≡ least lighter v vs = rw (e, least) refl in
        subst
          (λ m. (lighter w m ≡ false) × ((lighter v m ≡ false) × All (λ u. lighter u m ≡ false) vs))
          (sym same)
          (order.coarse w v (least lighter v vs) (order.asymmetric v w e) own, (own, rest))
    | inr e ↦
        let (own, rest) = least-Lightest order w vs in
        let same : least lighter w (v ∷ vs) ≡ least lighter w vs = rw (e, least) refl in
        subst
          (λ m. (lighter w m ≡ false) × ((lighter v m ≡ false) × All (λ u. lighter u m ≡ false) vs))
          (sym same) (own, (order.coarse v w (least lighter w vs) e own, rest))
  ]

  first_of-Chosen :
      (P : WorkerInfo → Type 0) (ws : List WorkerInfo)
      → IsOrder lighter
      → All P ws
      → elim (first_of lighter ws) as (λ _. Type 0) [
        | none ↦ ws ≡ []
        | some w ↦ P w × All (λ (v : WorkerInfo). lighter v w ≡ false) ws
      ]
  unfolding first_of
  first_of-Chosen P [] order h = refl
  first_of-Chosen P (w ∷ ws) order h = (least-Kept P w ws h.0 h.1, least-Lightest order w ws)

  -- With a comparison that orders workers by a load: when no worker may take a subtask, none is chosen,
  -- and otherwise one that may, and than which no other that may is lighter.
  find_best_worker_lem :
      (t : Subtask) (workers : Dict WorkerInfo)
      → IsOrder lighter
      → Chosen t workers (find_best_worker lighter t workers)
  unfolding find_best_worker
  find_best_worker_lem t workers order =
      let h =
        first_of-Chosen (λ w. is_candidate t w ≡ true) (candidates t workers) order
          (candidates-All t workers) in
      pack (first_of lighter (candidates t workers)) h
    where
      pack :
          (o : Option WorkerInfo)
          → elim o as (λ _. Type 0) [
            | none ↦ candidates t workers ≡ []
            | some w ↦
                (is_candidate t w ≡ true)
                × All (λ (v : WorkerInfo). lighter v w ≡ false) (candidates t workers)
          ]
          → Chosen t workers o
      pack none h = h
      pack (some w) h = record { candidate = h.0; lightest = h.1 }

  first_of-Kept :
      (P : WorkerInfo → Type 0) (ws : List WorkerInfo) → All P ws → IfSome P (first_of lighter ws)
  unfolding first_of
  first_of-Kept P [] h = tt
  first_of-Kept P (w ∷ ws) h = least-Kept P w ws h.0 h.1

  pub find_best_worker-Candidate :
      (t : Subtask) (workers : Dict WorkerInfo)
      → IfSome (λ (w : WorkerInfo). is_candidate t w ≡ true) (find_best_worker lighter t workers)
  unfolding find_best_worker
  find_best_worker-Candidate t workers =
      first_of-Kept (λ w. is_candidate t w ≡ true) (candidates t workers) (candidates-All t workers)
