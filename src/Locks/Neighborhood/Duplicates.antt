-- ===== src/Locks/Neighborhood/Duplicates.antt =====
-- memu/neighborhood_lock.py: what `__aenter__` acquires, and how it fails on a slug that it names
-- twice.
use mathlib.Core.List.{append-nil, append_assoc, map-append}
use fumemory.Base.{
  ℕ, suc, ◌+◌, ◌<◌, String, str_eq, eq_iff, eq_refl, ◌≡◌, ◌≢◌, sym, ap, ◌∙◌, List, [], ◌∷◌, ◌++◌,
  map, Option, none, some, ok, err, arith, Bool-cases, Option-cases, Result-cases, ◌⊎◌, inl, inr,
}
use fumemory.Locks.Record.{LockRecord, Conflict}
use fumemory.Locks.Registry.{Registry, RegistryLaws}
use fumemory.Locks.Calls.{Call, run}
use fumemory.Locks.Neighborhood.{
  NeighborhoodLock, insert_sorted, sorted_without, targets, found, acquire_all, enter,
}

abbrev Occurs : String → List String → Type 0
Occurs n [] = ⊥
Occurs n (x ∷ xs) = (x ≡ n) ⊎ Occurs n xs

-- The neighbour is named at least twice.
abbrev pub Repeats : String → List String → Type 0
Repeats n [] = ⊥
Repeats n (x ∷ xs) = (x ≡ n) × Occurs n xs ⊎ Repeats n xs

Occurs-insert_sorted :
    (x n : String) (ys : List String) → (x ≡ n) ⊎ Occurs n ys → Occurs n (insert_sorted x ys)
unfolding insert_sorted
Occurs-insert_sorted x n [] (inl e) = inl e
Occurs-insert_sorted x n [] (inr h) = elim h [ ]
Occurs-insert_sorted x n (y ∷ ys) h = ground (arith, Occurs-insert_sorted x n ys)

Repeats-insert_sorted :
    (x n : String) (ys : List String)
    → (x ≡ n) × Occurs n ys ⊎ Repeats n ys
    → Repeats n (insert_sorted x ys)
unfolding insert_sorted
Repeats-insert_sorted x n [] h = h
Repeats-insert_sorted x n (y ∷ ys) h =
    ground (arith, Repeats-insert_sorted x n ys, Occurs-insert_sorted x n ys)

Occurs-sorted_without :
    (slug n : String) (ns : List String)
    → n ≢ slug
    → Occurs n ns
    → Occurs n (sorted_without slug ns)
unfolding sorted_without
Occurs-sorted_without slug n (x ∷ ns) ne h = ground (
  arith,
  eq_iff x slug,
  Occurs-sorted_without slug n ns ne,
  Occurs-insert_sorted x n (sorted_without slug ns),
)
Occurs-sorted_without slug n [] ne h = h

Repeats-sorted_without :
    (slug n : String) (ns : List String)
    → n ≢ slug
    → Repeats n ns
    → Repeats n (sorted_without slug ns)
unfolding sorted_without
Repeats-sorted_without slug n [] ne h = h
Repeats-sorted_without slug n (x ∷ ns) ne h = ground (
  arith,
  eq_iff x slug,
  Occurs-sorted_without slug n ns ne,
  Repeats-sorted_without slug n ns ne,
  Repeats-insert_sorted x n (sorted_without slug ns),
)

-- Nobody else calls the registry.
abbrev pub alone : ℕ → List (ℕ × Call)
alone i = []

module _ {R : Registry} (L : RegistryLaws R) (clock : ℕ → ℕ) where
  abbrev SharesKey : String → List String → Type 0
  SharesKey slug [] = ⊥
  SharesKey slug (x ∷ xs) = (L.key slug ≡ L.key x) ⊎ SharesKey slug xs

  -- Two of the slugs are kept under one key.
  abbrev pub Clash : List String → Type 0
  Clash [] = ⊥
  Clash (x ∷ xs) = SharesKey x xs ⊎ Clash xs

  Occurs-SharesKey : (n : String) (xs : List String) → Occurs n xs → SharesKey n xs
  Occurs-SharesKey n [] h = elim h [ ]
  Occurs-SharesKey n (x ∷ xs) (inl e) = inl (ap L.key (sym e))
  Occurs-SharesKey n (x ∷ xs) (inr h) = inr (Occurs-SharesKey n xs h)

  Repeats-Clash : (n : String) (xs : List String) → Repeats n xs → Clash xs
  Repeats-Clash n [] h = elim h [ ]
  Repeats-Clash n (x ∷ xs) (inl (e, h)) = inl (rw e (Occurs-SharesKey n xs h))
  Repeats-Clash n (x ∷ xs) (inr h) = inr (Repeats-Clash n xs h)

  -- A lease that stays live under a key stops the loop at the next slug with that key.
  live_stops :
      (me : String) (ttl : ℕ) (slug : String) (slugs : List String) (i : ℕ)
      (acquired : List LockRecord) (s : R.State) (r : LockRecord)
      → SharesKey slug slugs
      → L.view s (L.key slug) ≡ some r
      → ((j : ℕ) → clock j < r.expires_at)
      → (acquire_all R clock alone me ttl i slugs acquired s).0 ≢ none
  unfolding acquire_all run
  live_stops me ttl slug [] i acquired s r shares live lasts through = elim shares [ ]
  live_stops me ttl slug (x ∷ xs) i acquired s r shares live lasts through =
      elim (Result-cases (R.try_acquire (clock i) x me ttl s).0) [
        | inr (e, refused) ↦ ground arith
        | inl (new, taken) ↦ elim (Bool-cases (str_eq (L.key x) (L.key slug))) [
          | inl same ↦ ground (
            arith,
            L.acquire_expired (clock i) x me ttl s new r taken,
            lasts i,
            eq_iff (L.key x) (L.key slug),
          )
          | inr differ ↦ elim shares [
            | inl same ↦ ground (arith, eq_iff (L.key x) (L.key slug))
            | inr later ↦
                live_stops me ttl slug xs (suc i) (acquired ++ new ∷ [])
                  (R.try_acquire (clock i) x me ttl s).1 r later
                  (ground (arith, L.acquire_view (clock i) x me ttl s new (L.key slug) taken)) lasts
                  (rw (taken, acquire_all) at through)
          ]
        ]
      ]

  Clash-stops :
      (me : String) (ttl : ℕ) (slugs : List String) (i : ℕ) (acquired : List LockRecord)
      (s : R.State)
      → Clash slugs
      → ((j j' : ℕ) → clock j < clock j' + ttl)
      → (acquire_all R clock alone me ttl i slugs acquired s).0 ≢ none
  unfolding acquire_all run
  Clash-stops me ttl [] i acquired s clash window through = elim clash [ ]
  Clash-stops me ttl (x ∷ xs) i acquired s clash window through =
      elim (Result-cases (R.try_acquire (clock i) x me ttl s).0) [
        | inr (e, refused) ↦ ground arith
        | inl (new, taken) ↦
            let through' = (rw (taken, acquire_all) at through) in
            elim clash [
              | inl shares ↦
                  live_stops me ttl x xs (suc i) (acquired ++ new ∷ [])
                    (R.try_acquire (clock i) x me ttl s).1 new shares
                    (ground (
                      arith,
                      eq_refl (L.key x),
                      L.acquire_view (clock i) x me ttl s new (L.key x) taken,
                    ))
                    (λ j.
                      ground (arith, L.acquire_token (clock i) x me ttl s new taken, window j i))
                    through'
              | inr later ↦
                  Clash-stops me ttl xs (suc i) (acquired ++ new ∷ [])
                    (R.try_acquire (clock i) x me ttl s).1 later window through'
            ]
      ]

  -- A lock cannot be entered, while its leases would last, if two of its slugs are kept under one key.
  pub enter-Clash :
      (lock : NeighborhoodLock) (s : R.State)
      → Clash (targets lock)
      → ((j j' : ℕ) → clock j < clock j' + lock.ttl)
      → (e : Conflict) × ((enter R clock alone lock s).0 ≡ err e)
  unfolding enter
  enter-Clash lock s clash window =
      elim (Option-cases
        (acquire_all R clock alone lock.holder_id lock.ttl 0 (targets lock) [] s).0) [
          | inl through ↦
              absurd
                (Clash-stops lock.holder_id lock.ttl (targets lock) 0 [] s clash window through)
          | inr (e, stopped) ↦ (e, rw (stopped, enter))
        ]

  -- When no other agent calls and all calls fall within the time of a lease, a lock with a neighbour
  -- that is named twice, and is not its own slug, cannot be entered.
  enter_repeated :
      (lock : NeighborhoodLock) (s : R.State) (n : String)
      → Repeats n lock.neighbors
      → n ≢ lock.slug
      → ((j j' : ℕ) → clock j < clock j' + lock.ttl)
      → (e : Conflict) × ((enter R clock alone lock s).0 ≡ err e)
  unfolding targets
  enter_repeated lock s n twice ne =
      enter-Clash lock s
        (inr (Repeats-Clash n _ (Repeats-sorted_without lock.slug n lock.neighbors ne twice)))

abbrev pub lease_of : LockRecord → String × String
lease_of r = (r.slug, r.holder_id)

abbrev pub claimed_by : String → String → String × String
claimed_by me slug = (slug, me)

module _ (R : Registry) (L : RegistryLaws R) (clock : ℕ → ℕ) (others : ℕ → List (ℕ × Call)) where
  acquire_all-slugs :
      (me : String) (ttl : ℕ) (slugs : List String) (i : ℕ) (acquired : List LockRecord)
      (s : R.State)
      → (acquire_all R clock others me ttl i slugs acquired s).0 ≡ none
      → map lease_of (acquire_all R clock others me ttl i slugs acquired s).1
        ≡ map lease_of acquired ++ map (claimed_by me) slugs
  unfolding acquire_all
  acquire_all-slugs me ttl [] i acquired s through = sym (append-nil _)
  acquire_all-slugs me ttl (x ∷ xs) i acquired s through =
      elim (Result-cases (R.try_acquire (clock i) x me ttl (found R clock others i s)).0) [
        | inr (e, refused) ↦ ground arith
        | inl (new, taken) ↦
            rw (taken, acquire_all)
              (acquire_all-slugs me ttl xs (suc i) (acquired ++ new ∷ [])
                  (R.try_acquire (clock i) x me ttl (found R clock others i s)).1
                  (rw (taken, acquire_all) at through)
                ∙ simp (map-append, append_assoc)
                    (ap (λ p. map lease_of acquired ++ p ∷ map (claimed_by me) xs)
                      (ap lease_of
                        (L.acquire_token (clock i) x me ttl (found R clock others i s) new taken))))
      ]

  -- Whatever other agents call in between, a lock that enters holds one record for each of its
  -- targets, in their order, and each has the lock's holder.
  pub enter-slugs :
      (lock lock' : NeighborhoodLock) (s : R.State)
      → (enter R clock others lock s).0 ≡ ok lock'
      → map lease_of lock'.records ≡ map (claimed_by lock.holder_id) (targets lock)
  unfolding enter
  enter-slugs lock lock' s entered = elim (Option-cases out.0) [
    | inr (e, stopped) ↦ ground arith
    | inl through ↦
        let e : lock'.records ≡ out.1 = ground arith in
        rw e (acquire_all-slugs lock.holder_id lock.ttl (targets lock) 0 [] s through)
  ]
    where
      out : Option Conflict × List LockRecord × ℕ × R.State
      out = acquire_all R clock others lock.holder_id lock.ttl 0 (targets lock) [] s
