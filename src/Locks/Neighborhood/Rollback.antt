-- ===== src/Locks/Neighborhood/Rollback.antt =====
-- memu/neighborhood_lock.py: what the release loops of `NeighborhoodLock` leave.
use fumemory.Base.{
  ℕ, suc, String, str_eq, eq_iff, ◌≡◌, ◌≢◌, sym, ap, subst, ◌∙◌, List, [], ◌∷◌, ◌++◌, Option, some,
  ok, err, arith, Bool-cases, Option-cases, Result-cases, ◌⊎◌, inl, inr,
}
use fumemory.Base.Lists.{All, All-append}
use fumemory.Locks.Record.{LockRecord, Conflict}
use fumemory.Locks.Registry.{Registry, RegistryLaws}
use fumemory.Locks.Calls.{Call, holder_of, step, run, PlainCall, run-Valid, step-Valid, step_mine}
use fumemory.Locks.Neighborhood.{
  NeighborhoodLock, targets, found, acquire_all, release_all, enter, exit,
}

-- Is the record in the list?
abbrev pub Held : LockRecord → List LockRecord → Type 0
Held r [] = ⊥
Held r (x ∷ xs) = (x ≡ r) ⊎ Held r xs

Held-append :
    (r x : LockRecord) (xs : List LockRecord) → (x ≡ r) ⊎ Held r xs → Held r (xs ++ x ∷ [])
Held-append r x [] h = h
Held-append r x (y ∷ ys) (inl e) = inr (Held-append r x ys (inl e))
Held-append r x (y ∷ ys) (inr (inl e)) = inl e
Held-append r x (y ∷ ys) (inr (inr h)) = inr (Held-append r x ys (inr h))

module _ {R : Registry} (L : RegistryLaws R) where
  -- Calls of other holders create no lease of mine.
  run_mine :
      (me : String) (cs : List (ℕ × Call)) (s : R.State) (k : String) (r : LockRecord)
      → All (PlainCall L) cs
      → All (λ (c : ℕ × Call). me ≢ holder_of c.1) cs
      → L.Valid s
      → r.holder_id ≡ me
      → L.view (run R cs s) k ≡ some r
      → L.view s k ≡ some r
  unfolding run
  run_mine me [] s k r p o v m h = h
  run_mine me (c ∷ cs) s k r (p, ps) (o, os) v m h =
      step_mine L c s k r p v (λ e. o (sym m ∙ e))
        (run_mine me cs (step R c s) k r ps os (step-Valid L c s p v) m h)

  -- A release takes its own record away and creates none.
  release_gone :
      (x : LockRecord) (s : R.State) (k : String) (r : LockRecord)
      → L.Plain (L.key x.slug)
      → L.Valid s
      → L.view (R.release x.slug x.holder_id x.fencing_token s).1 k ≡ some r
      → (L.view s k ≡ some r) × ¬ ((x ≡ r) × (L.key x.slug ≡ k))
  release_gone x s k r p v h = (
    ground (arith, L.release_view x.slug x.holder_id x.fencing_token s k p v),
    λ (e, at). ground (
      arith,
      L.release_view x.slug x.holder_id x.fencing_token s k p v,
      eq_iff (L.key x.slug) k,
      eq_iff x.holder_id x.holder_id,
    ),
  )

-- What holds of the leases of `me` while a lock is entered from the state `s₀`: each is one that
-- was acquired on the way, or was there before.
record Entering {R : Registry} (L : RegistryLaws R) (me : String) (s₀ : R.State)
    (acquired : List LockRecord) (s : R.State) : Type 0 where
  valid : L.Valid s
  plain : All (λ (x : LockRecord). L.Plain (L.key x.slug)) acquired
  mine :
      (k : String) (r : LockRecord)
      → r.holder_id ≡ me
      → L.view s k ≡ some r
      → (Held r acquired × (L.key r.slug ≡ k)) ⊎ (L.view s₀ k ≡ some r)

module _ {R : Registry} (L : RegistryLaws R) (clock : ℕ → ℕ) (others : ℕ → List (ℕ × Call))
    (me : String) (ttl : ℕ) (plain : (i : ℕ) → All (PlainCall L) (others i))
    (foreign : (i : ℕ) → All (λ (c : ℕ × Call). me ≢ holder_of c.1) (others i)) where
  abbrev found_at : ℕ → R.State → R.State
  found_at = found R clock others

  found-Entering :
      (i : ℕ) (s₀ s : R.State) (acquired : List LockRecord)
      → Entering L me s₀ acquired s
      → Entering L me s₀ acquired (found_at i s)
  found-Entering i s₀ s acquired v = record {
    valid = run-Valid L (others i) s (plain i) v.valid;
    plain = v.plain;
    mine =
        λ k r m h. v.mine k r m (run_mine L me (others i) s k r (plain i) (foreign i) v.valid m h);
  }

  taken-Entering :
      (now : ℕ) (slug : String) (s₀ s : R.State) (acquired : List LockRecord) (new : LockRecord)
      → L.Plain (L.key slug)
      → (R.try_acquire now slug me ttl s).0 ≡ ok new
      → Entering L me s₀ acquired s
      → Entering L me s₀ (acquired ++ new ∷ []) (R.try_acquire now slug me ttl s).1
  taken-Entering now slug s₀ s acquired new p taken v = record {
    valid = L.acquire-Valid now slug me ttl s v.valid;
    plain =
        All-append (λ (x : LockRecord). L.Plain (L.key x.slug)) new acquired v.plain
          (subst (λ x. L.Plain (L.key x)) (sym same) p);
    mine = λ k r m h. elim (Bool-cases (str_eq (L.key slug) k)) [
      | inl at ↦
          let e : new ≡ r = ground (arith, L.acquire_view now slug me ttl s new k taken) in
          inl (Held-append r new acquired (inl e), ground (arith, same, e, eq_iff (L.key slug) k))
      | inr off ↦
          elim (v.mine k r m (ground (arith, L.acquire_view now slug me ttl s new k taken))) [
            | inl (held, at) ↦ inl (Held-append r new acquired (inr held), at)
            | inr before ↦ inr before
          ]
    ];
  }
    where
      same : new.slug ≡ slug
      same = ap (λ (x : LockRecord). x.slug) (L.acquire_token now slug me ttl s new taken)

  refused-Entering :
      (now : ℕ) (slug : String) (s₀ s : R.State) (acquired : List LockRecord) (e : Conflict)
      → (R.try_acquire now slug me ttl s).0 ≡ err e
      → Entering L me s₀ acquired s
      → Entering L me s₀ acquired (R.try_acquire now slug me ttl s).1
  refused-Entering now slug s₀ s acquired e refused v = record {
    valid = L.acquire-Valid now slug me ttl s v.valid;
    plain = v.plain;
    mine = λ k r m h. v.mine k r m (sym (L.refuse_view now slug me ttl s e k refused) ∙ h);
  }

  acquire_all-Entering :
      (slugs : List String) (i : ℕ) (s₀ s : R.State) (acquired : List LockRecord)
      → All (λ (slug : String). L.Plain (L.key slug)) slugs
      → Entering L me s₀ acquired s
      → let out = acquire_all R clock others me ttl i slugs acquired s in
        Entering L me s₀ out.1 out.3
  unfolding acquire_all
  acquire_all-Entering [] i s₀ s acquired p v = v
  acquire_all-Entering (slug ∷ slugs) i s₀ s acquired (p, ps) v =
      elim (Result-cases (R.try_acquire (clock i) slug me ttl (found_at i s)).0) [
        | inl (new, taken) ↦
            rw (taken, acquire_all)
              (acquire_all-Entering slugs (suc i) s₀ _ _ ps (
                taken-Entering (clock i) slug s₀ _ acquired new p taken
                  (found-Entering i s₀ s acquired v)))
        | inr (e, refused) ↦
            rw (refused, acquire_all)
              (refused-Entering (clock i) slug s₀ _ acquired e refused
                (found-Entering i s₀ s acquired v))
      ]

  release_all_gone :
      (rs : List LockRecord) (i : ℕ) (s : R.State) (k : String) (r : LockRecord)
      → All (λ (x : LockRecord). L.Plain (L.key x.slug)) rs
      → L.Valid s
      → r.holder_id ≡ me
      → L.view (release_all R clock others i rs s) k ≡ some r
      → (L.view s k ≡ some r) × ¬ (Held r rs × (L.key r.slug ≡ k))
  unfolding release_all
  release_all_gone [] i s k r p v m h = (h, λ x. x.0)
  release_all_gone (x ∷ rs) i s k r (p, ps) v m h =
      let valid : L.Valid (found_at i s) = run-Valid L (others i) s (plain i) v in
      let (left, not_later) =
        release_all_gone rs (suc i) _ k r ps
          (L.release-Valid x.slug x.holder_id x.fencing_token (found_at i s) p valid) m h in
      let (there, not_here) = release_gone L x (found_at i s) k r p valid left in
      (
        run_mine L me (others i) s k r (plain i) (foreign i) v m there,
        λ (held, at). elim held [
          | inl e ↦ not_here (e, ap (λ (y : LockRecord). L.key y.slug) e ∙ at)
          | inr later ↦ not_later (later, at)
        ],
      )

module _ {R : Registry} (L : RegistryLaws R) (clock : ℕ → ℕ) (others : ℕ → List (ℕ × Call))
    (lock : NeighborhoodLock) (plain : (i : ℕ) → All (PlainCall L) (others i))
    (foreign : (i : ℕ) → All (λ (c : ℕ × Call). lock.holder_id ≢ holder_of c.1) (others i)) where
  -- From a valid state, on slugs with plain keys, and whatever agents with other holder names call on
  -- plain keys in between: a lock that fails to enter leaves no lease of its holder that was not
  -- there before.
  pub enter_leaks_nothing :
      (s : R.State) (e : Conflict) (k : String) (r : LockRecord)
      → All (λ (slug : String). L.Plain (L.key slug)) (targets lock)
      → L.Valid s
      → (enter R clock others lock s).0 ≡ err e
      → r.holder_id ≡ lock.holder_id
      → L.view (enter R clock others lock s).1 k ≡ some r
      → L.view s k ≡ some r
  unfolding enter
  enter_leaks_nothing s e k r p v failed m h = elim (Option-cases out.0) [
    | inl entered ↦ ground arith
    | inr (stop, stopped) ↦
        let (left, not_mine) =
          release_all_gone L clock others lock.holder_id lock.ttl plain foreign out.1 out.2 out.3 k
            r entering.plain entering.valid m (rw (stopped, enter) at h) in
        elim (entering.mine k r m left) [ inl mine ↦ absurd (not_mine mine) | inr before ↦ before ]
  ]
    where
      out : Option Conflict × List LockRecord × ℕ × R.State
      out = acquire_all R clock others lock.holder_id lock.ttl 0 (targets lock) [] s

      entering : Entering L lock.holder_id s out.1 out.3
      entering =
          acquire_all-Entering L clock others lock.holder_id lock.ttl plain foreign (targets lock) 0
            s s [] p (record { valid = v; plain = tt; mine = λ k r m h. inr h })

  -- From a valid state, for records on plain keys, and whatever agents with other holder names call on
  -- plain keys in between: a lease of the holder that is there after `__aexit__` was there before,
  -- and is none of the records that the lock held under its key.
  exit_releases :
      (s : R.State) (i : ℕ) (k : String) (r : LockRecord)
      → All (λ (x : LockRecord). L.Plain (L.key x.slug)) lock.records
      → L.Valid s
      → r.holder_id ≡ lock.holder_id
      → L.view (exit R clock others i lock s).1 k ≡ some r
      → (L.view s k ≡ some r) × ¬ (Held r lock.records × (L.key r.slug ≡ k))
  unfolding exit
  exit_releases s i k r p v m h =
      release_all_gone L clock others lock.holder_id lock.ttl plain foreign lock.records i s k r p v
        m h
