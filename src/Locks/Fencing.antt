-- ===== src/Locks/Fencing.antt =====
-- memu/neighborhood_lock.py: fencing tokens and leases over any registry, and any sequence of calls.
use fumemory.Base.{
  ℕ, ◌<◌, ◌≤◌, String, eq_refl, ◌≡◌, ◌≢◌, ◌∙◌, List, [], ◌∷◌, some, ok, err, arith, false,
  Option-cases, inl, inr,
}
use fumemory.Base.Lists.{All}
use fumemory.Locks.Record.{LockRecord, Conflict, owns}
use fumemory.Locks.Registry.{Registry, RegistryLaws}
use fumemory.Locks.Calls.{
  Call, holder_of, step, run, PlainCall, step-Valid, run_fence_le, step_keeps,
}

module _ {R : Registry} (L : RegistryLaws R) where
  -- Under a plain key, a token that is given out later is larger, whatever calls come in between.
  token_grows :
      (now now' : ℕ) (slug slug' holder holder' : String) (ttl ttl' : ℕ) (s t : R.State)
      (r r' : LockRecord) (cs : List (ℕ × Call))
      → L.Plain (L.key slug)
      → L.key slug ≡ L.key slug'
      → (R.try_acquire now slug holder ttl s).0 ≡ ok r
      → t ≡ run R cs (R.try_acquire now slug holder ttl s).1
      → (R.try_acquire now' slug' holder' ttl' t).0 ≡ ok r'
      → r.fencing_token < r'.fencing_token
  token_grows now now' slug slug' holder holder' ttl ttl' s t r r' cs p same h e h' = ground (
    arith,
    L.acquire_fence now slug holder ttl s r (L.key slug) p h,
    eq_refl (L.key slug),
    run_fence_le L cs (R.try_acquire now slug holder ttl s).1 (L.key slug) p,
    L.acquire_token now' slug' holder' ttl' t r' h',
  )

  stale_owns :
      (s : R.State) (k : String) (holder : String) (token : ℕ)
      → L.Plain k
      → L.Valid s
      → token < L.fence s k
      → owns (L.view s k) holder token ≡ false
  stale_owns s k holder token p v old = elim (Option-cases (L.view s k)) [
    | inl e ↦ ground arith
    | inr (r, e) ↦ ground (arith, L.Valid-fence s k r p v e)
  ]

  -- A holder whose plain key was given out again since, in a valid state and whatever calls came in
  -- between, cannot renew or release any more: its calls are refused, and they change no lease.
  pub stale_refused :
      (now now' later : ℕ) (slug slug' holder holder' : String) (ttl ttl' : ℕ) (s t u : R.State)
      (r r' : LockRecord) (cs cs' : List (ℕ × Call))
      → L.Plain (L.key slug)
      → L.key slug ≡ L.key slug'
      → L.Valid u
      → (R.try_acquire now slug holder ttl s).0 ≡ ok r
      → t ≡ run R cs (R.try_acquire now slug holder ttl s).1
      → (R.try_acquire now' slug' holder' ttl' t).0 ≡ ok r'
      → u ≡ run R cs' (R.try_acquire now' slug' holder' ttl' t).1
      → ((e : Conflict) × (R.renew later slug holder r.fencing_token ttl u ≡ (err e, u)))
        × ((R.release slug holder r.fencing_token u).0 ≡ false)
        × ((k : String) → L.view (R.release slug holder r.fencing_token u).1 k ≡ L.view u k)
  stale_refused now now' later slug slug' holder holder' ttl ttl' s t u r r' cs cs' p same v h e h'
        e' =
      (
        L.renew_err later slug holder r.fencing_token ttl u v stale,
        L.release_lem slug holder r.fencing_token u p v ∙ stale,
        λ k. ground (arith, stale, L.release_view slug holder r.fencing_token u k p v),
      )
    where
      larger : r.fencing_token < r'.fencing_token
      larger = token_grows now now' slug slug' holder holder' ttl ttl' s t r r' cs p same h e h'

      counter : r'.fencing_token ≤ L.fence u (L.key slug)
      counter = ground (
        arith,
        L.acquire_fence now' slug' holder' ttl' t r' (L.key slug) p h',
        eq_refl (L.key slug),
        run_fence_le L cs' (R.try_acquire now' slug' holder' ttl' t).1 (L.key slug) p,
      )

      stale : owns (L.view u (L.key slug)) holder r.fencing_token ≡ false
      stale = stale_owns u (L.key slug) holder r.fencing_token p v (omega (arith, larger, counter))

  -- From a valid state, while a lease is live, and whatever other holders call on plain keys, the key
  -- keeps the lease.
  pub lease_kept :
      (cs : List (ℕ × Call)) (s : R.State) (k : String) (r : LockRecord)
      → All (PlainCall L) cs
      → All (λ (c : ℕ × Call). (r.holder_id ≢ holder_of c.1) × (c.0 < r.expires_at)) cs
      → L.Valid s
      → L.view s k ≡ some r
      → L.view (run R cs s) k ≡ some r
  unfolding run
  lease_kept [] s k r p others v h = h
  lease_kept (c ∷ cs) s k r (p, ps) ((other, live), rest) v h =
      lease_kept cs (step R c s) k r ps rest (step-Valid L c s p v)
        (step_keeps L c s k r p v other live h)
