-- ===== src/Locks/Calls.antt =====
-- memu/neighborhood_lock.py: calls of a lock registry as data, so that the calls of many agents are
-- one sequence, each with the time at which it ran.
use fumemory.Base.{
  ℕ, ◌≤◌, ◌<◌, String, eq_iff, ◌≡◌, ◌≢◌, List, [], ◌∷◌, some, arith, inl, inr, Result-cases, sym,
  ◌∙◌,
}
use fumemory.Base.Lists.{All}
use fumemory.Locks.Record.{LockRecord}
use fumemory.Locks.Registry.{Registry, RegistryLaws}

pub data Call : Type 0 where
  acquires : String → String → ℕ → Call
  renews : String → String → ℕ → ℕ → Call
  releases : String → String → ℕ → Call

abbrev pub slug_of : Call → String
slug_of (acquires slug _ _) = slug
slug_of (renews slug _ _ _) = slug
slug_of (releases slug _ _) = slug

abbrev pub holder_of : Call → String
holder_of (acquires _ holder _) = holder
holder_of (renews _ holder _ _) = holder
holder_of (releases _ holder _) = holder

module _ (R : Registry) where
  unfoldable pub step : ℕ × Call → R.State → R.State
  step (now, acquires slug holder ttl) s = (R.try_acquire now slug holder ttl s).1
  step (now, renews slug holder token ttl) s = (R.renew now slug holder token ttl s).1
  step (now, releases slug holder token) s = (R.release slug holder token s).1

  unfoldable pub run : List (ℕ × Call) → R.State → R.State
  run [] s = s
  run (c ∷ cs) s = run cs (step c s)

module _ {R : Registry} (L : RegistryLaws R) where
  -- Every call names a slug whose fence counter is its own.
  abbrev pub PlainCall : ℕ × Call → Type 0
  PlainCall (now, c) = L.Plain (L.key (slug_of c))

  pub step-Valid : (c : ℕ × Call) (s : R.State) → PlainCall c → L.Valid s → L.Valid (step R c s)
  unfolding step
  step-Valid (now, acquires slug holder ttl) s p v = L.acquire-Valid now slug holder ttl s v
  step-Valid (now, renews slug holder token ttl) s p v =
      L.renew-Valid now slug holder token ttl s p v
  step-Valid (now, releases slug holder token) s p v = L.release-Valid slug holder token s p v

  pub run-Valid :
      (cs : List (ℕ × Call)) (s : R.State) → All PlainCall cs → L.Valid s → L.Valid (run R cs s)
  unfolding run
  run-Valid [] s p v = v
  run-Valid (c ∷ cs) s (p, ps) v = run-Valid cs (step R c s) ps (step-Valid c s p v)

  acquire_fence_le :
      (now : ℕ) (slug holder : String) (ttl : ℕ) (s : R.State) (k : String)
      → L.Plain k
      → L.fence s k ≤ L.fence (R.try_acquire now slug holder ttl s).1 k
  acquire_fence_le now slug holder ttl s k p =
      elim (Result-cases (R.try_acquire now slug holder ttl s).0) [
        | inl (r, taken) ↦ ground (
          arith,
          L.acquire_fence now slug holder ttl s r k p taken,
          L.acquire_token now slug holder ttl s r taken,
          eq_iff (L.key slug) k,
        )
        | inr (e, refused) ↦ L.refuse_fence now slug holder ttl s e k p refused
      ]

  -- No call takes a fence counter back.
  pub step_fence_le :
      (c : ℕ × Call) (s : R.State) (k : String) → L.Plain k → L.fence s k ≤ L.fence (step R c s) k
  unfolding step
  step_fence_le (now, acquires slug holder ttl) s k p = acquire_fence_le now slug holder ttl s k p
  step_fence_le (now, renews slug holder token ttl) s k p =
      omega (arith, L.renew_fence now slug holder token ttl s k)
  step_fence_le (now, releases slug holder token) s k p =
      omega (arith, L.release_fence slug holder token s k)

  pub run_fence_le :
      (cs : List (ℕ × Call)) (s : R.State) (k : String)
      → L.Plain k
      → L.fence s k ≤ L.fence (run R cs s) k
  unfolding run
  run_fence_le [] s k p = omega arith
  run_fence_le (c ∷ cs) s k p =
      omega (arith, step_fence_le c s k p, run_fence_le cs (step R c s) k p)

  -- A call creates no lease for anybody but its own holder.
  pub step_mine :
      (c : ℕ × Call) (s : R.State) (k : String) (r : LockRecord)
      → PlainCall c
      → L.Valid s
      → r.holder_id ≢ holder_of c.1
      → L.view (step R c s) k ≡ some r
      → L.view s k ≡ some r
  unfolding step
  step_mine (now, acquires slug holder ttl) s k r p v other h =
      elim (Result-cases (R.try_acquire now slug holder ttl s).0) [
        | inl (new, taken) ↦ ground (
          arith,
          L.acquire_view now slug holder ttl s new k taken,
          L.acquire_token now slug holder ttl s new taken,
        )
        | inr (e, refused) ↦ sym (L.refuse_view now slug holder ttl s e k refused) ∙ h
      ]
  step_mine (now, renews slug holder token ttl) s k r p v other h = ground (
    arith,
    L.renew_view now slug holder token ttl s k p v,
    eq_iff (L.key slug) k,
    eq_iff r.holder_id holder,
  )
  step_mine (now, releases slug holder token) s k r p v other h =
      ground (arith, L.release_view slug holder token s k p v)

  -- A call of somebody else leaves a live lease alone.
  pub step_keeps :
      (c : ℕ × Call) (s : R.State) (k : String) (r : LockRecord)
      → PlainCall c
      → L.Valid s
      → r.holder_id ≢ holder_of c.1
      → c.0 < r.expires_at
      → L.view s k ≡ some r
      → L.view (step R c s) k ≡ some r
  unfolding step
  step_keeps (now, acquires slug holder ttl) s k r p v other live h =
      elim (Result-cases (R.try_acquire now slug holder ttl s).0) [
        | inl (new, taken) ↦ ground (
          arith,
          L.acquire_view now slug holder ttl s new k taken,
          L.acquire_expired now slug holder ttl s new r taken,
          eq_iff (L.key slug) k,
        )
        | inr (e, refused) ↦ L.refuse_view now slug holder ttl s e k refused ∙ h
      ]
  step_keeps (now, renews slug holder token ttl) s k r p v other live h = ground (
    arith,
    L.renew_view now slug holder token ttl s k p v,
    eq_iff (L.key slug) k,
    eq_iff r.holder_id holder,
  )
  step_keeps (now, releases slug holder token) s k r p v other live h = ground (
    arith,
    L.release_view slug holder token s k p v,
    eq_iff (L.key slug) k,
    eq_iff r.holder_id holder,
  )
