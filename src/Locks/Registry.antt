-- ===== src/Locks/Registry.antt =====
-- memu/neighborhood_lock.py: the protocol `LockRegistry`, with the laws that its clients rely on.
-- A registry keeps its leases by a storage key of the slug: the slug itself, or a file name.
use fumemory.Base.{
  ℕ, ◌+◌, ◌≤◌, String, str_eq, ◌≡◌, refl, arith, Bool, true, false, ◌&&◌, Option, none, some,
  Result, ok, err, if◌then◌else◌,
}
use fumemory.Locks.Record.{LockRecord, Conflict, owns}

pub record Registry : Type 1 where
  pub State : Type 0
  pub try_acquire : ℕ → String → String → ℕ → State → Result Conflict LockRecord × State
  pub renew : ℕ → String → String → ℕ → ℕ → State → Result Conflict LockRecord × State
  pub release : String → String → ℕ → State → Bool × State
  pub peek : String → State → Option LockRecord

-- The record of a lease that is taken at `now`.
abbrev pub claim : ℕ → String → String → ℕ → ℕ → LockRecord
claim now slug holder ttl token = record {
  slug = slug;
  holder_id = holder;
  fencing_token = token;
  acquired_at = now;
  expires_at = now + ttl;
}

abbrev pub extend : ℕ → Option LockRecord → Option LockRecord
extend expires none = none
extend expires (some r) = some (record r { expires_at = expires })

-- A renewed lease keeps its token.
pub extend_token :
    (renewed : Bool) (expires : ℕ) (o : Option LockRecord) (r : LockRecord)
    → (if renewed then extend expires o else o) ≡ some r
    → (old : LockRecord) × (o ≡ some old) × (old.fencing_token ≡ r.fencing_token)
extend_token true expires none r h = cc
extend_token true expires (some old) r h = (old, refl, ground arith)
extend_token false expires o r h = (r, h, refl)

pub record RegistryLaws (R : Registry) : Type 1 where
  pub key : String → String
  pub view : R.State → String → Option LockRecord
  pub fence : R.State → String → ℕ
  pub Valid : R.State → Type 0
  -- The keys whose fence counter no other key's writes touch.
  pub Plain : String → Type 0
  -- A lease carries the token that was issued last under its key.
  pub Valid-fence :
      (s : R.State) (k : String) (r : LockRecord)
      → Plain k
      → Valid s
      → view s k ≡ some r
      → r.fencing_token ≡ fence s k
  pub peek_lem : (slug : String) (s : R.State) → Valid s → R.peek slug s ≡ view s (key slug)
  pub acquire-Valid :
      (now : ℕ) (slug holder : String) (ttl : ℕ) (s : R.State)
      → Valid s
      → Valid (R.try_acquire now slug holder ttl s).1
  pub acquire_token :
      (now : ℕ) (slug holder : String) (ttl : ℕ) (s : R.State) (r : LockRecord)
      → (R.try_acquire now slug holder ttl s).0 ≡ ok r
      → r ≡ claim now slug holder ttl (fence s (key slug) + 1)
  pub acquire_view :
      (now : ℕ) (slug holder : String) (ttl : ℕ) (s : R.State) (r : LockRecord) (k : String)
      → (R.try_acquire now slug holder ttl s).0 ≡ ok r
      → view (R.try_acquire now slug holder ttl s).1 k
        ≡ (if str_eq (key slug) k then some r else view s k)
  pub acquire_fence :
      (now : ℕ) (slug holder : String) (ttl : ℕ) (s : R.State) (r : LockRecord) (k : String)
      → Plain k
      → (R.try_acquire now slug holder ttl s).0 ≡ ok r
      → fence (R.try_acquire now slug holder ttl s).1 k
        ≡ (if str_eq (key slug) k then r.fencing_token else fence s k)
  -- The lease that was there has run out.
  pub acquire_expired :
      (now : ℕ) (slug holder : String) (ttl : ℕ) (s : R.State) (r old : LockRecord)
      → (R.try_acquire now slug holder ttl s).0 ≡ ok r
      → view s (key slug) ≡ some old
      → old.expires_at ≤ now
  pub refuse_view :
      (now : ℕ) (slug holder : String) (ttl : ℕ) (s : R.State) (e : Conflict) (k : String)
      → (R.try_acquire now slug holder ttl s).0 ≡ err e
      → view (R.try_acquire now slug holder ttl s).1 k ≡ view s k
  pub refuse_fence :
      (now : ℕ) (slug holder : String) (ttl : ℕ) (s : R.State) (e : Conflict) (k : String)
      → Plain k
      → (R.try_acquire now slug holder ttl s).0 ≡ err e
      → fence s k ≤ fence (R.try_acquire now slug holder ttl s).1 k
  pub renew-Valid :
      (now : ℕ) (slug holder : String) (token ttl : ℕ) (s : R.State)
      → Plain (key slug)
      → Valid s
      → Valid (R.renew now slug holder token ttl s).1
  pub renew_ok :
      (now : ℕ) (slug holder : String) (token ttl : ℕ) (s : R.State)
      → Plain (key slug)
      → Valid s
      → owns (view s (key slug)) holder token ≡ true
      → (R.renew now slug holder token ttl s).0 ≡ ok (claim now slug holder ttl token)
  pub renew_err :
      (now : ℕ) (slug holder : String) (token ttl : ℕ) (s : R.State)
      → Valid s
      → owns (view s (key slug)) holder token ≡ false
      → (e : Conflict) × (R.renew now slug holder token ttl s ≡ (err e, s))
  pub renew_view :
      (now : ℕ) (slug holder : String) (token ttl : ℕ) (s : R.State) (k : String)
      → Plain (key slug)
      → Valid s
      → view (R.renew now slug holder token ttl s).1 k ≡ (
          if owns (view s (key slug)) holder token && str_eq (key slug) k
          then extend (now + ttl) (view s k)
          else view s k)
  pub renew_fence :
      (now : ℕ) (slug holder : String) (token ttl : ℕ) (s : R.State) (k : String)
      → fence (R.renew now slug holder token ttl s).1 k ≡ fence s k
  pub release-Valid :
      (slug holder : String) (token : ℕ) (s : R.State)
      → Plain (key slug)
      → Valid s
      → Valid (R.release slug holder token s).1
  pub release_lem :
      (slug holder : String) (token : ℕ) (s : R.State)
      → Plain (key slug)
      → Valid s
      → (R.release slug holder token s).0 ≡ owns (view s (key slug)) holder token
  pub release_view :
      (slug holder : String) (token : ℕ) (s : R.State) (k : String)
      → Plain (key slug)
      → Valid s
      → view (R.release slug holder token s).1 k
        ≡ (if owns (view s (key slug)) holder token && str_eq (key slug) k then none else view s k)
  pub release_fence :
      (slug holder : String) (token : ℕ) (s : R.State) (k : String)
      → fence (R.release slug holder token s).1 k ≡ fence s k
