-- ===== src/Locks/Sqlite/Laws.antt =====
-- memu/neighborhood_lock.py: `SqliteLockRegistry` as a registry, and its laws.
pub mod Acquire
mod Tests
use fumemory.Base.{
  ℕ, ◌+◌, ◌≤◌, String, str_eq, eq_iff, ◌≡◌, refl, sym, ap, ◌∙◌, true, false, ◌&&◌, Option, none,
  some, Option-cases, inl, inr, ok, err, arith, if◌then◌else◌,
}
use fumemory.Base.Dict.{get, remove, get-put, get-remove}
use fumemory.Locks.Record.{LockRecord, Conflict, absent, mismatch, owns}
use fumemory.Locks.Registry.{Registry, RegistryLaws, claim, extend, extend_token}
use fumemory.Locks.Sqlite.{
  Db, current_token, bump_fence, insert_lock, try_acquire_row, try_acquire, row_matches, renew_row,
  renew, release_row, release, to_record, peek,
}

abbrev view : Db → String → Option LockRecord
view db k = to_record k (get db.locks k)

abbrev fence : Db → String → ℕ
fence db k = current_token (get db.fence_tokens k)

insert-view :
    (now : ℕ) (slug holder : String) (ttl : ℕ) (s : Db) (k : String)
    → view (insert_lock now slug holder ttl s).1 k
      ≡ (if str_eq slug k then some (claim now slug holder ttl (fence s slug + 1)) else view s k)
unfolding insert_lock bump_fence to_record
insert-view now slug holder ttl s k = simp get-put (ground (arith, eq_iff slug k))

insert-fence :
    (now : ℕ) (slug holder : String) (ttl : ℕ) (s : Db) (k : String)
    → fence (insert_lock now slug holder ttl s).1 k
      ≡ (if str_eq slug k then fence s slug + 1 else fence s k)
unfolding insert_lock bump_fence current_token
insert-fence now slug holder ttl s k = simp get-put (ground arith)

remove-view :
    (slug : String) (s : Db) (k : String)
    → view (record s { locks = remove s.locks slug }) k ≡ (if str_eq slug k then none else view s k)
unfolding to_record
remove-view slug s k = simp get-remove (ground arith)

-- What `Valid` says of a table: a row has the token that its slug was given last.
abbrev Valid : Db → Type 0
Valid s = (k : String) (r : LockRecord) → view s k ≡ some r → r.fencing_token ≡ fence s k

module _ (now : ℕ) (slug holder : String) (ttl : ℕ) (s : Db) where
  acquire_token :
      (r : LockRecord)
      → (try_acquire now slug holder ttl s).0 ≡ ok r
      → r ≡ claim now slug holder ttl (fence s slug + 1)
  unfolding try_acquire try_acquire_row insert_lock bump_fence
  acquire_token r h = ground arith

  acquire_view :
      (r : LockRecord) (k : String)
      → (try_acquire now slug holder ttl s).0 ≡ ok r
      → view (try_acquire now slug holder ttl s).1 k ≡ (if str_eq slug k then some r else view s k)
  unfolding try_acquire try_acquire_row
  acquire_view r k h = ground (
    arith,
    acquire_token r h,
    insert-view now slug holder ttl s k,
    insert-view now slug holder ttl (record s { locks = remove s.locks slug }) k,
    remove-view slug s k,
  )

  acquire_fence :
      (r : LockRecord) (k : String)
      → (try_acquire now slug holder ttl s).0 ≡ ok r
      → fence (try_acquire now slug holder ttl s).1 k
        ≡ (if str_eq slug k then r.fencing_token else fence s k)
  unfolding try_acquire try_acquire_row
  acquire_fence r k h = ground (
    arith,
    acquire_token r h,
    insert-fence now slug holder ttl s k,
    insert-fence now slug holder ttl (record s { locks = remove s.locks slug }) k,
  )

  acquire_expired :
      (r old : LockRecord)
      → (try_acquire now slug holder ttl s).0 ≡ ok r
      → view s slug ≡ some old
      → old.expires_at ≤ now
  unfolding try_acquire try_acquire_row to_record
  acquire_expired r old h v = ground arith

  -- A refused attempt leaves the database as it was.
  refuse :
      (e : Conflict)
      → (try_acquire now slug holder ttl s).0 ≡ err e
      → (try_acquire now slug holder ttl s).1 ≡ s
  unfolding try_acquire try_acquire_row insert_lock
  refuse e h = ground arith

  acquire-Valid : Valid s → Valid (try_acquire now slug holder ttl s).1
  unfolding try_acquire try_acquire_row
  acquire-Valid v k r h = ground (
    arith,
    v k r,
    insert-view now slug holder ttl s k,
    insert-view now slug holder ttl (record s { locks = remove s.locks slug }) k,
    insert-fence now slug holder ttl s k,
    insert-fence now slug holder ttl (record s { locks = remove s.locks slug }) k,
    remove-view slug s k,
    eq_iff slug k,
  )

module _ (now : ℕ) (slug holder : String) (token ttl : ℕ) (s : Db) where
  renew_ok :
      owns (view s slug) holder token ≡ true
      → (renew now slug holder token ttl s).0 ≡ ok (claim now slug holder ttl token)
  unfolding renew renew_row row_matches to_record
  renew_ok h = ground arith

  renew_err :
      owns (view s slug) holder token ≡ false
      → (e : Conflict) × (renew now slug holder token ttl s ≡ (err e, s))
  unfolding renew renew_row row_matches to_record
  renew_err h = elim (Option-cases (get s.locks slug)) [
    | inl e ↦ (absent, ground arith)
    | inr (row, e) ↦ (mismatch, ground arith)
  ]

  renew_view :
      (k : String)
      → view (renew now slug holder token ttl s).1 k ≡ (
          if owns (view s slug) holder token && str_eq slug k
          then extend (now + ttl) (view s k)
          else view s k)
  unfolding renew renew_row row_matches to_record
  renew_view k = elim (Option-cases (get s.locks slug)) [
    | inl e ↦ ground arith
    | inr (row, e) ↦
        ground
          (arith, eq_iff slug k, get-put s.locks slug (record row { expires_at = now + ttl }) k)
  ]

  renew_fence : (k : String) → fence (renew now slug holder token ttl s).1 k ≡ fence s k
  unfolding renew renew_row
  renew_fence k = ground arith

  renew-Valid : Valid s → Valid (renew now slug holder token ttl s).1
  renew-Valid v k r h =
      let (old, e, same) = extend_token _ (now + ttl) (view s k) r (sym (renew_view k) ∙ h) in
      omega (arith, v k old e, renew_fence k)

module _ (slug holder : String) (token : ℕ) (s : Db) where
  release_lem : (release slug holder token s).0 ≡ owns (view s slug) holder token
  unfolding release release_row row_matches to_record
  release_lem = ground arith

  release_view :
      (k : String)
      → view (release slug holder token s).1 k
        ≡ (if owns (view s slug) holder token && str_eq slug k then none else view s k)
  unfolding release release_row row_matches to_record
  release_view k = ground (arith, get-remove s.locks slug k)

  release_fence : (k : String) → fence (release slug holder token s).1 k ≡ fence s k
  unfolding release release_row
  release_fence k = ground arith

  release-Valid : Valid s → Valid (release slug holder token s).1
  release-Valid v k r h = rw release_fence (v k r (ground (arith, release_view k)))

peek-view : (slug : String) (s : Db) → peek slug s ≡ view s slug
unfolding peek
peek-view slug s = refl

abbrev pub sqlite : Registry
sqlite = record {
  State = Db;
  try_acquire = try_acquire;
  renew = renew;
  release = release;
  peek = peek;
}

-- `SqliteLockRegistry` keeps every law of the protocol, its keys being the slugs.
pub sqlite_laws : RegistryLaws sqlite
sqlite_laws = record {
  key = λ slug. slug;
  view = view;
  fence = fence;
  Valid = Valid;
  Plain = λ k. Unit;
  Valid-fence = λ s k r _ v h. v k r h;
  peek_lem = λ slug s v. peek-view slug s;
  acquire-Valid = acquire-Valid;
  acquire_token = acquire_token;
  acquire_view = acquire_view;
  acquire_fence = λ now slug holder ttl s r k _ h. acquire_fence now slug holder ttl s r k h;
  acquire_expired = acquire_expired;
  refuse_view =
      λ now slug holder ttl s e k h. ap (λ db. view db k) (refuse now slug holder ttl s e h);
  refuse_fence = λ now slug holder ttl s e k _ h.
      omega (arith, ap (λ (db : Db). fence db k) (refuse now slug holder ttl s e h));
  renew-Valid = λ now slug holder token ttl s _ v. renew-Valid now slug holder token ttl s v;
  renew_ok = λ now slug holder token ttl s _ v h. renew_ok now slug holder token ttl s h;
  renew_err = λ now slug holder token ttl s v h. renew_err now slug holder token ttl s h;
  renew_view = λ now slug holder token ttl s k _ v. renew_view now slug holder token ttl s k;
  renew_fence = renew_fence;
  release-Valid = λ slug holder token s _ v. release-Valid slug holder token s v;
  release_lem = λ slug holder token s _ v. release_lem slug holder token s;
  release_view = λ slug holder token s k _ v. release_view slug holder token s k;
  release_fence = release_fence;
}
