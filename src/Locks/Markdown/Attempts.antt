-- ===== src/Locks/Markdown/Attempts.antt =====
-- memu/neighborhood_lock.py: the attempts on a `MarkdownLockRegistry`, by what they do to each key. A
-- plain key is a file name that is no temporary name of another fence file.
use fumemory.Base.{
  ℕ, ◌+◌, ◌≤◌, ltb, String, str_eq, eq_iff, eq_refl, ◌≡◌, refl, Bool, true, false, ◌||◌, none, some,
  Option-cases, Result-cases, Bool-cases, inl, inr, Result, ok, err, arith, ◌≢◌, ◌⊎◌, if◌then◌else◌,
}
use fumemory.Base.Dict.{remove, get-put, get-remove}
use fumemory.Locks.Record.{LockRecord, Conflict, held}
use fumemory.Locks.Registry.{claim}
use fumemory.Locks.Markdown.{
  Files, safe_name, tmp_name, read_lock, read_lock_file, read_fence, write_fence, bump_fence,
  create_lock, clear_expired, try_acquire,
}

-- Does the name end in ".tmp"?
unfoldable pub is_tmp : String → Bool
is_tmp String.[] = false
is_tmp (String.◌∷◌ c s) = str_eq (String.◌∷◌ c s) ".tmp" || is_tmp s

is_tmp-tmp_name : (s : String) → is_tmp (tmp_name s) ≡ true
unfolding is_tmp tmp_name
is_tmp-tmp_name String.[] = refl
is_tmp-tmp_name (String.◌∷◌ c s) = ground (arith, is_tmp-tmp_name s)

tmp_name_ne : (s k : String) → is_tmp k ≡ false → str_eq (tmp_name s) k ≡ false
tmp_name_ne s k h = ground (arith, eq_iff (tmp_name s) k, is_tmp-tmp_name s)

-- A write of one fence counter leaves the counters of plain names alone.
read-write_fence :
    (fs : Files) (name : String) (n : ℕ) (k : String)
    → is_tmp k ≡ false
    → read_fence (write_fence fs name n) k ≡ (if str_eq name k then n else read_fence fs k)
unfolding read_fence write_fence
read-write_fence fs name n k h = simp (get-put, get-remove) (ground (arith, tmp_name_ne name k h))

module _ (now : ℕ) (slug holder : String) (ttl : ℕ) (fs : Files) where
  create-token :
      (r : LockRecord)
      → (create_lock now slug holder ttl fs).0 ≡ ok r
      → r ≡ claim now slug holder ttl (read_fence fs (safe_name slug) + 1)
  unfolding create_lock bump_fence
  create-token r h = ground arith

  create-view :
      (r : LockRecord) (k : String)
      → (create_lock now slug holder ttl fs).0 ≡ ok r
      → read_lock_file (create_lock now slug holder ttl fs).1 k
        ≡ (if str_eq (safe_name slug) k then some r else read_lock_file fs k)
  unfolding create_lock bump_fence write_fence read_lock_file read_lock
  create-view r k h = ground (arith, get-put fs.lock_files (safe_name slug) (some r) k)

  create-fence :
      (k : String)
      → is_tmp k ≡ false
      → read_fence (create_lock now slug holder ttl fs).1 k
        ≡ (if str_eq (safe_name slug) k then read_fence fs k + 1 else read_fence fs k)
  unfolding create_lock bump_fence
  create-fence k h = ground (
    arith,
    read-write_fence fs (safe_name slug) (read_fence fs (safe_name slug) + 1) k h,
    eq_iff (safe_name slug) k,
  )

  create-refuse :
      (e : Conflict) (k : String)
      → (create_lock now slug holder ttl fs).0 ≡ err e
      → read_lock_file (create_lock now slug holder ttl fs).1 k ≡ read_lock_file fs k
  unfolding create_lock bump_fence write_fence read_lock_file
  create-refuse e k h = ground arith

-- The files after `lock_path.unlink(missing_ok=True)`.
abbrev unlinked : Files → String → Files
unlinked fs name = record fs { lock_files = remove fs.lock_files name }

unlinked-view :
    (fs : Files) (name k : String)
    → read_lock_file (unlinked fs name) k ≡ (if str_eq name k then none else read_lock_file fs k)
unfolding read_lock_file
unlinked-view fs name k = simp get-remove (ground arith)

unlinked-fence : (fs : Files) (name k : String) → read_fence (unlinked fs name) k ≡ read_fence fs k
unfolding read_fence
unlinked-fence fs name k = refl

-- The file that was there could be opened for a new lease once it was unlinked.
create-unlinked :
    (now : ℕ) (slug holder : String) (ttl : ℕ) (fs : Files) (e : Conflict)
    → (create_lock now slug holder ttl (unlinked fs (safe_name slug))).0 ≢ err e
unfolding create_lock bump_fence write_fence
create-unlinked now slug holder ttl fs e h =
    ground
      (arith, get-remove fs.lock_files (safe_name slug) (safe_name slug), eq_refl (safe_name slug))

abbrev pub Valid : Files → Type 0
Valid fs =
    (k : String) (r : LockRecord)
    → is_tmp k ≡ false
    → read_lock_file fs k ≡ some r
    → r.fencing_token ≡ read_fence fs k

module _ (now : ℕ) (slug holder : String) (ttl : ℕ) (fs : Files) where
  -- A live lease refuses the attempt; otherwise the file is made, once an expired one is unlinked.
  abbrev Attempt : Result Conflict LockRecord × Files → Type 0
  Attempt out =
      (out ≡ (err held, fs))
      ⊎ (out ≡ create_lock now slug holder ttl fs) × (read_lock_file fs (safe_name slug) ≡ none)
      ⊎ ((old : LockRecord) × (read_lock_file fs (safe_name slug) ≡ some old)
          × (old.expires_at ≤ now)
          × (out ≡ create_lock now slug holder ttl (unlinked fs (safe_name slug))))

  acquire-Attempt : Attempt (try_acquire now slug holder ttl fs)
  unfolding try_acquire clear_expired
  acquire-Attempt = elim (Option-cases (read_lock_file fs (safe_name slug))) [
    | inl e ↦ inr (inl (ground arith, e))
    | inr (old, e) ↦ elim (Bool-cases (ltb now old.expires_at)) [
      | inl live ↦ inl (ground arith)
      | inr over ↦ inr (inr (old, e, ground arith, ground arith))
    ]
  ]

  pub acquire_token :
      (r : LockRecord)
      → (try_acquire now slug holder ttl fs).0 ≡ ok r
      → r ≡ claim now slug holder ttl (read_fence fs (safe_name slug) + 1)
  acquire_token r h = ground (
    arith,
    acquire-Attempt,
    create-token now slug holder ttl fs r,
    create-token now slug holder ttl (unlinked fs (safe_name slug)) r,
    unlinked-fence fs (safe_name slug) (safe_name slug),
  )

  pub acquire_view :
      (r : LockRecord) (k : String)
      → (try_acquire now slug holder ttl fs).0 ≡ ok r
      → read_lock_file (try_acquire now slug holder ttl fs).1 k
        ≡ (if str_eq (safe_name slug) k then some r else read_lock_file fs k)
  acquire_view r k h = ground (
    arith,
    acquire-Attempt,
    create-view now slug holder ttl fs r k,
    create-view now slug holder ttl (unlinked fs (safe_name slug)) r k,
    unlinked-view fs (safe_name slug) k,
  )

  pub acquire_fence :
      (r : LockRecord) (k : String)
      → is_tmp k ≡ false
      → (try_acquire now slug holder ttl fs).0 ≡ ok r
      → read_fence (try_acquire now slug holder ttl fs).1 k
        ≡ (if str_eq (safe_name slug) k then r.fencing_token else read_fence fs k)
  acquire_fence r k p h = ground (
    arith,
    acquire-Attempt,
    acquire_token r h,
    create-fence now slug holder ttl fs k p,
    create-fence now slug holder ttl (unlinked fs (safe_name slug)) k p,
    unlinked-fence fs (safe_name slug) k,
    eq_iff (safe_name slug) k,
  )

  pub acquire_expired :
      (r old : LockRecord)
      → (try_acquire now slug holder ttl fs).0 ≡ ok r
      → read_lock_file fs (safe_name slug) ≡ some old
      → old.expires_at ≤ now
  acquire_expired r old h v = ground (arith, acquire-Attempt)

  pub refuse_view :
      (e : Conflict) (k : String)
      → (try_acquire now slug holder ttl fs).0 ≡ err e
      → read_lock_file (try_acquire now slug holder ttl fs).1 k ≡ read_lock_file fs k
  refuse_view e k h = ground (
    arith,
    acquire-Attempt,
    create-refuse now slug holder ttl fs e k,
    create-unlinked now slug holder ttl fs e,
  )

  pub refuse_fence :
      (e : Conflict) (k : String)
      → is_tmp k ≡ false
      → (try_acquire now slug holder ttl fs).0 ≡ err e
      → read_fence fs k ≤ read_fence (try_acquire now slug holder ttl fs).1 k
  refuse_fence e k p h = ground (
    arith,
    acquire-Attempt,
    create-fence now slug holder ttl fs k p,
    create-unlinked now slug holder ttl fs e,
  )

pub acquire-Valid :
    (now : ℕ) (slug holder : String) (ttl : ℕ) (fs : Files)
    → Valid fs
    → Valid (try_acquire now slug holder ttl fs).1
acquire-Valid now slug holder ttl fs v k r p h = elim (Result-cases attempt.0) [
  | inl (new, taken) ↦ ground (
    arith,
    v k r p,
    acquire_view now slug holder ttl fs new k taken,
    acquire_fence now slug holder ttl fs new k p taken,
  )
  | inr (e, refused) ↦ ground (
    arith,
    v k r p,
    acquire-Attempt now slug holder ttl fs,
    refuse_view now slug holder ttl fs e k refused,
    create-fence now slug holder ttl fs k p,
    create-unlinked now slug holder ttl fs e,
    eq_iff (safe_name slug) k,
  )
]
  where
    attempt : Result Conflict LockRecord × Files
    attempt = try_acquire now slug holder ttl fs
