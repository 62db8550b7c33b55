-- ===== src/Locks/Markdown/Laws.antt =====
-- memu/neighborhood_lock.py: `MarkdownLockRegistry` as a registry, and its laws.
pub mod Acquire
mod Tests
use fumemory.Base.{
  ℕ, ◌+◌, ◌≤◌, ◌==◌, ltb, String, str_eq, eq_iff, eq_refl, ◌≡◌, refl, sym, ◌∙◌, Bool, true, false,
  ◌&&◌, ◌||◌, none, some, Option-cases, Result-cases, Bool-cases, inl, inr, Result, ok, err, arith,
  ◌≢◌, ◌⊎◌, if◌then◌else◌,
}
use fumemory.Base.Dict.{remove, get-put, get-remove}
use fumemory.Locks.Record.{LockRecord, Conflict, held, absent, mismatch, owns}
use fumemory.Locks.Registry.{Registry, RegistryLaws, claim, extend, extend_token}
use fumemory.Locks.Markdown.{
  Files, safe_name, tmp_name, read_lock, read_lock_file, read_fence, write_fence, bump_fence,
  create_lock, clear_expired, try_acquire, renew, release, peek,
}
use fumemory.Locks.Markdown.Attempts.{
  acquire_token, acquire_view, acquire_fence, acquire_expired, refuse_view, refuse_fence,
  acquire-Valid, Valid, is_tmp,
}

module _ (now : ℕ) (slug holder : String) (token ttl : ℕ) (fs : Files) where
  renew_ok :
      is_tmp (safe_name slug) ≡ false
      → Valid fs
      → owns (read_lock_file fs (safe_name slug)) holder token ≡ true
      → (renew now slug holder token ttl fs).0 ≡ ok (claim now slug holder ttl token)
  renew_ok p v h = elim (Option-cases (read_lock_file fs (safe_name slug))) [
    | inl e ↦ ground arith
    | inr (old, e) ↦ unfold renew in ground (arith, v (safe_name slug) old p e)
  ]

  renew_err :
      owns (read_lock_file fs (safe_name slug)) holder token ≡ false
      → (e : Conflict) × (renew now slug holder token ttl fs ≡ (err e, fs))
  renew_err h = elim (Bool-cases (read_fence fs (safe_name slug) == token)) [
    | inl same ↦ elim (Option-cases (read_lock_file fs (safe_name slug))) [
      | inl e ↦ (absent, unfold renew in ground arith)
      | inr (old, e) ↦ (mismatch, unfold renew in ground arith)
    ]
    | inr differ ↦ (mismatch, unfold renew in ground arith)
  ]

  renew_view :
      (k : String)
      → is_tmp (safe_name slug) ≡ false
      → Valid fs
      → read_lock_file (renew now slug holder token ttl fs).1 k ≡ (
          if owns (read_lock_file fs (safe_name slug)) holder token && str_eq (safe_name slug) k
          then extend (now + ttl) (read_lock_file fs k)
          else read_lock_file fs k)
  renew_view k p v = elim (Option-cases (read_lock_file fs (safe_name slug))) [
    | inl e ↦ unfold renew in ground arith
    | inr (old, e) ↦
        unfold renew in
        ground (
          arith,
          v (safe_name slug) old p e,
          eq_iff (safe_name slug) k,
          get-put fs.lock_files (safe_name slug) (some (record old { expires_at = now + ttl })) k,
        )
  ]

  renew_fence : (k : String) → read_fence (renew now slug holder token ttl fs).1 k ≡ read_fence fs k
  unfolding renew
  renew_fence k = ground arith

  renew-Valid :
      is_tmp (safe_name slug) ≡ false → Valid fs → Valid (renew now slug holder token ttl fs).1
  renew-Valid q v k r p h =
      let (old, e, same) =
        extend_token _ (now + ttl) (read_lock_file fs k) r (sym (renew_view k q v) ∙ h) in
      omega (arith, v k old p e, renew_fence k)

module _ (slug holder : String) (token : ℕ) (fs : Files) where
  release_lem :
      is_tmp (safe_name slug) ≡ false
      → Valid fs
      → (release slug holder token fs).0 ≡ owns (read_lock_file fs (safe_name slug)) holder token
  release_lem p v = elim (Option-cases (read_lock_file fs (safe_name slug))) [
    | inl e ↦ unfold release in ground arith
    | inr (old, e) ↦ unfold release in ground (arith, v (safe_name slug) old p e)
  ]

  release_view :
      (k : String)
      → is_tmp (safe_name slug) ≡ false
      → Valid fs
      → read_lock_file (release slug holder token fs).1 k ≡ (
          if owns (read_lock_file fs (safe_name slug)) holder token && str_eq (safe_name slug) k
          then none
          else read_lock_file fs k)
  release_view k p v = elim (Option-cases (read_lock_file fs (safe_name slug))) [
    | inl e ↦ unfold release in ground arith
    | inr (old, e) ↦
        unfold release in
        ground (arith, v (safe_name slug) old p e, get-remove fs.lock_files (safe_name slug) k)
  ]

  release_fence : (k : String) → read_fence (release slug holder token fs).1 k ≡ read_fence fs k
  unfolding release
  release_fence k = ground arith

  release-Valid :
      is_tmp (safe_name slug) ≡ false → Valid fs → Valid (release slug holder token fs).1
  release-Valid q v k r p h = rw release_fence (v k r p (ground (arith, release_view k q v)))

peek-view : (slug : String) (s : Files) → peek slug s ≡ read_lock_file s (safe_name slug)
unfolding peek
peek-view slug s = refl

abbrev pub markdown : Registry
markdown = record {
  State = Files;
  try_acquire = try_acquire;
  renew = renew;
  release = release;
  peek = peek;
}

-- `MarkdownLockRegistry` keeps every law of the protocol, its keys being file names; the plain ones
-- do not end in ".tmp".
pub markdown_laws : RegistryLaws markdown
markdown_laws = record {
  key = safe_name;
  view = read_lock_file;
  fence = read_fence;
  Valid = Valid;
  Plain = λ k. is_tmp k ≡ false;
  Valid-fence = λ s k r p v h. v k r p h;
  peek_lem = λ slug s v. peek-view slug s;
  acquire-Valid = acquire-Valid;
  acquire_token = acquire_token;
  acquire_view = acquire_view;
  acquire_fence = acquire_fence;
  acquire_expired = acquire_expired;
  refuse_view = refuse_view;
  refuse_fence = refuse_fence;
  renew-Valid = renew-Valid;
  renew_ok = renew_ok;
  renew_err = λ now slug holder token ttl s v h. renew_err now slug holder token ttl s h;
  renew_view = renew_view;
  renew_fence = renew_fence;
  release-Valid = release-Valid;
  release_lem = release_lem;
  release_view = release_view;
  release_fence = release_fence;
}
