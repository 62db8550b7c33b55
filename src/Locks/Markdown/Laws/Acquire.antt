-- ===== src/Locks/Markdown/Laws/Acquire.antt =====
-- memu/neighborhood_lock.py: what `MarkdownLockRegistry.try_acquire` leaves in the files.
use fumemory.Base.{ℕ, ◌+◌, ◌≤◌, String, str_eq, ◌≡◌, false, some, ok, if◌then◌else◌}
use fumemory.Locks.Record.{LockRecord}
use fumemory.Locks.Registry.{claim}
use fumemory.Locks.Markdown.{Files, safe_name, read_lock_file, read_fence, try_acquire}
use fumemory.Locks.Markdown.Attempts.{is_tmp}
use fumemory.Locks.Markdown.Laws.{markdown_laws}

-- An attempt that succeeds takes the lock with the token after the one in the slug's fence file. A
-- lease that was there had run out, only the slug's own lease file changes, and of the fence files
-- whose names do not end in ".tmp" only the slug's own.
pub try_acquire_ok :
    (now : ℕ) (slug holder : String) (ttl : ℕ) (fs : Files) (r : LockRecord)
    → (try_acquire now slug holder ttl fs).0 ≡ ok r
    → let fs' = (try_acquire now slug holder ttl fs).1 in
      (r ≡ claim now slug holder ttl (read_fence fs (safe_name slug) + 1))
      × ((old : LockRecord) → read_lock_file fs (safe_name slug) ≡ some old → old.expires_at ≤ now)
      × ((k : String)
          → read_lock_file fs' k
            ≡ (if str_eq (safe_name slug) k then some r else read_lock_file fs k))
      × ((k : String)
          → is_tmp k ≡ false
          → read_fence fs' k
            ≡ (if str_eq (safe_name slug) k then r.fencing_token else read_fence fs k))
unfolding markdown_laws
try_acquire_ok now slug holder ttl fs r h = (
  markdown_laws.acquire_token now slug holder ttl fs r h,
  λ old there. markdown_laws.acquire_expired now slug holder ttl fs r old h there,
  λ k. markdown_laws.acquire_view now slug holder ttl fs r k h,
  λ k p. markdown_laws.acquire_fence now slug holder ttl fs r k p h,
)
