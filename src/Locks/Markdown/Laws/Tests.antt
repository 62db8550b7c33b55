-- ===== src/Locks/Markdown/Laws/Tests.antt =====
-- memu/neighborhood_lock.py: the theorems on `MarkdownLockRegistry` at concrete files.
use fumemory.Base.{◌+◌, ◌≤◌, String, str_eq, ◌≡◌, refl, false, some, [], if◌then◌else◌}
use fumemory.Base.Dict.{get, put, remove}
use fumemory.Locks.Record.{LockRecord}
use fumemory.Locks.Registry.{claim}
use fumemory.Locks.Markdown.{
  Files, safe_name, tmp_name, read_lock, read_lock_file, number_of, read_fence, write_fence,
  bump_fence, create_lock, clear_expired, try_acquire,
}
use fumemory.Locks.Markdown.Attempts.{is_tmp}
use fumemory.Locks.Markdown.Laws.Acquire.{try_acquire_ok}

abbrev no_files : Files
no_files = record { lock_files = []; fence_files = [] }

try_acquire_ok_example :
    let fs' = (try_acquire 3 "a/b" "x" 10 no_files).1 in
    (claim 3 "a/b" "x" 10 1 ≡ claim 3 "a/b" "x" 10 (read_fence no_files (safe_name "a/b") + 1))
    × ((old : LockRecord)
        → read_lock_file no_files (safe_name "a/b") ≡ some old
        → old.expires_at ≤ 3)
    × ((k : String)
        → read_lock_file fs' k ≡ (
            if str_eq (safe_name "a/b") k
            then some (claim 3 "a/b" "x" 10 1)
            else read_lock_file no_files k))
    × ((k : String)
        → is_tmp k ≡ false
        → read_fence fs' k ≡ (if str_eq (safe_name "a/b") k then 1 else read_fence no_files k))
unfolding try_acquire safe_name read_lock read_lock_file number_of read_fence write_fence bump_fence
    create_lock clear_expired get put remove tmp_name
try_acquire_ok_example = try_acquire_ok 3 "a/b" "x" 10 no_files (claim 3 "a/b" "x" 10 1) refl
