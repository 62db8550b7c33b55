-- ===== src/Locks/Markdown.antt =====
-- memu/neighborhood_lock.py: `MarkdownLockRegistry`. A directory is a dict by file name. A lease
-- file holds what the registry wrote, or text that is no JSON (`none`); a fence file holds a
-- number, or text that is none (`none`).
pub mod Attempts
pub mod Laws
use Prim.Native.Char.{code}
use fumemory.Base.{
  ℕ, ◌+◌, ◌==◌, ltb, String, str_eq, Bool, true, false, ◌&&◌, Option, none, some, Result, ok, err,
  if◌then◌else◌,
}
use fumemory.Base.Dict.{Dict, get, put, remove}
use fumemory.Locks.Record.{LockRecord, Conflict, held, lost_race, absent, mismatch}
use fumemory.Locks.Registry.{claim}

pub record Files : Type 0 where
  pub lock_files : Dict (Option LockRecord)
  pub fence_files : Dict (Option ℕ)

-- `slug.replace("/", "__")`
unfoldable pub safe_name : String → String
safe_name String.[] = ""
safe_name (String.◌∷◌ c s) =
    if code c == b'/'
    then String.◌∷◌ "_" (String.◌∷◌ "_" (safe_name s))
    else String.◌∷◌ c (safe_name s)

-- `path.with_suffix(path.suffix + ".tmp")`
unfoldable pub tmp_name : String → String
tmp_name String.[] = ".tmp"
tmp_name (String.◌∷◌ c s) = String.◌∷◌ c (tmp_name s)

read_lock : Option (Option LockRecord) → Option LockRecord
read_lock none = none
read_lock (some content) = content

-- `_read_lock_file`
unfoldable pub read_lock_file : Files → String → Option LockRecord
unfolding read_lock
read_lock_file fs name = read_lock (get fs.lock_files name)

number_of : Option (Option ℕ) → ℕ
number_of (some (some n)) = n
number_of _ = 0

-- `_read_fence`
unfoldable pub read_fence : Files → String → ℕ
unfolding number_of
read_fence fs name = number_of (get fs.fence_files name)

-- `_atomic_write` in the fence directory: the renamed file is gone under its temporary name.
unfoldable pub write_fence : Files → String → ℕ → Files
write_fence fs name n = record fs {
  fence_files = put (remove fs.fence_files (tmp_name name)) name (some n);
}

-- `_bump_fence`
unfoldable pub bump_fence : Files → String → ℕ × Files
unfolding read_fence write_fence
bump_fence fs name = let n = read_fence fs name + 1 in (n, write_fence fs name n)

-- `os.open(..., O_CREAT | O_EXCL)` and the write of the payload.
create_lock : ℕ → String → String → ℕ → Files → Result Conflict LockRecord × Files
create_lock now slug holder ttl fs =
    let name = safe_name slug in
    let (new_token, bumped) = bump_fence fs name in
    let lease = claim now slug holder ttl new_token in
    elim (get bumped.lock_files name) [
      | some _ ↦ (err lost_race, bumped)
      | none ↦ (ok lease, record bumped { lock_files = put bumped.lock_files name (some lease) })
    ]

clear_expired :
    Option LockRecord → ℕ → String → String → ℕ → Files → Result Conflict LockRecord × Files
clear_expired none now slug holder ttl fs = create_lock now slug holder ttl fs
clear_expired (some existing) now slug holder ttl fs =
    if ltb now existing.expires_at
    then (err held, fs)
    else create_lock now slug holder ttl
        (record fs { lock_files = remove fs.lock_files (safe_name slug) })

unfoldable pub try_acquire : ℕ → String → String → ℕ → Files → Result Conflict LockRecord × Files
unfolding clear_expired create_lock bump_fence read_lock_file safe_name
try_acquire now slug holder ttl fs =
    clear_expired (read_lock_file fs (safe_name slug)) now slug holder ttl fs

payload_matches : LockRecord → String → ℕ → Bool
payload_matches p holder token = str_eq p.holder_id holder && p.fencing_token == token

renew_lock :
    Option LockRecord → ℕ → String → String → ℕ → ℕ → Files → Result Conflict LockRecord × Files
renew_lock none now slug holder token ttl fs = (err absent, fs)
renew_lock (some p) now slug holder token ttl fs =
    if payload_matches p holder token
    then (
      ok (claim now slug holder ttl token),
      record fs {
        lock_files =
            put fs.lock_files (safe_name slug) (some (record p { expires_at = now + ttl }));
      },
    )
    else (err mismatch, fs)

unfoldable pub renew : ℕ → String → String → ℕ → ℕ → Files → Result Conflict LockRecord × Files
unfolding renew_lock payload_matches read_lock_file read_fence safe_name
renew now slug holder token ttl fs =
    if read_fence fs (safe_name slug) == token
    then renew_lock (read_lock_file fs (safe_name slug)) now slug holder token ttl fs
    else (err mismatch, fs)

release_lock : Option LockRecord → String → String → ℕ → Files → Bool × Files
release_lock none slug holder token fs = (false, fs)
release_lock (some p) slug holder token fs =
    if payload_matches p holder token
    then (if read_fence fs (safe_name slug) == token
        then (true, record fs { lock_files = remove fs.lock_files (safe_name slug) })
        else (false, fs))
    else (false, fs)

unfoldable pub release : String → String → ℕ → Files → Bool × Files
unfolding release_lock payload_matches read_lock_file read_fence safe_name
release slug holder token fs =
    release_lock (read_lock_file fs (safe_name slug)) slug holder token fs

unfoldable pub peek : String → Files → Option LockRecord
unfolding read_lock_file safe_name
peek slug fs = read_lock_file fs (safe_name slug)
