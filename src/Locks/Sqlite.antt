-- ===== src/Locks/Sqlite.antt =====
-- memu/neighborhood_lock.py: `SqliteLockRegistry`. Each table is a dict by its primary key; the
-- asyncio lock makes a method one step, and a time column holds the time that it spells.
pub mod Laws
use fumemory.Base.{
  ℕ, suc, ◌+◌, ◌==◌, ltb, String, str_eq, Bool, true, false, ◌&&◌, Option, none, some, Result, ok,
  err, if◌then◌else◌,
}
use fumemory.Base.Dict.{Dict, get, put, remove}
use fumemory.Locks.Record.{LockRecord, Conflict, held, absent, mismatch}
use fumemory.Locks.Registry.{claim}

-- A row of `neighborhood_locks` without its key.
pub record Row : Type 0 where
  pub holder_id : String
  pub fencing_token : ℕ
  pub acquired_at : ℕ
  pub expires_at : ℕ

pub record Db : Type 0 where
  pub locks : Dict Row
  pub fence_tokens : Dict ℕ

pub current_token : Option ℕ → ℕ
current_token none = 0
current_token (some n) = n

-- The new token, and the table with it.
pub bump_fence : String → Db → ℕ × Db
unfolding current_token
bump_fence slug db =
    let new_token = current_token (get db.fence_tokens slug) + 1 in
    (new_token, record db { fence_tokens = put db.fence_tokens slug new_token })

insert_lock : ℕ → String → String → ℕ → Db → Result Conflict LockRecord × Db
insert_lock now slug holder ttl db =
    let (new_token, bumped) = bump_fence slug db in
    let row : Row = record {
      holder_id = holder;
      fencing_token = new_token;
      acquired_at = now;
      expires_at = now + ttl;
    } in
    (ok (claim now slug holder ttl new_token), record bumped { locks = put bumped.locks slug row })

try_acquire_row : Option Row → ℕ → String → String → ℕ → Db → Result Conflict LockRecord × Db
try_acquire_row none now slug holder ttl db = insert_lock now slug holder ttl db
try_acquire_row (some row) now slug holder ttl db =
    if ltb now row.expires_at
    then (err held, db)
    else insert_lock now slug holder ttl (record db { locks = remove db.locks slug })

pub try_acquire : ℕ → String → String → ℕ → Db → Result Conflict LockRecord × Db
try_acquire now slug holder ttl db = try_acquire_row (get db.locks slug) now slug holder ttl db

row_matches : Row → String → ℕ → Bool
row_matches row holder token = str_eq row.holder_id holder && row.fencing_token == token

renew_row : Option Row → ℕ → String → String → ℕ → ℕ → Db → Result Conflict LockRecord × Db
renew_row none now slug holder token ttl db = (err absent, db)
renew_row (some row) now slug holder token ttl db =
    if row_matches row holder token
    then (
      ok (claim now slug holder ttl token),
      record db { locks = put db.locks slug (record row { expires_at = now + ttl }) },
    )
    else (err mismatch, db)

pub renew : ℕ → String → String → ℕ → ℕ → Db → Result Conflict LockRecord × Db
renew now slug holder token ttl db = renew_row (get db.locks slug) now slug holder token ttl db

release_row : Option Row → String → String → ℕ → Db → Bool × Db
release_row none slug holder token db = (false, db)
release_row (some row) slug holder token db =
    if row_matches row holder token
    then (true, record db { locks = remove db.locks slug })
    else (false, db)

pub release : String → String → ℕ → Db → Bool × Db
release slug holder token db = release_row (get db.locks slug) slug holder token db

to_record : String → Option Row → Option LockRecord
to_record slug none = none
to_record slug (some row) = some (record {
  slug = slug;
  holder_id = row.holder_id;
  fencing_token = row.fencing_token;
  acquired_at = row.acquired_at;
  expires_at = row.expires_at;
})

pub peek : String → Db → Option LockRecord
peek slug db = to_record slug (get db.locks slug)
