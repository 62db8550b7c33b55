-- ===== src/Locks/Sqlite/Laws/Tests.antt =====
-- memu/neighborhood_lock.py: the theorems on registries and locks at concrete databases.
use fumemory.Base.{
  ℕ, ◌+◌, ◌≤◌, ◌<◌, String, str_eq, eq_iff, ◌≡◌, ◌≢◌, refl, false, some, List, [], ◌∷◌, ok, err,
  arith, ◌⊎◌, if◌then◌else◌,
}
use fumemory.Base.Dict.{get, put, remove}
use fumemory.Locks.Record.{LockRecord, Conflict, held}
use fumemory.Locks.Registry.{claim}
use fumemory.Locks.Calls.{acquires, renews, releases, run}
use fumemory.Locks.Neighborhood.{NeighborhoodLock, targets, acquire_all, release_all, enter}
use fumemory.Locks.Neighborhood.Rollback.{enter_leaks_nothing}
use fumemory.Locks.Neighborhood.Duplicates.{alone}
use fumemory.Locks.Fencing.{stale_refused, lease_kept}
use fumemory.Locks.Sqlite.{
  Row, Db, current_token, bump_fence, insert_lock, try_acquire, try_acquire_row, renew, release,
  release_row, row_matches, to_record, peek,
}
use fumemory.Locks.Sqlite.Laws.{sqlite, sqlite_laws}
use fumemory.Locks.Sqlite.Laws.Acquire.{try_acquire_lem}

abbrev fresh : Db
fresh = record { locks = []; fence_tokens = [] }

abbrev one_row : String → String → ℕ → Db
one_row slug holder until = record {
  locks =
      (slug, record { holder_id = holder; fencing_token = 1; acquired_at = 0; expires_at = until })
      ∷ [];
  fence_tokens = (slug, 1) ∷ [];
}

try_acquire_lem_example :
    ((row : Row) × (get (one_row "a" "x" 10).locks "a" ≡ some row)
      × (5 < row.expires_at)
      × ((try_acquire 5 "a" "y" 10 (one_row "a" "x" 10)).0 ≡ err held)
      × ((try_acquire 5 "a" "y" 10 (one_row "a" "x" 10)).1 ≡ one_row "a" "x" 10))
    ⊎ (((try_acquire 5 "a" "y" 10 (one_row "a" "x" 10)).0
          ≡ ok (claim 5 "a" "y" 10 (current_token (get (one_row "a" "x" 10).fence_tokens "a") + 1)))
        × ((row : Row) → get (one_row "a" "x" 10).locks "a" ≡ some row → row.expires_at ≤ 5)
        × ((k : String)
            → peek k (try_acquire 5 "a" "y" 10 (one_row "a" "x" 10)).1 ≡ (
                if str_eq "a" k
                then some (
                    claim 5 "a" "y" 10
                      (current_token (get (one_row "a" "x" 10).fence_tokens "a") + 1))
                else peek k (one_row "a" "x" 10)))
        × ((k : String)
            → current_token (get (try_acquire 5 "a" "y" 10 (one_row "a" "x" 10)).1.fence_tokens k)
              ≡ (if str_eq "a" k
                  then current_token (get (one_row "a" "x" 10).fence_tokens "a") + 1
                  else current_token (get (one_row "a" "x" 10).fence_tokens k))))
try_acquire_lem_example = try_acquire_lem 5 "a" "y" 10 (one_row "a" "x" 10)

-- "x" takes the lock at 0 for 10, and "y" takes it at 20.
abbrev taken : Db
taken = (sqlite.try_acquire 0 "a" "x" 10 fresh).1

abbrev taken_over : Db
taken_over = (sqlite.try_acquire 20 "a" "y" 10 taken).1

fresh-Valid : sqlite_laws.Valid fresh
unfolding sqlite_laws get to_record
fresh-Valid k r h = absurd (ground (arith, h))

taken_over-Valid : sqlite_laws.Valid taken_over
taken_over-Valid =
    sqlite_laws.acquire-Valid 20 "a" "y" 10 taken
      (sqlite_laws.acquire-Valid 0 "a" "x" 10 fresh fresh-Valid)

stale_refused_example :
    ((e : Conflict) × (renew 25 "a" "x" 1 10 taken_over ≡ (err e, taken_over)))
    × ((release "a" "x" 1 taken_over).0 ≡ false)
    × ((k : String)
        → sqlite_laws.view (release "a" "x" 1 taken_over).1 k ≡ sqlite_laws.view taken_over k)
unfolding try_acquire try_acquire_row insert_lock bump_fence current_token get put remove run
    sqlite_laws
stale_refused_example =
    stale_refused sqlite_laws 0 20 25 "a" "a" "x" "y" 10 10 fresh taken taken_over
      (claim 0 "a" "x" 10 1) (claim 20 "a" "y" 10 2) [] [] tt refl taken_over-Valid refl refl refl
      refl

x≢y : ◌≢◌ {A = String} "x" "y"
x≢y e = absurd (ground (arith, e, eq_iff "x" "y"))

-- While "x" holds the lock until 10, "y" tries to take it, to renew it and to release it.
lease_kept_example :
    sqlite_laws.view
      (run sqlite
        ((5, acquires "a" "y" 10) ∷ (6, renews "a" "y" 1 10) ∷ (7, releases "a" "y" 1) ∷ [])
        taken)
      "a"
    ≡ some (claim 0 "a" "x" 10 1)
unfolding try_acquire try_acquire_row insert_lock bump_fence current_token get put remove to_record
    sqlite_laws
lease_kept_example =
    lease_kept sqlite_laws
      ((5, acquires "a" "y" 10) ∷ (6, renews "a" "y" 1 10) ∷ (7, releases "a" "y" 1) ∷ []) taken "a"
      (claim 0 "a" "x" 10 1) (tt, (tt, (tt, tt)))
      ((x≢y, ground arith), ((x≢y, ground arith), ((x≢y, ground arith), tt)))
      (sqlite_laws.acquire-Valid 0 "a" "x" 10 fresh fresh-Valid) refl

abbrev lock_on : List String → NeighborhoodLock
lock_on neighbors = record {
  slug = "a";
  neighbors = neighbors;
  holder_id = "x";
  ttl = 10;
  renew_interval = 2;
  records = [];
}

-- "y" holds the lock on "b", and "x" one on "c".
abbrev two_rows : Db
two_rows = record {
  locks =
      ("b", record { holder_id = "y"; fencing_token = 1; acquired_at = 0; expires_at = 100 })
      ∷ ("c", record { holder_id = "x"; fencing_token = 4; acquired_at = 0; expires_at = 100 })
      ∷ [];
  fence_tokens = ("b", 1) ∷ ("c", 4) ∷ [];
}

abbrev lease_c : LockRecord
lease_c = claim 0 "c" "x" 100 4

two_rows-Valid : sqlite_laws.Valid two_rows
unfolding sqlite_laws get to_record current_token
two_rows-Valid k r h = ground (arith, h)

enter_leaks_nothing_example : sqlite_laws.view two_rows "c" ≡ some lease_c
unfolding try_acquire try_acquire_row insert_lock bump_fence current_token get put remove to_record
    sqlite_laws release release_row row_matches enter targets run acquire_all release_all
enter_leaks_nothing_example =
    enter_leaks_nothing sqlite_laws (λ i. 1) alone (lock_on ("b" ∷ [])) (λ i. tt) (λ i. tt) two_rows
      held "c" lease_c (tt, (tt, tt)) two_rows-Valid refl refl refl

abbrev with_a : Db
with_a = (sqlite.try_acquire 1 "a" "x" 10 two_rows).1

abbrev lease_a : LockRecord
lease_a = claim 1 "a" "x" 10 1

b≢a : ◌≢◌ {A = String} "b" "a"
b≢a e = absurd (ground (arith, e, eq_iff "b" "a"))

-- The neighbours are sorted after the slug, which is left out of them.
entered : NeighborhoodLock
entered = record (lock_on ("c" ∷ "a" ∷ "b" ∷ [])) {
  records = claim 1 "a" "x" 10 1 ∷ claim 1 "b" "x" 10 1 ∷ claim 1 "c" "x" 10 1 ∷ [];
}
