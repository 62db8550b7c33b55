-- ===== src/Locks/Sqlite/Laws/Acquire.antt =====
-- memu/neighborhood_lock.py: both ends of `SqliteLockRegistry.try_acquire`, on the tables.
use fumemory.Base.{
  ℕ, ◌+◌, ◌<◌, ◌≤◌, String, str_eq, ◌≡◌, ap, ◌∙◌, some, Option-cases, Result-cases, ok, err, arith,
  ◌⊎◌, inl, inr, if◌then◌else◌,
}
use fumemory.Base.Dict.{get}
use fumemory.Locks.Record.{Conflict, held}
use fumemory.Locks.Registry.{claim}
use fumemory.Locks.Sqlite.{Row, Db, current_token, try_acquire, try_acquire_row, insert_lock, peek}
use fumemory.Locks.Sqlite.Laws.{sqlite_laws}

refusal :
    (now : ℕ) (slug holder : String) (ttl : ℕ) (db : Db) (e : Conflict)
    → (try_acquire now slug holder ttl db).0 ≡ err e
    → (row : Row) × (get db.locks slug ≡ some row)
      × (now < row.expires_at)
      × ((try_acquire now slug holder ttl db).0 ≡ err held)
      × ((try_acquire now slug holder ttl db).1 ≡ db)
unfolding try_acquire try_acquire_row insert_lock
refusal now slug holder ttl db e refused = elim (Option-cases (get db.locks slug)) [
  | inl there ↦ absurd (ground (arith, refused, there))
  | inr (row, there) ↦ (
    row,
    there,
    ground (arith, refused, there),
    ground (arith, refused, there),
    ground (arith, refused, there),
  )
]

-- Either the slug has a row that has not run out, and the attempt is refused and changes nothing;
-- or the lock is taken with the token after the last one of the slug, a row that was there had run
-- out, and of all slugs only this one gets a new lease and a new counter.
pub try_acquire_lem :
    (now : ℕ) (slug holder : String) (ttl : ℕ) (db : Db)
    → let (r, db') = try_acquire now slug holder ttl db in
      let token = current_token (get db.fence_tokens slug) + 1 in
      ((row : Row) × (get db.locks slug ≡ some row)
        × (now < row.expires_at)
        × (r ≡ err held)
        × (db' ≡ db))
      ⊎ ((r ≡ ok (claim now slug holder ttl token))
          × ((row : Row) → get db.locks slug ≡ some row → row.expires_at ≤ now)
          × ((k : String)
              → peek k db'
                ≡ (if str_eq slug k then some (claim now slug holder ttl token) else peek k db))
          × ((k : String)
              → current_token (get db'.fence_tokens k)
                ≡ (if str_eq slug k then token else current_token (get db.fence_tokens k))))
unfolding sqlite_laws peek
try_acquire_lem now slug holder ttl db =
    elim (Result-cases (try_acquire now slug holder ttl db).0) [
      | inr (e, refused) ↦ inl (refusal now slug holder ttl db e refused)
      | inl (r, taken) ↦
          let token : r ≡ claim now slug holder ttl (current_token (get db.fence_tokens slug) + 1) =
            sqlite_laws.acquire_token now slug holder ttl db r taken in
          inr (
            taken ∙ ap ok token,
            λ row there. unfold try_acquire try_acquire_row in ground (arith, taken, there),
            λ k. sqlite_laws.acquire_view now slug holder ttl db r k taken ∙ ground (arith, token),
            λ k.
                sqlite_laws.acquire_fence now slug holder ttl db r k tt taken
                ∙ ground (arith, token),
          )
    ]
