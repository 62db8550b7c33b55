-- ===== src/Locks/Neighborhood.antt =====
-- memu/neighborhood_lock.py: `NeighborhoodLock`, the context manager over any registry. Each call of
-- the registry is an await: `clock i` is the time that the i-th call reads, and `others i` are the
-- calls that other agents make before it. The renewer task is `renew_all`, once for each wake-up.
pub mod Rollback
pub mod Duplicates
use Prim.Native.Nat.{Ordering}
use Prim.Native.String.{compare}
use fumemory.Base.{
  ℕ, suc, ◌+◌, leb, String, str_eq, Bool, true, false, ◌&&◌, Option, none, some, List, [], ◌∷◌,
  ◌++◌, Result, ok, err, if◌then◌else◌,
}
use fumemory.Locks.Record.{LockRecord, Conflict}
use fumemory.Locks.Registry.{Registry}
use fumemory.Locks.Calls.{Call, run}

pub data ConfigError : Type 0 where
  interval_not_positive interval_too_long : ConfigError

pub record NeighborhoodLock : Type 0 where
  pub slug : String
  pub neighbors : List String
  pub holder_id : String
  pub ttl : ℕ
  pub renew_interval : ℕ
  pub records : List LockRecord

-- `holder_id or uuid.uuid4().hex`
holder_or : Option String → String → String
holder_or none fresh = fresh
holder_or (some h) fresh = if str_eq h "" then fresh else h

-- `__init__`
unfoldable pub make :
    String → List String → Option String → String → ℕ → ℕ → Result ConfigError NeighborhoodLock
unfolding holder_or
make slug neighbors holder fresh ttl interval =
    if leb interval 0
    then err interval_not_positive
    else if leb ttl interval
    then err interval_too_long
    else ok (record {
      slug = slug;
      neighbors = neighbors;
      holder_id = holder_or holder fresh;
      ttl = ttl;
      renew_interval = interval;
      records = [];
    })

str_leb : String → String → Bool
str_leb a b = elim (compare a b) [ Ordering.gt ↦ false | _ ↦ true ]

insert_sorted : String → List String → List String
insert_sorted x [] = x ∷ []
insert_sorted x (y ∷ ys) = if str_leb x y then x ∷ y ∷ ys else y ∷ insert_sorted x ys

-- `sorted(s for s in self.neighbors if s != self.slug)`
sorted_without : String → List String → List String
sorted_without slug [] = []
sorted_without slug (n ∷ ns) =
    let rest = sorted_without slug ns in if str_eq n slug then rest else insert_sorted n rest

unfoldable pub targets : NeighborhoodLock → List String
unfolding sorted_without insert_sorted str_leb
targets lock = lock.slug ∷ sorted_without lock.slug lock.neighbors

module _ (R : Registry) (clock : ℕ → ℕ) (others : ℕ → List (ℕ × Call)) where
  -- The state that the i-th call finds.
  abbrev pub found : ℕ → R.State → R.State
  found i s = run R (others i) s

  -- The loop of `__aenter__`: the conflict that stopped it, what was acquired, and the calls made.
  unfoldable pub acquire_all :
      String
      → ℕ
      → ℕ
      → List String
      → List LockRecord
      → R.State
      → Option Conflict × List LockRecord × ℕ × R.State
  acquire_all holder ttl i [] acquired s = (none, acquired, i, s)
  acquire_all holder ttl i (slug ∷ slugs) acquired s =
      elim (R.try_acquire (clock i) slug holder ttl (found i s)).0 [
        | ok r ↦
            acquire_all holder ttl (suc i) slugs (acquired ++ r ∷ [])
              (R.try_acquire (clock i) slug holder ttl (found i s)).1
        | err e ↦ (some e, acquired, suc i, (R.try_acquire (clock i) slug holder ttl (found i s)).1)
      ]

  -- The release loops of `__aenter__` and of `__aexit__`.
  unfoldable pub release_all : ℕ → List LockRecord → R.State → R.State
  release_all i [] s = s
  release_all i (r ∷ rs) s =
      release_all (suc i) rs (R.release r.slug r.holder_id r.fencing_token (found i s)).1

  -- `__aenter__`
  unfoldable pub enter : NeighborhoodLock → R.State → Result Conflict NeighborhoodLock × R.State
  enter lock s =
      let (stopped, acquired, i, s') = acquire_all lock.holder_id lock.ttl 0 (targets lock) [] s in
      elim stopped [
        | some e ↦ (err e, release_all i acquired s')
        | none ↦ (ok (record lock { records = acquired }), s')
      ]

  -- `__aexit__`, from the i-th call on.
  unfoldable pub exit : ℕ → NeighborhoodLock → R.State → NeighborhoodLock × R.State
  exit i lock s = (record lock { records = [] }, release_all i lock.records s)

  -- One round of `_renew_loop`: a conflict ends the task, and the records stay as they were.
  renew_each :
      ℕ → ℕ → List LockRecord → List LockRecord → R.State → Option (List LockRecord) × R.State
  renew_each ttl i [] renewed s = (some renewed, s)
  renew_each ttl i (r ∷ rs) renewed s =
      elim (R.renew (clock i) r.slug r.holder_id r.fencing_token ttl (found i s)).0 [
        | ok r' ↦
            renew_each ttl (suc i) rs (renewed ++ r' ∷ [])
              (R.renew (clock i) r.slug r.holder_id r.fencing_token ttl (found i s)).1
        | err e ↦ (none, (R.renew (clock i) r.slug r.holder_id r.fencing_token ttl (found i s)).1)
      ]

  unfoldable pub renew_all : ℕ → NeighborhoodLock → R.State → Bool × NeighborhoodLock × R.State
  unfolding renew_each
  renew_all i lock s =
      let (renewed, s') = renew_each lock.ttl i lock.records [] s in
      elim renewed [ some rs ↦ (true, record lock { records = rs }, s') | none ↦ (false, lock, s') ]
