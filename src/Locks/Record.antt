-- ===== src/Locks/Record.antt =====
-- memu/neighborhood_lock.py: `LockRecord`, and the reasons of a `NeighborhoodConflict`.
use fumemory.Base.{ℕ, ◌==◌, String, str_eq, Bool, false, ◌&&◌, Option, none, some}

pub record LockRecord : Type 0 where
  pub slug : String
  pub holder_id : String
  pub fencing_token : ℕ
  pub acquired_at : ℕ
  pub expires_at : ℕ

-- held: a live peer has the lease; lost_race: the lease file is there and could not be read;
-- absent: no lease; mismatch: another holder, or another fencing token.
pub data Conflict : Type 0 where
  held lost_race absent mismatch : Conflict

-- The test that `renew` and `release` make on the stored lease.
abbrev pub owns : Option LockRecord → String → ℕ → Bool
owns none holder token = false
owns (some r) holder token = str_eq r.holder_id holder && r.fencing_token == token
