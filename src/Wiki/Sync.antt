-- ===== src/Wiki/Sync.antt =====
-- memu/wiki/sync.py: the watcher, the debouncer and the daemon. A snapshot maps a path to its time of
-- modification, of which only the order is used; times are counted in milliseconds. Of what the
-- `VaultSyncer` stores, `index` has for each path the time of modification of the text it read last;
-- the paths are those of notes that can be read, which it does not skip.
pub mod Follows
pub mod Misses
use fumemory.Base.{
  ℕ, ◌+◌, leb, ltb, String, str_eq, Bool, true, false, Option, none, some, List, [], ◌∷◌, map,
  if◌then◌else◌,
}
use fumemory.Base.Dict
use fumemory.Base.Dict.{Dict}

-- What the callback is told of a path; a file that is there comes with its time of modification.
pub data Change : Type 0 where
  created modified : ℕ → Change
  deleted : Change

pub record Daemon : Type 0 where
  pub deadlines : Dict ℕ
  pub index : Dict ℕ

abbrev pub deadline_of : Option ℕ → ℕ
deadline_of none = 0
deadline_of (some t) = t

-- `_Debouncer.should_fire`
unfoldable pub should_fire : Dict ℕ → String → ℕ → Bool
should_fire deadlines key now = leb (deadline_of (Dict.get deadlines key)) now

-- `_Debouncer.mark`
unfoldable pub mark : ℕ → Dict ℕ → String → ℕ → Dict ℕ
mark window_ms deadlines key now = Dict.put deadlines key (now + window_ms)

-- `handle_delete`, which leaves the stored node, and `reindex_file`
unfoldable pub reindex : String → Change → Dict ℕ → Dict ℕ
reindex path (modified t) index = Dict.put index path t
reindex path (created t) index = Dict.put index path t
reindex path deleted index = index

module _ (window_ms now : ℕ) where
  -- `_handle`
  unfoldable pub handle : String → Change → Daemon → Daemon
  handle path change d =
      if should_fire d.deadlines path now
      then record {
        deadlines = mark window_ms d.deadlines path now;
        index = reindex path change d.index;
      }
      else d

  unfoldable pub dispatch_file : Dict ℕ → String → ℕ → Daemon → Daemon
  dispatch_file old path mtime d = elim (Dict.get old path) [
    | none ↦ handle path (created mtime) d
    | some prev ↦ if ltb prev mtime then handle path (modified mtime) d else d
  ]

  -- The first loop of `_diff_and_dispatch`
  unfoldable pub dispatch_files : Dict ℕ → Dict ℕ → Daemon → Daemon
  dispatch_files old [] d = d
  dispatch_files old ((path, mtime) ∷ new) d =
      dispatch_files old new (dispatch_file old path mtime d)

  unfoldable pub dispatch_missing : Dict ℕ → String → Daemon → Daemon
  dispatch_missing new path d = elim (Dict.get new path) [
    | none ↦ handle path deleted d
    | some _ ↦ d
  ]

  -- The second loop, whose order Python leaves open.
  unfoldable pub dispatch_deleted : Dict ℕ → Dict ℕ → Daemon → Daemon
  dispatch_deleted new [] d = d
  dispatch_deleted new ((path, mtime) ∷ old) d =
      dispatch_deleted new old (dispatch_missing new path d)

  -- `_diff_and_dispatch`
  unfoldable pub diff_and_dispatch : Dict ℕ → Dict ℕ → Daemon → Daemon
  diff_and_dispatch old new d = dispatch_deleted new old (dispatch_files old new d)
