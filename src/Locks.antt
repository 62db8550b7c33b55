-- ===== src/Locks.antt =====
-- memu/neighborhood_lock.py: leases on wiki slugs, the two registries that keep them, and the
-- context manager that takes a slug with its neighbours. Times are microseconds.
pub mod Record
pub mod Registry
pub mod Sqlite
pub mod Markdown
pub mod Neighborhood
pub mod Calls
pub mod Fencing
