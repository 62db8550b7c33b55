-- ===== src/Lanes.antt =====
-- memu/lane_lock.py: lane locks with fencing tokens on two key-value buckets, and the execution of a
-- task under them. Times are microseconds.
pub mod Model
pub mod Acquire
pub mod Execution
pub mod Orphans
