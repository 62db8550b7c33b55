-- ===== src/Storage.antt =====
-- memu/storage: the nodes of the wiki, and the two stores that keep them. Times are microseconds, the
-- floating-point numbers of a node are natural numbers, and the values of its dicts are texts.
pub mod Node
pub mod Sqlite
pub mod Markdown
mod Tests
