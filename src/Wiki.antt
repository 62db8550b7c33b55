-- ===== src/Wiki.antt =====
-- memu/wiki: how the vault's files reach the index.
pub mod Frontmatter
pub mod Sync
pub mod SlugRegistry
mod Tests
