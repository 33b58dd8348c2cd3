-- ===== src/Repo.antt =====
-- backend/src/repo: the block and allow lists and the cache of answers.
pub mod Decide
pub mod Domains
pub mod Key
pub mod Database
pub mod ListFile
pub mod Cache
pub mod Pages
