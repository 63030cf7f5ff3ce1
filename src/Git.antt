-- ===== src/Git.antt =====
-- internal/gitx: what the server asks of git. A repository is what git answers to arguments.
pub mod Text
pub mod Branches
pub mod Diverged
mod Tests
