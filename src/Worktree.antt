-- ===== src/Worktree.antt =====
-- internal/worktree/worktree.go and gitlist.go: the worktrees of a repository and their records.
pub mod Names
pub mod Manager
pub mod Porcelain
mod Tests
