-- ===== src/Store.antt =====
-- internal/store/state.go: the persisted state, and the file store with its version check.
pub mod File
pub mod Interface
mod Tests
use myworktree.Prelude.{ℕ, String, List, Assoc, ℤ}

pub record ManagedWorktree : Type 0 where
  pub id : String
  pub name : String
  pub path : String
  pub branch : String
  pub base_ref : String
  pub created_at : String

-- `kind_blob` is the blob's JSON value, written compactly.
pub record ManagedInstance : Type 0 where
  pub id : String
  pub worktree_id : String
  pub worktree_name : String
  pub tag_id : String
  pub name : String
  pub command : String
  pub cwd : String
  pub env : Assoc String
  pub kind : String
  pub extra : Assoc String
  pub kind_blob : List ℕ
  pub pid : ℕ
  pub status : String
  pub last_error : String
  pub exit_code : ℤ
  pub restarted_from : String
  pub restarted_to : String
  pub created_at : String
  pub stopped_at : String

-- Go's nil map and the empty map read alike, so `tab_order` is a list of entries.
pub record State : Type 0 where
  pub worktrees : List ManagedWorktree
  pub instances : List ManagedInstance
  pub tab_order : Assoc (List String)
  pub version : ℕ

abbrev pub zero_state : State
zero_state = record { worktrees = List.[]; instances = List.[]; tab_order = List.[]; version = 0 }

-- The errors that callers tell apart, and the rest.
pub data Error : Type 0 where
  version_conflict : Error
  not_found : Error
  failure : String → Error

pub data Result {ℓ} (A : Type ℓ) : Type ℓ where
  ok : A → Result A
  err : Error → Result A
