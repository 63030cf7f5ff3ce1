-- ===== src/Worktree/Manager.antt =====
-- `Manager` of internal/worktree/worktree.go: listing, creating, adopting and deleting worktrees. Git,
-- the file system and the state file are a world `W` with the calls that the code makes of them.
pub mod Delete
pub mod Create
use myworktree.Prelude.{
  ℕ, zero, suc, ◌+◌, Bool, true, false, not, ◌&&◌, ◌||◌, Option, none, some, String, List, [], ◌∷◌,
  ◌++◌, str_eq, str_append, if◌then◌else◌, trim_space, trim_prefix, after_prefix, split_at_code,
  clean, base, dir, join, is_abs,
}
use myworktree.Store.{State, ManagedWorktree, Result, ok, err, failure, not_found}
use myworktree.Worktree.Porcelain as P
use myworktree.Worktree.Porcelain.{
  Bytes, DirtyWorktreeError, summarize_porcelain, count_ignored_porcelain, cap_dirty_porcelain,
}
use myworktree.Worktree.Names.{parse_branch_spec, slugify, free_name}

-- `os.Stat`: there, not there, or another error
pub data Stat : Type 0 where
  present : Stat
  absent : Stat
  unreadable : Stat

-- The calls of git, of the file system and of the state file. A query answers for the world it sees.
pub record Calls (W : Type 0) : Type 0 where
  pub branch_exists : String → W → Bool
  pub verify_ref : String → W → Bool
  pub list_porcelain : W → Option String
  pub status : String → W → Option Bytes
  pub status_ignored : String → W → Option Bytes
  pub stat : String → W → Stat
  pub worktree_add : String → String → String → W → Bool × W
  pub worktree_remove : Bool → String → W → Bool × W
  pub worktree_prune : W → Bool × W
  pub mkdir_all : String → W → Bool × W
  pub load : W → Result State × W
  pub save : State → W → Result (Unit {0}) × W

pub record Manager : Type 0 where
  pub git_root : String
  pub data_dir : String
  pub worktrees_dir : String

pub record GitWt : Type 0 where
  pub path : String
  pub branch : String

-- the state of the loop of `listGitWorktrees`: what is found, and the current entry
abbrev flush : GitWt → List GitWt
flush cur = if str_eq cur.path "" then [] else cur ∷ []

scan : GitWt → List String → List GitWt
scan cur [] = flush cur
scan cur (line ∷ lines) =
    let fresh = if str_eq cur.path "" then cur else record { path = ""; branch = "" } in
    elim (after_prefix "worktree " line) [
      | some rest ↦ flush cur ++ scan (record fresh { path = trim_space rest }) lines
      | none ↦ elim (after_prefix "branch " line) [
        | some rest ↦ scan (record cur { branch = trim_space rest }) lines
        | none ↦ scan cur lines
      ]
    ]

-- The lines of a scanner: an empty text after the last line break is no line, and matches no prefix
-- here either.
unfoldable pub parse_git_worktrees : String → List GitWt
unfolding scan
parse_git_worktrees out = scan (record { path = ""; branch = "" }) (split_at_code 10 out)

-- The root of the worktrees, and whether it is the old layout.
unfoldable pub worktrees_root : Manager → String × Bool
worktrees_root m =
    let v = trim_space m.worktrees_dir in
    let root = clean m.git_root in
    if str_eq v ""
    then (join (dir root) (str_append (base root) "-myworktree"), false)
    else if str_eq v "data" || str_eq v "datadir"
    then (join m.data_dir "worktrees", true)
    else if is_abs v
    then (v, false)
    else (join m.git_root v, false)

-- the record of the path, as the loop of `Import` finds it
unfoldable pub find_path : String → List ManagedWorktree → Option ManagedWorktree
find_path path [] = none
find_path path (x ∷ xs) = if str_eq x.path path then some x else find_path path xs

unfoldable pub find_id : String → List ManagedWorktree → Option ManagedWorktree
find_id id [] = none
find_id id (x ∷ xs) = if str_eq x.id id then some x else find_id id xs

unfoldable pub remove_id : String → List ManagedWorktree → List ManagedWorktree
remove_id id [] = []
remove_id id (x ∷ xs) = if str_eq x.id id then xs else x ∷ remove_id id xs

-- `managed[clean]`
pub is_managed : String → List ManagedWorktree → Bool
is_managed path [] = false
is_managed path (x ∷ xs) = str_eq (clean x.path) path || is_managed path xs

pub unmanaged : Manager → List ManagedWorktree → List GitWt → List GitWt
unfolding is_managed
unmanaged m ws [] = []
unmanaged m ws (r ∷ rs) =
    let rest = unmanaged m ws rs in
    let path = clean r.path in
    let br = trim_prefix "refs/heads/" r.branch in
    if str_eq path (clean m.git_root) || is_managed path ws || str_eq br "" || str_eq br "HEAD"
    then rest
    else record { path = r.path; branch = br } ∷ rest

-- the entry of the branch
pub find_branch : String → List GitWt → Option GitWt
find_branch branch [] = none
find_branch branch (r ∷ rs) = if str_eq r.branch branch then some r else find_branch branch rs

pub find_clean : String → List GitWt → Option GitWt
find_clean path [] = none
find_clean path (r ∷ rs) = if str_eq (clean r.path) path then some r else find_clean path rs

-- the path, the branch and the name of a worktree to adopt
abbrev Found : Type 0
Found = String × (String × String)

abbrev with_default : String × (String × Option (String × String)) → String × String
with_default (branch, (name, none)) = (branch, name)
with_default (branch, (name, some (g, n))) =
    (str_append g (str_append "/" n), str_append g (str_append "-" n))

-- A path that is empty counts as not found in the code; the entries have none.
pub locate : String → List GitWt → Option Found
unfolding find_clean find_branch
locate spec items =
    let named = with_default (str_append "mwt/" spec, (spec, parse_branch_spec spec)) in
    let legacy = str_append "wt/" spec in
    if is_abs spec
    then elim (find_clean (clean spec) items) [
      | none ↦ none
      | some it ↦ some (it.path, (trim_prefix "refs/heads/" it.branch, base it.path))
    ]
    else elim (find_branch (str_append "refs/heads/" named.0) items) [
      | some it ↦ some (it.path, (named.0, named.1))
      | none ↦ elim (find_branch (str_append "refs/heads/" legacy) items) [
        | some it ↦ some (it.path, (legacy, named.1))
        | none ↦ none
      ]
    ]

module _ {W : Type 0} (c : Calls W) (m : Manager) where
  unmanaged_of : Result State × W → Option (List GitWt) × W
  unfolding unmanaged
  unmanaged_of (err e, w) = (none, w)
  unmanaged_of (ok st, w) = elim (c.list_porcelain w) [
    | none ↦ (none, w)
    | some out ↦ (some (unmanaged m st.worktrees (parse_git_worktrees out)), w)
  ]

  -- `none` is the error of the load or of git
  unfoldable pub list_unmanaged : W → Option (List GitWt) × W
  unfolding unmanaged_of
  list_unmanaged w = unmanaged_of (c.load w)

  pub saved : ManagedWorktree → Result (Unit {0}) × W → Result ManagedWorktree × W
  saved wt (ok _, w) = (ok wt, w)
  saved wt (err e, w) = (err e, w)

  -- `st.Worktrees = append(st.Worktrees, wt)` and the save
  unfoldable pub recorded : ManagedWorktree → Result State × W → Result ManagedWorktree × W
  unfolding saved
  recorded wt (err e, w) = (err e, w)
  recorded wt (ok st, w) = saved wt (c.save (record st { worktrees = st.worktrees ++ (wt ∷ []) }) w)

  pub adopt : ManagedWorktree → Result State × W → Result ManagedWorktree × W
  unfolding recorded
  adopt wt (err e, w) = (err e, w)
  adopt wt (ok st, w) = elim (find_path wt.path st.worktrees) [
    | some existing ↦ (ok existing, w)
    | none ↦ recorded wt (ok st, w)
  ]

  -- `Import`; `id` and `now` are `shortID()` and the time
  unfoldable pub import_worktree : String → String → String → W → Result ManagedWorktree × W
  unfolding locate adopt
  import_worktree id now name_or_path w =
      let spec = trim_space name_or_path in
      if str_eq spec ""
      then (err (failure "worktree name or path is required"), w)
      else elim (c.list_porcelain w) [
        | none ↦ (err (failure "git worktree list failed"), w)
        | some out ↦ elim (locate spec (parse_git_worktrees out)) [
          | none ↦ (err (failure "no git worktree found"), w)
          | some (path, (branch, name)) ↦
              adopt
                (record {
                  id = id;
                  name = name;
                  path = path;
                  branch = branch;
                  base_ref = "";
                  created_at = now;
                })
                (c.load w)
        ]
      ]
