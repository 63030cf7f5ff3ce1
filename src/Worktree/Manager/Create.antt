-- ===== src/Worktree/Manager/Create.antt =====
-- `CreateWithOptionsCtx`: the name of the branch, its adoption, and `git worktree add`.
use myworktree.Prelude.{
  ℕ, ◌≡◌, ap, Bool, true, false, not, ◌&&◌, Option, none, some, String, arith, str_eq, str_append,
  if◌then◌else◌, trim_space, join, Bool-cases, Option-cases, inl, inr,
}
use myworktree.Store.{State, ManagedWorktree, Result, ok, err, failure}
use myworktree.Worktree.Names.{parse_branch_spec, slugify, free_name, free_name-free}
use myworktree.Worktree.Manager.{Calls, Manager, worktrees_root, import_worktree, recorded, saved}

pub record CreateOptions : Type 0 where
  pub base_ref : String
  pub adopt_if_exists : Bool
  pub branch_name : String

-- the group, the base of the name, and whether these were given or generated
pub record Naming : Type 0 where
  pub group : String
  pub base_name : String
  pub custom : Bool

-- the two empty strings where the text is no branch
given : Option (String × String) → Naming
given none = record { group = ""; base_name = ""; custom = true }
given (some (g, n)) = record { group = g; base_name = n; custom = true }

generated : Option String → Result Naming
generated none = err (failure "LLM branch naming failed")
generated (some text) = ok (given (parse_branch_spec text))

abbrev slug_of : String → String
slug_of task = if str_eq (slugify task) "" then "worktree" else slugify task

-- `llm` is `none` where no model is configured, and otherwise names a branch for the task, or fails
unfoldable pub naming : Option (String → Option String) → CreateOptions → String → Result Naming
unfolding given generated
naming llm opts task =
    let branch = given (parse_branch_spec opts.branch_name) in
    if not (str_eq opts.branch_name "") then ok branch else elim (parse_branch_spec task) [
      | some spec ↦ ok (given (some spec))
      | none ↦ elim llm [
        | some generate ↦ generated (generate task)
        | none ↦ ok (record { group = "worktree"; base_name = slug_of task; custom = false })
      ]
    ]

abbrev pub branch_of : Naming → String → String
branch_of n name = str_append n.group (str_append "/" name)

abbrev tree_name : Naming → String → String
tree_name n name = if n.custom then str_append n.group (str_append "-" name) else name

abbrev ref_of : String → String
ref_of base_ref = if str_eq (trim_space base_ref) "" then "HEAD" else trim_space base_ref

module _ {W : Type 0} (c : Calls W) (m : Manager) (id now : String) where
  abbrev path_of : String → String
  path_of name =
      let root = worktrees_root m in
      join root.0 (if root.1 then str_append id (str_append "-" name) else name)

  added : ManagedWorktree → Bool × W → Result ManagedWorktree × W
  added wt (false, w) = (err (failure "git worktree add failed"), w)
  added wt (true, w) = recorded c m wt (c.load w)

  rooted : Naming → CreateOptions → String → Bool × W → Result ManagedWorktree × W
  unfolding added
  rooted n opts name (false, w) = (err (failure "mkdir"), w)
  rooted n opts name (true, w) =
      let ref = ref_of opts.base_ref in
      let path = path_of (tree_name n name) in
      if not (c.verify_ref ref w)
      then (err (failure "base ref not found"), w)
      else added
          (record {
            id = id;
            name = tree_name n name;
            path = path;
            branch = branch_of n name;
            base_ref = opts.base_ref;
            created_at = now;
          })
          (c.worktree_add (branch_of n name) path ref w)

  -- From the choice of a free name on, with fuel for the numbers that are tried.
  unfoldable pub create_branch : ℕ → Naming → CreateOptions → W → Result ManagedWorktree × W
  unfolding rooted
  create_branch fuel n opts w =
      elim (free_name (λ name. c.branch_exists (branch_of n name) w) n.base_name fuel 2
        n.base_name) [
          | none ↦ (err (failure "out of fuel"), w)
          | some name ↦ rooted n opts name (c.mkdir_all (worktrees_root m).0 w)
        ]

  -- what an import that fails leaves: the code goes on with a new branch
  or_create : ℕ → Naming → CreateOptions → Result ManagedWorktree × W → Result ManagedWorktree × W
  or_create fuel n opts (ok wt, w) = (ok wt, w)
  or_create fuel n opts (err e, w) = create_branch fuel n opts w

  abbrev import_name : Naming → String
  import_name n = if n.custom then branch_of n n.base_name else n.base_name

  named : ℕ → CreateOptions → Result Naming → W → Result ManagedWorktree × W
  unfolding or_create
  named fuel opts (err e) w = (err e, w)
  named fuel opts (ok n) w =
      if opts.adopt_if_exists && c.branch_exists (branch_of n n.base_name) w
      then or_create fuel n opts (import_worktree c m id now (import_name n) w)
      else create_branch fuel n opts w

  unfoldable pub create :
      ℕ → Option (String → Option String) → CreateOptions → String → W → Result ManagedWorktree × W
  unfolding named
  create fuel llm opts task w =
      if str_eq (trim_space task) ""
      then (err (failure "task description is required"), w)
      else named fuel opts (naming llm opts task) w

  recorded-branch :
      (wt : ManagedWorktree) (r : Result State × W) (made : ManagedWorktree)
      → (recorded c m wt r).0 ≡ ok made
      → made ≡ wt
  unfolding recorded saved
  recorded-branch wt (err e, w) made h = ground arith
  recorded-branch wt (ok st, w) made h = ground arith

  added-branch :
      (wt : ManagedWorktree) (r : Bool × W) (made : ManagedWorktree)
      → (added wt r).0 ≡ ok made
      → made ≡ wt
  unfolding added
  added-branch wt (false, w) made h = ground arith
  added-branch wt (true, w) made h = recorded-branch wt (c.load w) made h

  rooted-branch :
      (n : Naming) (opts : CreateOptions) (name : String) (r : Bool × W) (made : ManagedWorktree)
      → (rooted n opts name r).0 ≡ ok made
      → made.branch ≡ branch_of n name
  unfolding rooted
  rooted-branch n opts name (false, w) made h = ground arith
  rooted-branch n opts name (true, w) made h =
      elim (Bool-cases (c.verify_ref (ref_of opts.base_ref) w)) [
        | inl e ↦
            ap (λ t. t.branch)
              (added-branch
                (record {
                  id = id;
                  name = tree_name n name;
                  path = path_of (tree_name n name);
                  branch = branch_of n name;
                  base_ref = opts.base_ref;
                  created_at = now;
                })
                (c.worktree_add (branch_of n name) (path_of (tree_name n name))
                  (ref_of opts.base_ref) w)
                made (ground (arith, e)))
        | inr e ↦ absurd (ground (arith, e))
      ]

  -- A worktree that is made for a new branch has a branch that did not exist before.
  pub create_branch-free :
      (fuel : ℕ) (n : Naming) (opts : CreateOptions) (w : W) (wt : ManagedWorktree)
      → (create_branch fuel n opts w).0 ≡ ok wt
      → c.branch_exists wt.branch w ≡ false
  unfolding create_branch
  create_branch-free fuel n opts w wt h =
      elim (Option-cases
        (free_name (λ name. c.branch_exists (branch_of n name) w) n.base_name fuel 2 n.base_name)) [
          | inl e ↦ absurd (ground (arith, e))
          | inr (name, e) ↦
              let same =
                rooted-branch n opts name (c.mkdir_all (worktrees_root m).0 w) wt
                  (ground (arith, e)) in
              let free =
                free_name-free (λ name. c.branch_exists (branch_of n name) w) n.base_name fuel 2
                  n.base_name name e in
              rw same free
        ]
