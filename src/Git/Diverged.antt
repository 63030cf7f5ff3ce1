-- ===== src/Git/Diverged.antt =====
-- internal/gitx/diverged.go: whether a worktree's branch is behind the branches it came from.
pub mod Best
pub mod Keys
use myworktree.Prelude.{
  ℕ, Bool, true, false, not, ◌&&◌, ◌||◌, Option, none, some, String, List, [], ◌∷◌, str_eq,
  str_append, if◌then◌else◌, ℤ, pos, ltb_int, trim_space, Assoc, insert,
}
use myworktree.Git.Text.{Answer, out, failed, Git, atoi, fields}
use myworktree.Git.Branches.{branch_exists, list_remotes}

-- Why there is no count: what git says, or the text that is no number.
pub data CountError : Type 0 where
  left_right_failed : String → CountError
  unexpected_output : String → CountError
  bad_left : String → CountError
  bad_right : String → CountError
  rev_list_failed : String → CountError
  bad_count : String → CountError

pub data Counted {ℓ} (A : Type ℓ) : Type ℓ where
  counted : A → Counted A
  uncounted : CountError → Counted A

abbrev trimmed_of : Answer → String
trimmed_of (out s) = trim_space s
trimmed_of (failed e) = ""

unfoldable pub branch_head : Git → String → String
branch_head g branch = if str_eq branch "" then "" else trimmed_of (g ("rev-parse" ∷ branch ∷ []))

unfoldable pub remote_head : Git → String → String → String
remote_head g remote branch =
    trimmed_of (g ("rev-parse" ∷ str_append remote (str_append "/" branch) ∷ []))

-- the two numbers of the output
two_counts : String → List String → Counted (ℤ × ℤ)
two_counts text (l ∷ r ∷ []) = elim (atoi l) [
  | none ↦ uncounted (bad_left l)
  | some a ↦ elim (atoi r) [ none ↦ uncounted (bad_right r) | some b ↦ counted (a, b) ]
]
two_counts text _ = uncounted (unexpected_output (trim_space text))

unfoldable pub left_right_count : Git → String → String → Counted (ℤ × ℤ)
unfolding two_counts
left_right_count g left right =
    if str_eq left "" || str_eq right ""
    then counted (pos 0, pos 0)
    else elim (g
        ("rev-list" ∷ "--left-right" ∷ "--count" ∷ str_append left (str_append "..." right) ∷ [])) [
          | failed e ↦ uncounted (left_right_failed e)
          | out s ↦ two_counts s (fields s)
        ]

-- the head of a remote other than origin and its count, where it is ahead of the local head
unfoldable pub ahead_of : Git → String → String → String → Option (ℤ × String)
ahead_of g branch local remote =
    let head = remote_head g remote branch in
    if str_eq remote "origin" || str_eq head ""
    then none
    else elim (left_right_count g local head) [
      | uncounted e ↦ none
      | counted (local_ahead, remote_ahead) ↦
          if ltb_int local_ahead remote_ahead then some (remote_ahead, head) else none
    ]

abbrev pub better : Option (ℤ × String) → ℤ × String → ℤ × String
better none best = best
better (some (a, h)) best = if not (ltb_int a best.0) then (a, h) else best

-- `maxRemoteAhead` and `maxRemoteHead` after the loop over the remotes
unfoldable pub furthest : Git → String → String → List String → ℤ × String → ℤ × String
furthest g branch local [] best = best
furthest g branch local (r ∷ rs) best =
    furthest g branch local rs (better (ahead_of g branch local r) best)

first_head : Git → String → List String → String
first_head g branch [] = ""
first_head g branch (r ∷ rs) =
    let rest = first_head g branch rs in
    let head = remote_head g r branch in if str_eq r "origin" || str_eq head "" then rest else head

abbrev or_local : String → String → String
or_local local head = if str_eq head "" then local else head

-- the head, and the error of the comparison with origin if there is one
unfoldable pub effective_head : Git → String → String × Option CountError
unfolding furthest first_head
effective_head g branch =
    let local = branch_head g branch in
    let origin = remote_head g "origin" branch in
    if str_eq local ""
    then (if str_eq origin "" then (first_head g branch (list_remotes g), none) else (origin, none))
    else if str_eq origin ""
    then (or_local local (furthest g branch local (list_remotes g) (pos 0, "")).1, none)
    else elim (left_right_count g local origin) [
      | uncounted e ↦ (local, some e)
      | counted (local_ahead, remote_ahead) ↦
          (if ltb_int local_ahead remote_ahead then (origin, none) else (local, none))
    ]

-- `git rev-list --count` of the commits that the branch lacks
commits : Git → String → String → Counted ℤ
commits g head effective =
    elim (g ("rev-list" ∷ "--count" ∷ str_append head (str_append ".." effective) ∷ [])) [
      | failed e ↦ uncounted (rev_list_failed e)
      | out s ↦ elim (atoi (trim_space s)) [
        | none ↦ uncounted (bad_count (trim_space s))
        | some n ↦ counted n
      ]
    ]

unfoldable pub ahead_count : Git → String → String → Counted ℤ
unfolding commits effective_head branch_head
ahead_count g branch upstream_branch =
    let effective = effective_head g upstream_branch in
    let head = branch_head g branch in
    elim effective.1 [
      | some e ↦ uncounted e
      | none ↦
          if str_eq effective.0 "" || str_eq head ""
          then counted (pos 0)
          else commits g head effective.0
    ]

-- `DivergedStatus`; the error's text names the branch that was asked for
pub record DivergedStatus : Type 0 where
  pub diverged : Bool
  pub ahead : ℤ
  pub error : Option CountError

abbrev pub status_of : Counted ℤ → DivergedStatus
status_of (uncounted e) = record { diverged = false; ahead = pos 0; error = some e }
status_of (counted n) =
    if ltb_int (pos 0) n
    then record { diverged = true; ahead = n; error = none }
    else record { diverged = false; ahead = pos 0; error = none }

-- `branchExists(develop) || remoteHead(origin, develop) != ""`
unfoldable pub has_develop : Git → Bool
has_develop g = branch_exists g "develop" || not (str_eq (remote_head g "origin" "develop") "")

unfoldable pub check_diverged : Git → String → String → Assoc DivergedStatus
unfolding insert
check_diverged g worktree_branch main_branch =
    let main = insert "mainBranch" (status_of (ahead_count g worktree_branch main_branch)) [] in
    if str_eq worktree_branch main_branch
    then []
    else if str_eq worktree_branch "develop"
    then main
    else if has_develop g
    then insert "develop" (status_of (ahead_count g worktree_branch "develop")) main
    else main
