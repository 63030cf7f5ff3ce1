-- ===== src/Git/Tests.antt =====
-- A repository at concrete answers.
use myworktree.Prelude.{
  ◌≡◌, ◌≢◌, ◌⊎◌, refl, none, String, List, [], ◌∷◌, ℤ, pos, str_eq, if◌then◌else◌, arith, eq_iff,
  split_at_code, trim_space,
}
use myworktree.Git.Text.{Answer, out, failed, Git, parse_int, fields}
use myworktree.Git.Branches.{list_remotes, trimmed_names}
use myworktree.Git.Diverged.{
  branch_head, remote_head, effective_head, furthest, ahead_of, left_right_count,
}
use myworktree.Git.Diverged.Best.{Bounded, Offered, effective_head-Best}

abbrev answer_to : List String → String → Answer → Answer → Answer
answer_to (v ∷ []) arg given other = if str_eq v arg then given else other
answer_to _ arg given other = other

-- The branch main is at "aaa", that of the remote "fork" at "bbb", two commits further; origin has none.
abbrev repository : Git
repository [] = failed "no command"
repository (c ∷ rest) =
    if str_eq c "remote"
    then out "fork\n"
    else if str_eq c "rev-parse"
    then answer_to rest "main" (out "aaa\n")
        (answer_to rest "fork/main" (out "bbb\n") (failed "unknown revision"))
    else if str_eq c "rev-list"
    then out "0\t2\n"
    else if str_eq c "for-each-ref"
    then out "main\t1700000000\nold\t1600000000\n"
    else failed "no such command"

further : effective_head repository "main" ≡ ("bbb", none)
unfolding effective_head branch_head remote_head list_remotes trimmed_names split_at_code furthest
    ahead_of left_right_count parse_int fields trim_space
further = refl

local_is : branch_head repository "main" ≡ "aaa"
unfolding branch_head trim_space
local_is = refl

local_head : branch_head repository "main" ≢ ""
local_head e = absurd (ground (arith, e, local_is, eq_iff "aaa" ""))

no_origin : remote_head repository "origin" "main" ≡ ""
unfolding remote_head trim_space
no_origin = refl

effective_head-Best_example :
    (n : ℤ) × Bounded repository "main" (branch_head repository "main") (list_remotes repository) n
    × ((effective_head repository "main" ≡ (branch_head repository "main", none)) × (n ≡ pos 0)
        ⊎ Offered repository "main"
            (branch_head repository "main")
            (list_remotes repository)
            (n, (effective_head repository "main").0))
effective_head-Best_example = effective_head-Best repository "main" local_head no_origin
