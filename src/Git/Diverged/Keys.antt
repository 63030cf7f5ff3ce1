-- ===== src/Git/Diverged/Keys.antt =====
-- What `CheckDiverged` reports, branch by branch.
use myworktree.Prelude.{
  ◌≡◌, ◌≢◌, true, false, not, ◌||◌, Option, none, some, String, [], str_eq, if◌then◌else◌, lookup,
  insert, arith, eq_iff, ltb_int, pos, ℤ, negsuc, ◌↔◌,
}
use myworktree.Git.Text.{Git}
use myworktree.Git.Diverged.{
  Counted, counted, uncounted, DivergedStatus, status_of, ahead_count, has_develop, check_diverged,
}

-- A branch has diverged exactly if it lacks commits, and an error is not reported as either.
pub Coherent : DivergedStatus → Type 0
Coherent s =
    ((s.diverged ≡ true) ↔ (ltb_int (pos 0) s.ahead ≡ true)) × (s.diverged ≡ true → s.error ≡ none)

status_of-Coherent : (c : Counted ℤ) → Coherent (status_of c)
unfolding Coherent
status_of-Coherent (uncounted e) = ground arith
status_of-Coherent (counted (pos n)) = ground arith
status_of-Coherent (counted (negsuc n)) = ground arith

-- what is reported of develop
abbrev pub develop_status : Git → String → Option DivergedStatus
develop_status g branch =
    if str_eq branch "develop" || not (has_develop g)
    then none
    else some (status_of (ahead_count g branch "develop"))

-- The main branch itself has nothing to report. Any other branch has a status against the main branch,
-- and, unless it is develop or there is no develop, one against develop; a status says diverged exactly
-- if it counts a missing commit, and never together with an error.
pub check_diverged_lem :
    (g : Git) (branch main_branch : String)
    → (branch ≡ main_branch → check_diverged g branch main_branch ≡ [])
      × (branch ≢ main_branch
          → (lookup "mainBranch" (check_diverged g branch main_branch)
              ≡ some (status_of (ahead_count g branch main_branch)))
            × (lookup "develop" (check_diverged g branch main_branch) ≡ develop_status g branch)
            × Coherent (status_of (ahead_count g branch main_branch))
            × Coherent (status_of (ahead_count g branch "develop")))
unfolding check_diverged insert lookup
check_diverged_lem g branch main_branch = (
  (λ e. ground (arith, e, eq_iff branch main_branch)),
  (λ n.
      let same : str_eq branch main_branch ≡ false = ground (arith, n, eq_iff branch main_branch) in
      (
        ground (arith, same),
        ground (arith, same),
        status_of-Coherent (ahead_count g branch main_branch),
        status_of-Coherent (ahead_count g branch "develop"),
      )),
)
