-- ===== src/App/Diff/Tests.antt =====
-- Paths and counts of git at concrete inputs.
use myworktree.Prelude.{◌≡◌, refl, [], ◌∷◌, arith, inl, inr}
use myworktree.Worktree.Porcelain.{Bytes, split_lines, trim_space}
use myworktree.App.Diff.{
  unquote_git_path, inner, unescape, step, change_of, add_change, add_changes,
  parse_git_diff_num_stat, cut_tab, atoi,
}
use myworktree.App.Diff.Quoting.{Quotable, git_quoted, unquote_git_path-git_quoted}

-- "a", a tab, "b" and "é"
abbrev name : Bytes
name = 97 ∷ 9 ∷ 98 ∷ 195 ∷ 169 ∷ []

unquote_git_path-git_quoted_example : unquote_git_path (git_quoted name) ≡ name
unfolding Quotable
unquote_git_path-git_quoted_example = unquote_git_path-git_quoted name (
  omega arith,
  inr (inr (inr (omega arith))),
  (
    omega arith,
    inr (inl refl),
    (
      omega arith,
      inr (inr (inr (omega arith))),
      (
        omega arith,
        inr (inr (inr (omega arith))),
        (omega arith, inr (inr (inr (omega arith))), tt),
      ),
    ),
  ),
)

-- Git writes a carriage return as a backslash and an r, which the code leaves as they are.
carriage_return : unquote_git_path (34 ∷ 97 ∷ 92 ∷ 114 ∷ 34 ∷ []) ≡ 97 ∷ 92 ∷ 114 ∷ []
unfolding unquote_git_path inner unescape step
carriage_return = refl

-- "3", a tab, "-", a tab, "f"
one_line : parse_git_diff_num_stat (51 ∷ 9 ∷ 45 ∷ 9 ∷ 102 ∷ 10 ∷ []) ≡ record {
  changes = record { path = 102 ∷ []; additions = 3; deletions = 0 } ∷ [];
  additions = 3;
  deletions = 0;
}
unfolding parse_git_diff_num_stat add_changes add_change change_of cut_tab atoi unquote_git_path
    inner split_lines trim_space
one_line = refl
