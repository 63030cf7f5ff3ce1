-- ===== src/Worktree/Tests.antt =====
-- Names, summaries and the manager of worktrees at concrete inputs.
use myworktree.Prelude.{
  ◌≡◌, refl, true, false, none, some, [], ◌∷◌, str_eq, show_nat, trim_space, split_at_code,
  after_prefix, all_codes, clean, join, dir, base, is_abs,
}
use myworktree.Store.{State, ManagedWorktree, zero_state, ok}
use myworktree.Worktree.Porcelain.{
  Bytes, summarize_porcelain, split_lines, count_ignored_porcelain, cap_dirty_porcelain,
  contains_byte, has_double, add_line,
}
use myworktree.Worktree.Porcelain as P
use myworktree.Worktree.Porcelain.Summary.{empty_error}
use myworktree.Worktree.Names.{parse_branch_spec, is_branch_token, slugify, free_name}
use myworktree.Worktree.Manager.{
  Calls, present, parse_git_worktrees, find_id, worktrees_root, recorded,
}
use myworktree.Worktree.Manager.Delete.{delete, delete-Refused, Refused, refusal}
use myworktree.Worktree.Manager.Create.{CreateOptions, Naming, create_branch, create_branch-free}

slug_test : slugify "Fix: the  Login!" ≡ "fix-the-login"
unfolding slugify
slug_test = refl

spec_test : parse_branch_spec " feature/login " ≡ some ("feature", "login")
unfolding parse_branch_spec trim_space split_at_code is_branch_token all_codes
spec_test = refl

list_test :
    parse_git_worktrees "worktree /r\nHEAD abc\nbranch refs/heads/main\n\nworktree /w\ndetached\n"
    ≡ record { path = "/r"; branch = "refs/heads/main" } ∷ record { path = "/w"; branch = "" } ∷ []
unfolding parse_git_worktrees split_at_code after_prefix trim_space
list_test = refl

-- git's " M ab": the leading blank is trimmed off before the summary, which cuts the path short
abbrev modified_out : Bytes
modified_out = 32 ∷ 77 ∷ 32 ∷ 97 ∷ 98 ∷ 10 ∷ []

cut_path_test :
    (summarize_porcelain (P.trim_space modified_out) (empty_error [])).first_paths ≡ (98 ∷ []) ∷ []
unfolding summarize_porcelain P.trim_space split_lines add_line contains_byte has_double
cut_path_test = refl

abbrev tree : ManagedWorktree
tree = record {
  id = "a1";
  name = "fix";
  path = "/w/fix";
  branch = "worktree/fix";
  base_ref = "";
  created_at = "";
}

-- a world whose state is its state file, with one dirty worktree and one branch
abbrev calls : Calls State
calls = record {
  branch_exists = λ b w. str_eq b "worktree/fix";
  verify_ref = λ r w. true;
  list_porcelain = λ w. some "";
  status = λ p w. some modified_out;
  status_ignored = λ p w. none;
  stat = λ p w. present;
  worktree_add = λ b p r w. (true, w);
  worktree_remove = λ f p w. (true, w);
  worktree_prune = λ w. (true, w);
  mkdir_all = λ p w. (true, w);
  load = λ w. (ok w, w);
  save = λ st w. (ok tt, st);
}

abbrev one_tree : State
one_tree = record zero_state { worktrees = tree ∷ [] }

delete-Refused_example :
    Refused calls "a1" false one_tree (refusal (P.trim_space modified_out) none)
unfolding delete find_id P.trim_space
delete-Refused_example =
    delete-Refused calls "a1" false one_tree (refusal (P.trim_space modified_out) none) refl

abbrev fix_naming : Naming
fix_naming = record { group = "worktree"; base_name = "fix"; custom = false }

abbrev options : CreateOptions
options = record { base_ref = ""; adopt_if_exists = false; branch_name = "" }

abbrev made_tree : ManagedWorktree
made_tree = record {
  id = "b2";
  name = "fix-2";
  path = "/r/w/fix-2";
  branch = "worktree/fix-2";
  base_ref = "";
  created_at = "now";
}

create_branch-free_example : calls.branch_exists "worktree/fix-2" one_tree ≡ false
unfolding create_branch recorded free_name show_nat worktrees_root trim_space clean join dir base
    is_abs split_at_code after_prefix
create_branch-free_example =
    create_branch-free calls (record { git_root = "/r"; data_dir = "/d"; worktrees_dir = "w" }) "b2"
      "now" 3 fix_naming options one_tree made_tree refl
