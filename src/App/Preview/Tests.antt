-- ===== src/App/Preview/Tests.antt =====
-- Previews at concrete inputs.
use myworktree.Prelude.{
  ◌≡◌, refl, true, false, none, some, [], ◌∷◌, clean, base, join, is_abs, after_prefix,
  split_at_code, contains, trim_space,
}
use myworktree.App.Preview.{
  is_binary_data, is_path_within, is_sensitive_file, detect_file_type, ext, added_lines,
}
use myworktree.App.Preview.Added.{read_line, read_line-added_lines}
use myworktree.App.Preview.Handlers.{
  Site, resolve_worktree_path, refused_with, shown, handle_worktree_file_content,
}

read_line-added_lines_example :
    read_line true (added_lines (104 ∷ 105 ∷ 10 ∷ 10 ∷ 111 ∷ [])) ≡ 104 ∷ 105 ∷ 10 ∷ 10 ∷ 111 ∷ []
read_line-added_lines_example = read_line-added_lines (104 ∷ 105 ∷ 10 ∷ 10 ∷ 111 ∷ [])

above_root : is_path_within "/" "/w/fix" "../main/a.txt" ≡ false
unfolding is_path_within clean base join is_abs after_prefix split_at_code
above_root = refl

abbrev site : Site
site = record {
  cwd = "/";
  root = "/w";
  worktrees = none;
  size_of = λ p. some 1;
  content_of = λ p. some (120 ∷ []);
  diff_of = λ root staged path. none;
  bytes_of = λ s. [];
}

private_file : handle_worktree_file_content site "__main__" ".env" ≡ refused_with 403
unfolding handle_worktree_file_content resolve_worktree_path trim_space is_path_within
    is_sensitive_file ext clean base join is_abs after_prefix split_at_code contains
private_file = refl

-- The same file with a dot behind it has the name ".", and is shown.
private_file_dot :
    (handle_worktree_file_content site "__main__" ".env/." ≡ shown "text/plain" (120 ∷ []))
    × (join "/w" ".env/." ≡ "/w/.env")
unfolding handle_worktree_file_content resolve_worktree_path trim_space is_path_within
    is_sensitive_file ext clean base join is_abs after_prefix split_at_code contains is_binary_data
    detect_file_type
private_file_dot = (refl, refl)
